-- ===== src/Hub/Connections/Changes.antt =====
-- One step of a connection keeps the hub sound.
use nullpipe.Common.{
  ℕ, ◌≡◌, refl, sym, ap, ◌∙◌, subst, inl, Option, some, List, ◌++◌, All, All-append, Result, ok,
  err, get_elem?, set_elem, get_elem?-set_same, if_both, length, ltb,
}
use nullpipe.Std.Utf8.{Bytes}
use nullpipe.Std.Text.{Text}
use nullpipe.Types.{ChatError, PeerId}
use nullpipe.External.Codecs.{Base58, Hex}
use nullpipe.External.Streams.{Stream}
use nullpipe.Nonces.{Nonces, IsDistinct}
use nullpipe.PeerMap.{IsUnique, insert-IsUnique, remove-IsUnique}
use nullpipe.Wire.{Json, WireMessage, system_message}
use nullpipe.Room.Handshake.Claims.{Claims, IsDistinct-Claims}
use nullpipe.Hub.{Hub}
use nullpipe.Hub.Registry.{register, deregister}
use nullpipe.Hub.Handshake.Ending.{handshake_ends}
use nullpipe.Hub.Tasks.{Passed, reply, Turn, own_frame, own_end, broadcasted, lagged, closed}
use nullpipe.Hub.Connections.{
  Phase, handshaking, refused, admitted, registered, announced, serving, written_out, removed,
  notified, gone, Serving, identity, after_handshake, step, advance_cursor, queue_capacity,
}
use nullpipe.Hub.Connections.Moves.{moved}
use nullpipe.Hub.Connections.Keeping.{
  holds, Conn, AllNamed, IsVouched, AllNamed-same, AllNamed-insert, AllNamed-remove,
  All-IsVouched-same,
}

module _ (json : Json) (base58 : Base58) (hex : Hex) (st : Stream) where
  -- What holds of a hub at any time.
  pub record IsSound (sv : Serving json base58 hex st) : Type 0 where
    pub distinct : IsDistinct sv.hub.used_nonces
    pub unique : IsUnique sv.hub.peer_registry
    pub named : AllNamed json base58 hex st sv.hub.peer_registry sv.connections
    pub vouched : All (IsVouched json base58 hex st sv.connections) sv.hub.queue

  abbrev pub who : Phase → Option (PeerId × Text)
  who = identity json base58 hex st

  pub reply-messages :
      (r : Result Bytes ChatError) (p : Passed) → (reply json st r p).messages ≡ p.messages
  reply-messages (ok frame) p = refl
  reply-messages (err e) p = refl

  pub advance_cursor-phase :
      (c : Conn json base58 hex st) (t : Turn json st)
      → (advance_cursor json base58 hex st t c).phase ≡ c.phase
  advance_cursor-phase c (own_frame frame) = refl
  advance_cursor-phase c (lagged n) = refl
  advance_cursor-phase c (broadcasted e) = refl
  advance_cursor-phase c own_end = refl
  advance_cursor-phase c closed = refl

  -- A connection changes, and stands for whom it stood for; of the hub only what does not matter here changes.
  pub changed :
      (sv : Serving json base58 hex st) (i : ℕ) (c c' : Conn json base58 hex st) (hub : Hub)
      → get_elem? sv.connections i ≡ some c
      → ((b : PeerId × Text) → holds c.phase ≡ some b → holds c'.phase ≡ some b)
      → ((b : PeerId × Text) → who c.phase ≡ some b → who c'.phase ≡ some b)
      → hub.peer_registry ≡ sv.hub.peer_registry
      → hub.queue ≡ sv.hub.queue
      → IsDistinct hub.used_nonces
      → IsSound sv
      → IsSound (moved json base58 hex st i (c', hub) sv)
  changed sv i c c' hub here held known reg queue distinct h = record {
    distinct = distinct;
    unique = subst IsUnique (sym reg) h.unique;
    named =
        subst (λ r. AllNamed json base58 hex st r (set_elem sv.connections i c')) (sym reg)
          (AllNamed-same json base58 hex st sv.connections i c c' here sv.hub.peer_registry held
            h.named);
    vouched =
        subst (All (IsVouched json base58 hex st (set_elem sv.connections i c'))) (sym queue) (
          All-IsVouched-same json base58 hex st sv.connections i c c' here known sv.hub.queue
            h.vouched);
  }

  module _ (sv : Serving json base58 hex st) (i : ℕ) (c : Conn json base58 hex st)
      (here : get_elem? sv.connections i ≡ some c) (h : IsSound sv) where
    pub unchanged : IsSound (moved json base58 hex st i (c, sv.hub) sv)
    unchanged = changed sv i c c sv.hub here (λ b q. q) (λ b q. q) refl refl h.distinct h

    handshaken :
        (r : Result (PeerId × Text) ChatError × (st.State × Nonces))
        → c.phase ≡ handshaking
        → Claims sv.hub.used_nonces r.1.1
        → IsSound
            (moved json base58 hex st i (after_handshake json base58 hex st c sv.hub (some r)) sv)
    handshaken (err e, (s, ns)) p claims =
        changed sv i c _ _ here (λ b q. cc) (λ b q. cc) refl refl
          (IsDistinct-Claims sv.hub.used_nonces ns claims h.distinct) h
    handshaken (ok (id, name), (s, ns)) p claims =
        changed sv i c _ _ here (λ b q. cc) (λ b q. cc) refl refl
          (IsDistinct-Claims sv.hub.used_nonces ns claims h.distinct) h

    entered :
        (now : ℕ) (id : PeerId) (name : Text)
        → c.phase ≡ admitted id name
        → IsSound (
            moved json base58 hex st i
              (step json base58 hex st i now (admitted id name) c sv.hub)
              sv)
    unfolding step register
    entered now id name p = record {
      distinct = h.distinct;
      unique = insert-IsUnique id _ sv.hub.peer_registry h.unique;
      named =
          AllNamed-insert json base58 hex st sv.connections i c
            (record c { phase = registered id name }) here sv.hub.peer_registry id
            (record { name = name; joined_at = now; tx = i }) (ap holds p) refl refl h.named;
      vouched =
          All-IsVouched-same json base58 hex st sv.connections i c
            (record c { phase = registered id name }) here (λ b q. sym (ap who p) ∙ q) sv.hub.queue
            h.vouched;
    }

    left :
        (now : ℕ) (id : PeerId) (name : Text)
        → c.phase ≡ written_out id name
        → IsSound (
            moved json base58 hex st i
              (step json base58 hex st i now (written_out id name) c sv.hub)
              sv)
    unfolding step deregister
    left now id name p = record {
      distinct = h.distinct;
      unique = remove-IsUnique id sv.hub.peer_registry h.unique;
      named =
          AllNamed-remove json base58 hex st sv.connections i c
            (record c { phase = removed id name }) here sv.hub.peer_registry id name (ap holds p)
            h.named;
      vouched =
          All-IsVouched-same json base58 hex st sv.connections i c
            (record c { phase = removed id name }) here (λ b q. sym (ap who p) ∙ q) sv.hub.queue
            h.vouched;
    }

    -- Messages are added to the queue.
    pub queued :
        (c' : Conn json base58 hex st) (hub : Hub) (more : List (PeerId × WireMessage))
        → ((b : PeerId × Text) → holds c.phase ≡ some b → holds c'.phase ≡ some b)
        → ((b : PeerId × Text) → who c.phase ≡ some b → who c'.phase ≡ some b)
        → hub.peer_registry ≡ sv.hub.peer_registry
        → hub.used_nonces ≡ sv.hub.used_nonces
        → hub.queue ≡ sv.hub.queue ++ more
        → All (IsVouched json base58 hex st (set_elem sv.connections i c')) more
        → IsSound (moved json base58 hex st i (c', hub) sv)
    queued c' hub more held known reg nonces queue good = record {
      distinct = subst IsDistinct (sym nonces) h.distinct;
      unique = subst IsUnique (sym reg) h.unique;
      named =
          subst (λ r. AllNamed json base58 hex st r (set_elem sv.connections i c')) (sym reg)
            (AllNamed-same json base58 hex st sv.connections i c c' here sv.hub.peer_registry held
              h.named);
      vouched =
          subst (All (IsVouched json base58 hex st (set_elem sv.connections i c'))) (sym queue) (
            All-append _ sv.hub.queue more
              (All-IsVouched-same json base58 hex st sv.connections i c c' here known sv.hub.queue
                h.vouched)
              good);
    }

    given_notice :
        (now : ℕ) (id : PeerId) (name : Text)
        → c.phase ≡ removed id name
        → IsSound (
            moved json base58 hex st i
              (step json base58 hex st i now (removed id name) c sv.hub)
              sv)
    unfolding step system_message
    given_notice now id name p =
        if_both (λ r. IsSound (moved json base58 hex st i r sv))
          (ltb (length sv.hub.queue) queue_capacity)
          (queued (record c { phase = notified id name }) _ _ (λ b q. cc)
            (λ b q. sym (ap who p) ∙ q) refl refl refl
            (
              (
                λ e. cc,
                inl (
                  refl,
                  (
                    i,
                    record c { phase = notified id name },
                    id,
                    name,
                    get_elem?-set_same sv.connections i (record c { phase = notified id name })
                        here,
                    refl,
                    refl,
                  ),
                ),
              ),
              tt,
            ))
          unchanged

    pub step-IsSound :
        (now : ℕ) (p : Phase)
        → c.phase ≡ p
        → IsSound (moved json base58 hex st i (step json base58 hex st i now p c sv.hub) sv)
    step-IsSound now handshaking p =
        unfold step in
        let (r, ends, claims) = handshake_ends base58 hex st c.stream sv.hub.used_nonces in
        subst
          (λ o.
            IsSound (moved json base58 hex st i (after_handshake json base58 hex st c sv.hub o) sv))
          (sym ends) (handshaken r p claims)
    step-IsSound now (refused e) p =
        unfold step in changed sv i c c sv.hub here (λ b q. q) (λ b q. q) refl refl h.distinct h
    step-IsSound now (admitted id name) p = entered now id name p
    step-IsSound now (registered id name) p =
        unfold step in
        changed sv i c _ _ here (λ b q. sym (ap holds p) ∙ q) (λ b q. sym (ap who p) ∙ q) refl refl
          h.distinct h
    step-IsSound now (announced id name) p =
        unfold step in
        changed sv i c _ _ here (λ b q. sym (ap holds p) ∙ q) (λ b q. sym (ap who p) ∙ q) refl refl
          h.distinct h
    step-IsSound now (serving id name) p =
        unfold step in changed sv i c c sv.hub here (λ b q. q) (λ b q. q) refl refl h.distinct h
    step-IsSound now (written_out id name) p = left now id name p
    step-IsSound now (removed id name) p = given_notice now id name p
    step-IsSound now (notified id name) p =
        unfold step in
        changed sv i c _ _ here (λ b q. cc) (λ b q. sym (ap who p) ∙ q) refl refl h.distinct h
    step-IsSound now (gone id name) p =
        unfold step in changed sv i c c sv.hub here (λ b q. q) (λ b q. q) refl refl h.distinct h
