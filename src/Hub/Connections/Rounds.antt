-- ===== src/Hub/Connections/Rounds.antt =====
-- One round of a connection's reader or writer keeps the hub sound.
use nullpipe.Common.{
  ℕ, ◌≡◌, refl, sym, ap, ◌∙◌, subst, inr, Bool, true, false, Option, none, some, All, get_elem?,
  set_elem, if_both, get_elem?-set_same, length, ltb,
}
use nullpipe.Std.Text.{Text}
use nullpipe.Types.{PeerId}
use nullpipe.External.Codecs.{Base58, Hex}
use nullpipe.External.Streams.{Stream}
use nullpipe.Wire.{
  Json, WireMessage, MessageType, chat, system, ping, pong, pong_message, encode_message,
  read_frame,
}
use nullpipe.Hub.{Hub}
use nullpipe.Hub.Tasks.{pass, received, Turn, writer_round}
use nullpipe.Hub.Connections.{
  Phase, handshaking, refused, admitted, registered, announced, serving, written_out, removed,
  notified, gone, Serving, read_round, after_read, write_turn, after_round, advance_cursor,
  next_turn, write_round, nothing, queue_capacity,
}
use nullpipe.Hub.Connections.Moves.{moved}
use nullpipe.Hub.Connections.Keeping.{holds, Conn, IsVouched}
use nullpipe.Hub.Connections.Changes.{
  IsSound, who, reply-messages, changed, advance_cursor-phase, unchanged, queued,
}

module _ (json : Json) (base58 : Base58) (hex : Hex) (st : Stream) where
  module _ (sv : Serving json base58 hex st) (i : ℕ) (c : Conn json base58 hex st)
      (here : get_elem? sv.connections i ≡ some c) (h : IsSound json base58 hex st sv) where
    -- What a reader passes on is vouched for by its connection.
    pass-IsVouched :
        (id : PeerId) (name : Text) (kind : MessageType) (m : WireMessage)
        (c' : Conn json base58 hex st)
        → m.kind ≡ kind
        → who json base58 hex st c'.phase ≡ some (id, name)
        → All
            (IsVouched json base58 hex st (set_elem sv.connections i c'))
            (pass json st id name kind m (nothing json base58 hex st)).messages
    pass-IsVouched id name ping m c' k e =
        subst (All (IsVouched json base58 hex st (set_elem sv.connections i c')))
          (sym (
            reply-messages json base58 hex st (encode_message json pong_message)
              (nothing json base58 hex st)))
          tt
    pass-IsVouched id name chat m c' k e =
        ((λ q. cc, inr (i, c', name, get_elem?-set_same sv.connections i c' here, e)), tt)
    pass-IsVouched id name system m c' k e =
        ((λ q. cc, inr (i, c', name, get_elem?-set_same sv.connections i c' here, e)), tt)
    pass-IsVouched id name pong m c' k e =
        ((λ q. cc, inr (i, c', name, get_elem?-set_same sv.connections i c' here, e)), tt)

    after_read-IsSound :
        (id : PeerId) (name : Text) (s : st.State) (o : Option WireMessage)
        → who json base58 hex st c.phase ≡ some (id, name)
        → IsSound json base58 hex st (
            moved json base58 hex st i (after_read json base58 hex st i (id, name) c sv.hub s o) sv)
    after_read-IsSound id name s none e =
        changed json base58 hex st sv i c _ sv.hub here (λ b q. q) (λ b q. q) refl refl h.distinct h
    after_read-IsSound id name s (some m) e =
        queued json base58 hex st sv i c here h (record c { stream = s }) _ _ (λ b q. q) (λ b q. q)
          refl refl refl (pass-IsVouched id name m.kind m (record c { stream = s }) refl e)

    pub read_round-IsSound :
        (o : Option (PeerId × Text))
        → who json base58 hex st c.phase ≡ o
        → IsSound json base58 hex st
            (moved json base58 hex st i (read_round json base58 hex st i o c sv.hub) sv)
    unfolding read_round
    read_round-IsSound none e = unchanged json base58 hex st sv i c here h
    read_round-IsSound (some (id, name)) e =
        let P = λ (r : Conn json base58 hex st × Hub).
          IsSound json base58 hex st (moved json base58 hex st i r sv) in
        if_both P c.reading
          (if_both P (ltb (length sv.hub.queue) queue_capacity)
            (after_read-IsSound id name (read_frame st c.stream).1
              (received json st (read_frame st c.stream).0) e)
            (unchanged json base58 hex st sv i c here h))
          (unchanged json base58 hex st sv i c here h)

    after_round-IsSound :
        (id : PeerId) (name : Text) (r : Bool × st.State) (c₁ : Conn json base58 hex st)
        → c.phase ≡ serving id name
        → c₁.phase ≡ c.phase
        → IsSound json base58 hex st
            (moved json base58 hex st i (after_round json base58 hex st (id, name) r c₁, sv.hub) sv)
    after_round-IsSound id name (true, s) c₁ p q =
        changed json base58 hex st sv i c _ sv.hub here (λ b e. ap holds q ∙ e)
          (λ b e. ap (who json base58 hex st) q ∙ e) refl refl h.distinct h
    after_round-IsSound id name (false, s) c₁ p q =
        changed json base58 hex st sv i c _ sv.hub here (λ b e. sym (ap holds p) ∙ e)
          (λ b e. sym (ap (who json base58 hex st) p) ∙ e) refl refl h.distinct h

    write_turn-IsSound :
        (id : PeerId) (name : Text) (o : Option (Turn json st))
        → c.phase ≡ serving id name
        → IsSound json base58 hex st
            (moved json base58 hex st i (write_turn json base58 hex st (id, name) o c, sv.hub) sv)
    write_turn-IsSound id name none p = unchanged json base58 hex st sv i c here h
    write_turn-IsSound id name (some t) p =
        after_round-IsSound id name (writer_round json st t c.stream)
          (advance_cursor json base58 hex st t c) p (advance_cursor-phase json base58 hex st c t)

    pub write_round-IsSound :
        (p : Phase)
        → c.phase ≡ p
        → IsSound json base58 hex st
            (moved json base58 hex st i (write_round json base58 hex st i p c sv.hub, sv.hub) sv)
    unfolding write_round
    write_round-IsSound (serving id name) p =
        write_turn-IsSound id name (next_turn json base58 hex st i c sv.hub) p
    write_round-IsSound handshaking p = unchanged json base58 hex st sv i c here h
    write_round-IsSound (refused e) p = unchanged json base58 hex st sv i c here h
    write_round-IsSound (admitted id name) p = unchanged json base58 hex st sv i c here h
    write_round-IsSound (registered id name) p = unchanged json base58 hex st sv i c here h
    write_round-IsSound (announced id name) p = unchanged json base58 hex st sv i c here h
    write_round-IsSound (written_out id name) p = unchanged json base58 hex st sv i c here h
    write_round-IsSound (removed id name) p = unchanged json base58 hex st sv i c here h
    write_round-IsSound (notified id name) p = unchanged json base58 hex st sv i c here h
    write_round-IsSound (gone id name) p = unchanged json base58 hex st sv i c here h
