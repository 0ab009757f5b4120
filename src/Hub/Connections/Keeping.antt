-- ===== src/Hub/Connections/Keeping.antt =====
-- What one connection's change does to the registry and to the queue of messages.
use nullpipe.Common.{
  ℕ, ◌≡◌, ◌≢◌, refl, sym, ap, ◌∙◌, subst, ◌⊎◌, inl, inr, true, Bool-cases, Option, none, some, List,
  [], ◌∷◌, ◌++◌, All, get_elem?, set_elem, get_elem?-set_same, get_elem?-set_other,
  get_elem?-append, ◌==◌, arith,
}
use nullpipe.Std.Text.{Text, lit}
use nullpipe.Types.{PeerId}
use nullpipe.External.Codecs.{Base58, Hex}
use nullpipe.External.Streams.{Stream}
use nullpipe.PeerMap.{lookup, insert, remove, lookup-insert, lookup-remove, same_id, same_id_iff}
use nullpipe.Wire.{Json, WireMessage, ping, system_message}
use nullpipe.Hub.{system_id}
use nullpipe.Hub.Registry.{PeerEntry, PeerRegistry}
use nullpipe.Hub.Connections.{
  Phase, handshaking, refused, admitted, registered, announced, serving, written_out, removed,
  notified, gone, Connection, identity,
}

-- Who a connection stands in the registry as.
abbrev pub holds : Phase → Option (PeerId × Text)
holds handshaking = none
holds (refused e) = none
holds (admitted id name) = none
holds (registered id name) = some (id, name)
holds (announced id name) = some (id, name)
holds (serving id name) = some (id, name)
holds (written_out id name) = some (id, name)
holds (removed id name) = none
holds (notified id name) = none
holds (gone id name) = none

module _ (json : Json) (base58 : Base58) (hex : Hex) (st : Stream) where
  abbrev pub Conn : Type 0
  Conn = Connection json base58 hex st

  -- Every entry of the registry has the channel of a connection that is not yet taken from it, and that was admitted
  -- under the entry's key and name.
  abbrev pub AllNamed : PeerRegistry → List Conn → Type 0
  AllNamed reg conns =
      (k : PeerId) (e : PeerEntry)
      → lookup k reg ≡ some e
      → (c : Conn) × (get_elem? conns e.tx ≡ some c) × (holds c.phase ≡ some (k, e.name))

  -- A message in the queue is no ping, and comes from a connection that was admitted under its sender's name,
  -- or is the hub's notice that a peer left under whose name a connection was admitted.
  abbrev pub IsVouched : List Conn → PeerId × WireMessage → Type 0
  IsVouched conns (k, m) =
      (m.kind ≢ ping)
      × (((k ≡ system_id)
            × ((i : ℕ) × (c : Conn) × (id : PeerId) × (name : Text) × (get_elem? conns i ≡ some c)
                × (identity json base58 hex st c.phase ≡ some (id, name))
                × (m ≡ system_message (name ++ lit " left"))))
          ⊎ ((i : ℕ) × (c : Conn) × (name : Text) × (get_elem? conns i ≡ some c)
              × (identity json base58 hex st c.phase ≡ some (k, name))))

  -- The connection with this number changes, and keeps whom it stood for.
  module _ (conns : List Conn) (i : ℕ) (c c' : Conn) (here : get_elem? conns i ≡ some c) where
    found :
        {B : Type 0} (f : Conn → Option B) (j : ℕ) (x : Conn) (b : B)
        → (f c ≡ some b → f c' ≡ some b)
        → get_elem? conns j ≡ some x
        → f x ≡ some b
        → (y : Conn) × (get_elem? (set_elem conns i c') j ≡ some y) × (f y ≡ some b)
    found f j x b still there e = elim (Bool-cases (i == j)) [
      | inl t ↦
          let same : i ≡ j = ground arith in
          let x_lem : some c ≡ some x = sym here ∙ ap (get_elem? conns) same ∙ there in
          let c_lem : c ≡ x = cc in
          (
            c',
            subst (λ n. get_elem? (set_elem conns i c') n ≡ some c') same
                (get_elem?-set_same conns i c' here),
            still (ap f c_lem ∙ e),
          )
      | inr f' ↦ (x, get_elem?-set_other conns i j c' (ground arith) ∙ there, e)
    ]

    pub AllNamed-same :
        (reg : PeerRegistry)
        → ((b : PeerId × Text) → holds c.phase ≡ some b → holds c'.phase ≡ some b)
        → AllNamed reg conns
        → AllNamed reg (set_elem conns i c')
    AllNamed-same reg still h k e listed =
        let (x, there, held) = h k e listed in
        found (λ y. holds y.phase) e.tx x (k, e.name) (still (k, e.name)) there held

    pub AllNamed-insert :
        (reg : PeerRegistry) (id : PeerId) (e : PeerEntry)
        → holds c.phase ≡ none
        → holds c'.phase ≡ some (id, e.name)
        → e.tx ≡ i
        → AllNamed reg conns
        → AllNamed (insert id e reg) (set_elem conns i c')
    AllNamed-insert reg id e before after own h k e' listed = elim (Bool-cases (same_id id k)) [
      | inl t ↦
          let got : some e ≡ some e' = sym (lookup-insert id k e reg ∙ (rw t refl)) ∙ listed in
          let same : e ≡ e' = cc in
          (
            c',
            subst (λ n. get_elem? (set_elem conns i c') n ≡ some c') (sym own ∙ ap (λ x. x.tx) same)
                (get_elem?-set_same conns i c' here),
            after
                ∙ ap (λ n. some (n, e.name)) ((same_id_iff id k).0 t)
                ∙ ap (λ x. some (k, x.name)) same,
          )
      | inr ne ↦
          let old : lookup k reg ≡ some e' =
            sym (lookup-insert id k e reg ∙ (rw ne refl)) ∙ listed in
          let (x, there, held) = h k e' old in
          found (λ y. holds y.phase) e'.tx x (k, e'.name) (λ q. cc) there held
    ]

    pub AllNamed-remove :
        (reg : PeerRegistry) (id : PeerId) (name : Text)
        → holds c.phase ≡ some (id, name)
        → AllNamed reg conns
        → AllNamed (remove id reg) (set_elem conns i c')
    AllNamed-remove reg id name before h k e listed = elim (Bool-cases (same_id id k)) [
      | inl t ↦ let got : none ≡ some e = sym (lookup-remove id k reg ∙ (rw t refl)) ∙ listed in cc
      | inr ne ↦
          let old : lookup k reg ≡ some e = sym (lookup-remove id k reg ∙ (rw ne refl)) ∙ listed in
          let (x, there, held) = h k e old in
          let clash : holds c.phase ≡ some (k, e.name) → holds c'.phase ≡ some (k, e.name) = λ q.
            let same : id ≡ k = cc in
            let t : same_id id k ≡ true = (same_id_iff id k).1 same in cc in
          found (λ y. holds y.phase) e.tx x (k, e.name) clash there held
    ]

    IsVouched-same :
        ((b : PeerId × Text)
          → identity json base58 hex st c.phase ≡ some b
          → identity json base58 hex st c'.phase ≡ some b)
        → (q : PeerId × WireMessage) → IsVouched conns q
        → IsVouched (set_elem conns i c') q
    IsVouched-same still (k, m) (kind, inl (own, (j, x, id, name, there, e, notice))) =
        let (y, there', e') =
          found (λ z. identity json base58 hex st z.phase) j x (id, name) (still (id, name)) there
            e in
        (kind, inl (own, (j, y, id, name, there', e', notice)))
    IsVouched-same still (k, m) (kind, inr (j, x, name, there, e)) =
        let (y, there', e') =
          found (λ z. identity json base58 hex st z.phase) j x (k, name) (still (k, name)) there
            e in
        (kind, inr (j, y, name, there', e'))

    pub All-IsVouched-same :
        ((b : PeerId × Text)
          → identity json base58 hex st c.phase ≡ some b
          → identity json base58 hex st c'.phase ≡ some b)
        → (qs : List (PeerId × WireMessage)) → All (IsVouched conns) qs
        → All (IsVouched (set_elem conns i c')) qs
    All-IsVouched-same still [] h = tt
    All-IsVouched-same still (q ∷ qs) h =
        (IsVouched-same still q h.0, All-IsVouched-same still qs h.1)

  -- A new connection at the end.
  module _ (conns new : List Conn) where
    pub AllNamed-append : (reg : PeerRegistry) → AllNamed reg conns → AllNamed reg (conns ++ new)
    AllNamed-append reg h k e listed =
        let (c, there, held) = h k e listed in (c, get_elem?-append conns new e.tx there, held)

    IsVouched-append : (q : PeerId × WireMessage) → IsVouched conns q → IsVouched (conns ++ new) q
    IsVouched-append (k, m) (kind, inl (own, (j, x, id, name, there, e, notice))) =
        (kind, inl (own, (j, x, id, name, get_elem?-append conns new j there, e, notice)))
    IsVouched-append (k, m) (kind, inr (j, x, name, there, e)) =
        (kind, inr (j, x, name, get_elem?-append conns new j there, e))

    pub All-IsVouched-append :
        (qs : List (PeerId × WireMessage))
        → All (IsVouched conns) qs
        → All (IsVouched (conns ++ new)) qs
    All-IsVouched-append [] h = tt
    All-IsVouched-append (q ∷ qs) h = (IsVouched-append q h.0, All-IsVouched-append qs h.1)
