-- ===== src/Hub/Registry/Following.antt =====
-- The registry of crates/core/src/hub.rs after any registrations and deregistrations.
use nullpipe.Common.{
  ℕ, suc, ◌≡◌, refl, sym, ap, ◌∙◌, subst, inl, inr, Bool, true, false, Bool-cases, Option, none,
  some, List, [], ◌∷◌, length, ◌⊎◌, ◌↔◌, if◌then◌else◌,
}
use nullpipe.Std.Utf8.{Bytes}
use nullpipe.Std.Text.{Text}
use nullpipe.Types.{PeerId}
use nullpipe.PeerMap.{
  lookup, lookup-insert, lookup-remove, IsUnique, insert-IsUnique, remove-IsUnique, same_id,
  same_id_iff,
}
use nullpipe.Hub.Registry.{PeerEntry, PeerRegistry, register, deregister, len, broadcast_to_all}

pub data Step : Type 0 where
  coming : PeerId → Text → ℕ → ℕ → Step
  leaving : PeerId → Step

abbrev step : Step → PeerRegistry → PeerRegistry
step (coming id name at tx) peers = register id name at tx peers
step (leaving id) peers = deregister id peers

unfoldable pub perform : List Step → PeerRegistry → PeerRegistry
perform [] peers = peers
perform (s ∷ ss) peers = perform ss (step s peers)

-- What the steps leave of one peer, whose entry is given: its last step decides.
unfoldable pub left_of : PeerId → List Step → Option PeerEntry → Option PeerEntry
left_of id [] e = e
left_of id (coming who name at tx ∷ ss) e =
    left_of id ss
      (if same_id who id then some (record { name = name; joined_at = at; tx = tx }) else e)
left_of id (leaving who ∷ ss) e = left_of id ss (if same_id who id then none else e)

abbrev pub IsIn : ℕ × Bytes → List (ℕ × Bytes) → Type 0
IsIn x [] = ⊥
IsIn x (y ∷ ys) = (x ≡ y) ⊎ IsIn x ys

lookup-perform :
    (id : PeerId) (ss : List Step) (peers : PeerRegistry)
    → lookup id (perform ss peers) ≡ left_of id ss (lookup id peers)
unfolding perform left_of register deregister
lookup-perform id [] peers = refl
lookup-perform id (coming who name at tx ∷ ss) peers =
    let e : PeerEntry = record { name = name; joined_at = at; tx = tx } in
    lookup-perform id ss (register who name at tx peers)
    ∙ ap (left_of id ss) (lookup-insert who id e peers)
lookup-perform id (leaving who ∷ ss) peers =
    lookup-perform id ss (deregister who peers) ∙ ap (left_of id ss) (lookup-remove who id peers)

perform-IsUnique :
    (ss : List Step) (peers : PeerRegistry) → IsUnique peers → IsUnique (perform ss peers)
unfolding perform register deregister
perform-IsUnique [] peers u = u
perform-IsUnique (coming who name at tx ∷ ss) peers u =
    perform-IsUnique ss _
      (insert-IsUnique who (record { name = name; joined_at = at; tx = tx }) peers u)
perform-IsUnique (leaving who ∷ ss) peers u = perform-IsUnique ss _ (remove-IsUnique who peers u)

length-broadcast_to_all :
    (frame : Bytes) (peers : PeerRegistry) → length (broadcast_to_all frame peers) ≡ len peers
unfolding broadcast_to_all len
length-broadcast_to_all frame [] = refl
length-broadcast_to_all frame ((id, e) ∷ peers) = ap suc (length-broadcast_to_all frame peers)

-- A channel in the registry.
abbrev pub IsOf : ℕ → Option PeerEntry → Type 0
IsOf tx none = ⊥
IsOf tx (some e) = e.tx ≡ tx

IsOf-if :
    (tx : ℕ) (b : Bool) (e : PeerEntry) (o : Option PeerEntry)
    → IsOf tx (if b then some e else o)
    → (e.tx ≡ tx) ⊎ IsOf tx o
IsOf-if tx true e o h = inl h
IsOf-if tx false e o h = inr h

broadcast_to_all-owner :
    (frame : Bytes) (tx : ℕ) (peers : PeerRegistry)
    → IsUnique peers
    → IsIn (tx, frame) (broadcast_to_all frame peers)
    → (id : PeerId) × IsOf tx (lookup id peers)
unfolding broadcast_to_all lookup
broadcast_to_all-owner frame tx [] u h = elim h [ ]
broadcast_to_all-owner frame tx ((id, e) ∷ peers) u (inl h) =
    let own : same_id id id ≡ true = (same_id_iff id id).1 refl in
    (id, rw own (sym (ap (λ x. x.0) h)))
broadcast_to_all-owner frame tx ((id, e) ∷ peers) u (inr h) =
    let (who, o) = broadcast_to_all-owner frame tx peers u.1 h in
    (
      who,
      elim (Bool-cases (same_id id who)) [
        | inl t ↦
            let none_there : lookup who peers ≡ none =
              subst (λ k. lookup k peers ≡ none) ((same_id_iff id who).0 t) u.0 in
            elim (subst (IsOf tx) none_there o) [ ]
        | inr f ↦ rw f o
      ],
    )

broadcast_to_all-IsIn :
    (frame : Bytes) (tx : ℕ) (peers : PeerRegistry) (id : PeerId)
    → IsOf tx (lookup id peers)
    → IsIn (tx, frame) (broadcast_to_all frame peers)
unfolding broadcast_to_all lookup
broadcast_to_all-IsIn frame tx [] id h = elim h [ ]
broadcast_to_all-IsIn frame tx ((who, e) ∷ peers) id h =
    elim (IsOf-if tx (same_id who id) e (lookup id peers) h) [
      | inl t ↦ inl (ap (λ n. (n, frame)) (sym t))
      | inr o ↦ inr (broadcast_to_all-IsIn frame tx peers id o)
    ]

-- After any registrations and deregistrations each peer has the entry that its last step left, and a frame is broadcast
-- to exactly the channels of these entries, as many times as peers are registered.
pub registry_follows :
    (ss : List Step) (frame : Bytes)
    → let peers = perform ss [] in
      ((id : PeerId) → lookup id peers ≡ left_of id ss none)
      × IsUnique peers
      × (length (broadcast_to_all frame peers) ≡ len peers)
      × ((tx : ℕ)
          → IsIn (tx, frame) (broadcast_to_all frame peers)
            ↔ ((id : PeerId) × IsOf tx (left_of id ss none)))
unfolding lookup
registry_follows ss frame =
    let u = perform-IsUnique ss [] tt in
    (
      λ id. lookup-perform id ss [],
      u,
      length-broadcast_to_all frame (perform ss []),
      λ tx. (
        λ h.
            let (id, o) = broadcast_to_all-owner frame tx (perform ss []) u h in
            (id, subst (IsOf tx) (lookup-perform id ss []) o),
        λ h.
            broadcast_to_all-IsIn frame tx (perform ss []) h.0
              (subst (IsOf tx) (sym (lookup-perform h.0 ss [])) h.1),
      ),
    )
