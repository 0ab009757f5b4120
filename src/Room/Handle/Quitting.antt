-- ===== src/Room/Handle/Quitting.antt =====
-- Quitting a room, and invites from its handle.
use nullpipe.Common.{
  ◌⊎◌, inl, Bool-cases, [], ◌∷◌, ◌++◌, ℕ, ◌≡◌, refl, true, false, Bool, inr, Option, Result, err,
  arith,
}
use nullpipe.Std.Utf8.{Bytes}
use nullpipe.Std.Text.{Text}
use nullpipe.Types.{shutting_down}
use nullpipe.External.Codecs.{Base58, Hex}
use nullpipe.Room.Handle.{RoomInner, send, invite, quit, drop_handle}

-- A second `quit` changes nothing; after the first the room is signalled to stop, Tor is let go, and
-- neither a text nor an invite can be had from it, whatever the environment answers.
pub quit_final :
    (base58 : Base58) (hex : Hex) (inner : RoomInner) (text : Text) (taken : Bool) (nonce : Bytes)
    (now : ℕ) (lock : Result (Unit {0}) Text) (suggested : Option Text)
    → inner.quit_flag ≡ false
    → (quit (quit inner) ≡ quit inner)
      × ((quit inner).shutdown ≡ true)
      × ((quit inner).tor ≡ false)
      × (send text taken (quit inner) ≡ (err shutting_down, quit inner))
      × (invite base58 hex nonce now lock suggested (quit inner) ≡ err shutting_down)
unfolding quit send invite
quit_final base58 hex inner text taken nonce now lock suggested h =
    rw h (refl, refl, refl, refl, refl)

-- A text is taken, or the room has quit or its channel is gone and nothing changes.
pub send_either :
    (text : Text) (taken : Bool) (inner : RoomInner)
    → ((send text taken inner).1 ≡ record inner { sent = inner.sent ++ text ∷ [] })
      ⊎ (((send text taken inner).1 ≡ inner) × (taken ≡ true → inner.quit_flag ≡ false → ⊥))
unfolding send
send_either text taken inner = elim (Bool-cases inner.quit_flag) [
  | inl q ↦ rw q (inr (refl, λ t nq. cc))
  | inr nq ↦ elim (Bool-cases taken) [
    | inl t ↦ rw (nq, t) (inl refl)
    | inr nt ↦ rw (nq, nt) (inr (refl, λ t q. cc))
  ]
]

pub quit-sent : (inner : RoomInner) → (quit inner).sent ≡ inner.sent
unfolding quit
quit-sent inner = elim (Bool-cases inner.quit_flag) [ inl q ↦ rw q refl | inr nq ↦ rw nq refl ]

-- Dropping a handle quits the room exactly when it is the last one.
pub drop_handle_last :
    (n : ℕ) (inner : RoomInner)
    → inner.quit_flag ≡ false
    → ((drop_handle n inner).quit_flag ≡ true → n ≡ 1) × (n ≡ 1 → drop_handle n inner ≡ quit inner)
unfolding drop_handle quit
drop_handle_last n inner h = (λ e. ground arith, λ e. ground arith)
