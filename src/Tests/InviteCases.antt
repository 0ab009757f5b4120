-- ===== src/Tests/InviteCases.antt =====
-- The theorems on invite codes at a concrete invite.
use nullpipe.Common.{
  ℕ, zero, suc, ◌≡◌, refl, [], ◌∷◌, ◌++◌, ok, none, some, inr, false, true, arith,
}
use nullpipe.Std.Utf8.{Bytes, is_utf8}
use nullpipe.Std.Text.{Text, lit, ends_with-append}
use nullpipe.Invite.{InvitePayload, validate_address, encode, decode, joined}
use nullpipe.Invite.Fields.{IsInvite}
use nullpipe.Invite.RoundTrip.{decode-encode, decode-IsAccepted, IsAccepted}
use nullpipe.Room.Handle.{RoomInner, invite}
use nullpipe.Tests.Instances.{plain58, plain58_laws, letters, letters_laws}

abbrev as' : ℕ → Text
as' zero = []
as' (suc n) = b'a' ∷ as' n

abbrev pub onion : Text
onion = as' 56 ++ lit ".onion"

abbrev pub nonce_16 : Bytes
nonce_16 = 1 ∷ 2 ∷ 3 ∷ 4 ∷ 5 ∷ 6 ∷ 7 ∷ 8 ∷ 9 ∷ 10 ∷ 11 ∷ 12 ∷ 13 ∷ 14 ∷ 15 ∷ 16 ∷ []

abbrev pub party : InvitePayload
party = record { onion_address = onion; nonce = nonce_16; timestamp = 1000; suggested_name = none }

abbrev pub token : Text
token = joined letters party

onion_valid : validate_address onion ≡ ok tt
unfolding validate_address lit
onion_valid = rw (ends_with-append (as' 56) (lit ".onion")) refl

pub party-IsInvite : IsInvite party
unfolding lit is_utf8
party-IsInvite = record {
  valid = onion_valid;
  no_colon = ground arith;
  address_text = refl;
  sixteen = refl;
  octets = ground arith;
  in_u64 = omega arith;
  named = λ e. cc;
  name_text = refl;
}

party_encoded : encode plain58 letters party ≡ ok token
unfolding encode
party_encoded = rw onion_valid refl

pub party_decoded : decode plain58 letters token (some 300) 1200 ≡ ok party
party_decoded =
    decode-encode plain58 letters plain58_laws letters_laws party token (some 300) 1200
      party-IsInvite (omega arith, omega arith) party_encoded (omega arith) (inr (omega arith))

decode-IsAccepted_example : IsAccepted party (some 300) 1200
decode-IsAccepted_example =
    decode-IsAccepted plain58 letters token (some 300) 1200 party party_decoded

abbrev pub room : RoomInner
room = record {
  sent = [];
  shutdown = false;
  invite_info = some (record { onion_address = onion; port = 80; ttl_secs = 60 });
  peer_map = [];
  quit_flag = false;
  tor = true;
  name = [];
}

pub room_invited : invite plain58 letters nonce_16 1000 (ok tt) none room ≡ ok token
unfolding invite
room_invited = party_encoded
