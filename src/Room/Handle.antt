-- ===== src/Room/Handle.antt =====
-- `RoomHandle` and `RoomInner`: sending, inviting, listing peers and quitting. The answers of the clock, the random
-- generator, the locks and the send channel are arguments.
pub mod Quitting
use nullpipe.Common.{
  ℕ, ◌==◌, List, [], ◌∷◌, ◌++◌, Bool, true, false, Option, none, some, Result, ok, err,
  if◌then◌else◌,
}
use nullpipe.Common.{◌>>=◌ as bind}
use nullpipe.Std.Utf8.{Bytes}
use nullpipe.Std.Text.{Text, lit}
use nullpipe.Types.{ChatError, connection, shutting_down, PeerId, PeerInfo}
use nullpipe.External.Codecs.{Base58, Hex}
use nullpipe.PeerMap.{Map, values}
use nullpipe.Invite.{encode}

pub record InviteInfo : Type 0 where
  pub onion_address : Text
  pub port : ℕ
  pub ttl_secs : ℕ

-- `sent` are the texts that the send channel has taken, `shutdown` says whether the watch channel was
-- signalled, and `tor` whether the Tor client is still held.
pub record RoomInner : Type 0 where
  pub sent : List Text
  pub shutdown : Bool
  pub invite_info : Option InviteInfo
  pub peer_map : Map PeerInfo
  pub quit_flag : Bool
  pub tor : Bool
  pub name : Text

unfoldable pub new_inner : Text → RoomInner
new_inner name = record {
  sent = [];
  shutdown = false;
  invite_info = none;
  peer_map = [];
  quit_flag = false;
  tor = false;
  name = name;
}

-- `taken` says whether the channel's receiver still lives.
pub send : Text → Bool → RoomInner → Result (Unit {0}) ChatError × RoomInner
send text taken inner =
    if inner.quit_flag
    then (err shutting_down, inner)
    else if taken
    then (ok tt, record inner { sent = inner.sent ++ text ∷ [] })
    else (err shutting_down, inner)

-- What the mutex gives: its content, or the text of the poisoning error.
abbrev locked : Result (Unit {0}) Text → Option InviteInfo → Result InviteInfo ChatError
locked (err e) info = err (connection (lit "invite lock poisoned: " ++ e))
locked (ok _) none = err (connection (lit "invite generation only available on hub"))
locked (ok _) (some info) = ok info

module _ (base58 : Base58) (hex : Hex) where
  unfoldable pub invite :
      Bytes → ℕ → Result (Unit {0}) Text → Option Text → RoomInner → Result Text ChatError
  invite nonce now lock suggested inner =
      if inner.quit_flag
      then err shutting_down
      else bind (locked lock inner.invite_info) λ info. encode base58 hex (record {
        onion_address = info.onion_address;
        nonce = nonce;
        timestamp = now;
        suggested_name = suggested;
      })

pub peers : RoomInner → List PeerInfo
peers inner = values inner.peer_map

-- `swap` on the flag makes all but the first call do nothing.
pub do_quit : RoomInner → RoomInner
do_quit inner =
    if inner.quit_flag
    then inner
    else record inner { quit_flag = true; shutdown = true; tor = false }

pub quit : RoomInner → RoomInner
unfolding do_quit
quit inner = do_quit inner

-- `Drop` with the number of handles that share the room.
pub drop_handle : ℕ → RoomInner → RoomInner
unfolding do_quit
drop_handle strong_count inner = if strong_count == 1 then do_quit inner else inner
