-- ===== src/Room/JoinerLife/Delivering.antt =====
-- The life of a joiner's task from its bootstrap to the end of the room.
use nullpipe.Common.{some}
use nullpipe.Std.Text.{Text}
use nullpipe.External.Codecs.{Base58, Hex}
use nullpipe.Bootstrap
use nullpipe.Joiner.Connect.{Joiner}
use nullpipe.Joiner.Running.{Running}
use nullpipe.Joiner.Running.Steps.{Setting}

module _ (w : Setting) (base58 : Base58) (hex : Hex) (C : Type 0) where
  open w use {json, json_laws, st, laws, sender, sender_laws, name, peer_id, room}
  open sender_laws use {taken, Open, try_taken}

  abbrev ours : st.State → Joiner json base58 hex st
  ours s = record { stream = some s; peer_id = peer_id; name = name }
