-- ===== src/External/Channels.antt =====
-- The sending end of a bounded tokio `mpsc` channel of chat events.
use nullpipe.Common.{◌≡◌, Bool, true, false, List, [], ◌∷◌, ◌++◌}
use nullpipe.Types.{ChatEvent}

-- `try_send` and `send` say whether the event was taken; `send` waits for room.
pub record Sender : Type 1 where
  pub Channel : Type 0
  pub try_send : ChatEvent → Channel → Bool × Channel
  pub send : ChatEvent → Channel → Bool × Channel

-- The events that the channel has taken, oldest first. An event that is taken goes to the end, and one
-- that is refused changes nothing. `Open` says that the receiver lives and has not fallen behind for good.
pub record SenderLaws (sender : Sender) : Type 1 where
  pub taken : sender.Channel → List ChatEvent
  pub Open : sender.Channel → Type 0
  pub try_taken :
      (e : ChatEvent) (c : sender.Channel)
      → (sender.try_send e c).0 ≡ true
      → taken (sender.try_send e c).1 ≡ taken c ++ e ∷ []
  pub try_refused :
      (e : ChatEvent) (c : sender.Channel)
      → (sender.try_send e c).0 ≡ false
      → taken (sender.try_send e c).1 ≡ taken c
  pub send_taken :
      (e : ChatEvent) (c : sender.Channel)
      → Open c
      → (taken (sender.send e c).1 ≡ taken c ++ e ∷ []) × Open (sender.send e c).1
