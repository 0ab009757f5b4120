-- ===== src/Room/Tasks/Joining.antt =====
-- What a joiner's task shows from its connection to its end.
use nullpipe.Common.{
  ◌≡◌, sym, ap, ◌∙◌, true, false, List, [], ◌∷◌, ◌++◌, append_assoc, append-nil, Result, ok, none,
  some, ℕ,
}
use nullpipe.Types.{ChatError, ChatEvent, peer_join}
use nullpipe.External.Channels.{Sender, SenderLaws}
use nullpipe.Bootstrap.{TorBootstrap}
use nullpipe.Room.Tasks.{
  Connected, try_all, self_info, last_events, run_joiner_task, with_client, after_connect,
}

module _ (sender : Sender) (laws : SenderLaws sender) where
  open laws use {taken, try_taken}

  pub taken-try_all :
      (es : List ChatEvent) (c : sender.Channel)
      → ((e : ChatEvent) (c : sender.Channel) → (sender.try_send e c).0 ≡ true)
      → taken (try_all sender es c) ≡ taken c ++ es
  taken-try_all [] c room = sym (append-nil (taken c))
  taken-try_all (e ∷ es) c room =
      taken-try_all es (sender.try_send e c).1 room
      ∙ ap (λ l. l ++ es) (try_taken e c (room e c))
      ∙ append_assoc (taken c) (e ∷ []) es

  -- If no quit comes between the bootstrap and the look-up, a joiner whose client connects, in a channel that has room, shows its own joining, then whatever its main loop
  -- shows, then the loop's error if there was one, and last that the room is closed; and it lets the client go.
  pub run_joiner_task_shows :
      (C : Type 0) (connect : C → Result (Connected sender) ChatError)
      (run : sender.Channel → Result (Unit {0}) ChatError × sender.Channel) (now : ℕ)
      (b : TorBootstrap C) (client : C) (j : Connected sender) (c : sender.Channel)
      (shown : List ChatEvent)
      → ((e : ChatEvent) (c : sender.Channel) → (sender.try_send e c).0 ≡ true)
      → b.client ≡ some client
      → connect client ≡ ok j
      → ((c : sender.Channel) → taken (run c).1 ≡ taken c ++ shown)
      → let joined = (sender.try_send (peer_join (self_info sender j now)) c).1 in
        let after = run_joiner_task sender C connect run now (some b) false c in
        (taken after.channel
          ≡ taken c
            ++ peer_join (self_info sender j now) ∷ (shown ++ last_events sender (run joined).0))
        × (after.tor ≡ none)
  unfolding run_joiner_task
  run_joiner_task_shows C connect run now b client j c shown room have connected shows =
      let e : ChatEvent = peer_join (self_info sender j now) in
      let joined : sender.Channel = (sender.try_send e c).1 in
      let last : List ChatEvent = last_events sender (run joined).0 in
      let step : run_joiner_task sender C connect run now (some b) false c
          ≡ record { channel = try_all sender last (run joined).1; tor = none } =
        ap (λ o. with_client sender C connect run now (some b) o c) have
        ∙ ap (λ r. after_connect sender C run now (some b) r c) connected in
      (
        ap (λ t. taken t.channel) step
            ∙ taken-try_all last (run joined).1 room
            ∙ ap (λ l. l ++ last) (shows joined ∙ ap (λ l. l ++ shown) (try_taken e c (room e c)))
            ∙ append_assoc (taken c ++ e ∷ []) shown last
            ∙ append_assoc (taken c) (e ∷ []) (shown ++ last),
        ap (λ t. t.tor) step,
      )
