-- ===== src/Room/Host/Ending.antt =====
-- What the host's task does around its main loop.
use nullpipe.Common.{true, false, ◌≡◌, refl, ap, ◌∙◌, none, some, List, subst, Result}
use nullpipe.Std.Text.{Text, lit}
use nullpipe.Types.{ChatError, HostConfig, error, connection}
use nullpipe.External.Channels.{Sender}
use nullpipe.Bootstrap
use nullpipe.Bootstrap.{TorBootstrap, System, Watch, returned, bootstrap_with_shutdown}
use nullpipe.Bootstrap.Readiness.{OnlyReady, IsReady, bootstrap_with_shutdown-OnlyReady}
use nullpipe.Room.Host.{
  Turn, Hosting, Progress, waiting, finished, run_host_loop, host_task, clean_up, with_client,
}

module _ (sender : Sender) (config : HostConfig) where
  module _ (C : Type 0) (room : C → Result Text ChatError) where
    abbrev pub HasEnded : Progress sender config → Type 0
    HasEnded (waiting h) = ⊥
    HasEnded (finished h) = Unit

    cleaned :
        (b : TorBootstrap C) (p : Progress sender config)
        → HasEnded p
        → (clean_up sender config C (some b) p).tor ≡ none
    cleaned b (waiting h) ended = elim ended [ ]
    cleaned b (finished h) ended = refl

    progress_kept :
        (b : TorBootstrap C) (p : Progress sender config)
        → (clean_up sender config C (some b) p).progress ≡ p
    progress_kept b (waiting h) = refl
    progress_kept b (finished h) = refl

    -- A host whose bootstrap returned a client runs its main loop with the service of that very client, if the handle does not
    -- quit between the storing of the bootstrap and the look-up, and lets the client go when the loop has ended. If the handle
    -- does quit there, the host is only shown that there is no client, and nothing is left of the bootstrap.
    pub host_task_after_bootstrap :
        (sys : System C) (boot_turns : List Bootstrap.Turn) (c c' : sender.Channel)
        (b : TorBootstrap C) (turns : List Turn) (h : Hosting sender config)
        → bootstrap_with_shutdown C sender sys boot_turns c ≡ returned (some b) c'
        → (client : C) × (b.client ≡ some client)
          × ((host_task sender config C room (some b) false turns h).progress
              ≡ run_host_loop sender config (room client) turns h)
          × (HasEnded (run_host_loop sender config (room client) turns h)
              → (host_task sender config C room (some b) false turns h).tor ≡ none)
          × ((host_task sender config C room (some b) true turns h).progress
              ≡ finished (record h {
                channel =
                    (sender.send (error (connection (lit "Tor client not available"))) h.channel).1;
              }))
          × ((host_task sender config C room (some b) true turns h).tor ≡ none)
    unfolding host_task
    host_task_after_bootstrap sys boot_turns c c' b turns h booted =
        let ready : IsReady C b =
          subst (OnlyReady C sender) booted
            (bootstrap_with_shutdown-OnlyReady C sender sys boot_turns c) in
        let (client, e) = ready.1 in
        let runs = run_host_loop sender config (room client) turns h in
        let step : host_task sender config C room (some b) false turns h
            ≡ clean_up sender config C (some b) runs =
          ap (λ o. with_client sender config C room turns (some b) o h) e in
        (
          client,
          e,
          ap (λ t. t.progress) step ∙ progress_kept b runs,
          λ ended. ap (λ t. t.tor) step ∙ cleaned b runs ended,
          refl,
          refl,
        )
