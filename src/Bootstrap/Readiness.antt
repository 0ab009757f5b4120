-- ===== src/Bootstrap/Readiness.antt =====
-- When a bootstrap counts as complete, and what it then has.
use nullpipe.Common.{
  ℕ, ◌≡◌, refl, sym, inl, inr, Bool, true, false, Bool-cases, ◌||◌, Option, none, some, List, [],
  ◌∷◌, ◌++◌, map, Result, ok, err, Result-cases, is_ok, leb, if◌then◌else◌, arith,
}
use nullpipe.Std.Text.{Text}
use nullpipe.Types.{ChatError, ChatEvent}
use nullpipe.External.Channels.{Sender}
use nullpipe.Bootstrap.{
  System, TorBootstrap, new, bootstrap, prepare, with_dir, at_percent, done, forward, forward_live,
  is_complete, Turn, shutdown_signal, next_event, stream_end, Watch, waiting, returned, watch,
  bootstrap_with_shutdown, watch_started,
}

abbrev pub any_complete : List ChatEvent → Bool
any_complete [] = false
any_complete (e ∷ es) = is_complete e || any_complete es

-- The turns of a stream that ends, with no shutdown.
abbrev pub stream_turns : List ChatEvent → List Turn
stream_turns [] = stream_end ∷ []
stream_turns (e ∷ es) = next_event e ∷ stream_turns es

abbrev pub reaches_100 : List ℕ → Bool
reaches_100 [] = false
reaches_100 (pct ∷ pcts) = leb 100 pct || reaches_100 pcts

any_complete-forward_live :
    (pcts : List ℕ) (r : Result (Unit {0}) Text)
    → any_complete (forward_live (map at_percent pcts ++ done r ∷ [])) ≡ reaches_100 pcts || is_ok r
unfolding forward_live
any_complete-forward_live [] (ok _) = refl
any_complete-forward_live [] (err e) = refl
any_complete-forward_live (pct ∷ pcts) r = let ih = any_complete-forward_live pcts r in ground arith

or_assoc : (a b c : Bool) → (a || b) || c ≡ a || (b || c)
or_assoc true b c = refl
or_assoc false b c = refl

module _ (C : Type 0) where
  -- A client that can be used.
  abbrev pub IsReady : TorBootstrap C → Type 0
  IsReady b = (b.bootstrapped ≡ true) × ((c : C) × (b.client ≡ some c))

  -- What a bootstrap that was accepted leaves.
  abbrev ReadyIfOk : Result (Unit {0}) ChatError × TorBootstrap C → Type 0
  ReadyIfOk (ok _, b) = IsReady b
  ReadyIfOk (err e, b) = Unit

  with_dir-ReadyIfOk :
      (sys : System C) (b : TorBootstrap C) (r : Result (Option Text) ChatError)
      → ReadyIfOk (with_dir C sys b r)
  with_dir-ReadyIfOk sys b (err e) = tt
  with_dir-ReadyIfOk sys b (ok dir) = elim (Result-cases sys.create) [
    | inl (c, e) ↦ rw e (refl, (c, refl))
    | inr (x, e) ↦ rw e tt
  ]

  bootstrap-ReadyIfOk : (sys : System C) → ReadyIfOk (bootstrap C sys (new C))
  unfolding bootstrap
  bootstrap-ReadyIfOk sys = with_dir-ReadyIfOk sys (new C) (prepare C sys.state_dir sys)

  module _ (sender : Sender) where
    abbrev pub OnlyReady : Watch C sender → Type 0
    OnlyReady (waiting bootstrap_ok c) = Unit
    OnlyReady (returned none c) = Unit
    OnlyReady (returned (some b) c) = IsReady b

    watch-OnlyReady :
        (turns : List Turn) (bootstrap_ok : Bool) (b : TorBootstrap C) (c : sender.Channel)
        → IsReady b
        → OnlyReady (watch C sender turns bootstrap_ok b c)
    unfolding watch
    watch-OnlyReady [] k b c h = tt
    watch-OnlyReady (shutdown_signal ∷ turns) k b c h = tt
    watch-OnlyReady (stream_end ∷ turns) true b c h = h
    watch-OnlyReady (stream_end ∷ turns) false b c h = tt
    watch-OnlyReady (next_event e ∷ turns) k b c h = elim (Bool-cases (sender.send e c).0) [
      | inl s ↦ rw s (watch-OnlyReady turns (k || is_complete e) b (sender.send e c).1 h)
      | inr f ↦ rw f tt
    ]

    started-OnlyReady :
        (turns : List Turn) (r : Result (Unit {0}) ChatError × TorBootstrap C) (c : sender.Channel)
        → ReadyIfOk r
        → OnlyReady (watch_started C sender turns r c)
    started-OnlyReady turns (err e, b) c h = tt
    started-OnlyReady turns (ok _, b) c h = watch-OnlyReady turns false b c h

    -- Whatever happens during the bootstrap, a client that is returned is bootstrapped and can be used.
    pub bootstrap_with_shutdown-OnlyReady :
        (sys : System C) (turns : List Turn) (c : sender.Channel)
        → OnlyReady (bootstrap_with_shutdown C sender sys turns c)
    unfolding bootstrap_with_shutdown
    bootstrap_with_shutdown-OnlyReady sys turns c =
        started-OnlyReady turns (bootstrap C sys (new C)) c (bootstrap-ReadyIfOk sys)

    -- Every event is taken.
    abbrev pub Accepts : Type 0
    Accepts = (e : ChatEvent) (c : sender.Channel) → (sender.send e c).0 ≡ true

    abbrev pub sent_all : List ChatEvent → sender.Channel → sender.Channel
    sent_all [] c = c
    sent_all (e ∷ es) c = sent_all es (sender.send e c).1

    watch-stream :
        (es : List ChatEvent) (k : Bool) (b : TorBootstrap C) (c : sender.Channel)
        → Accepts
        → watch C sender (stream_turns es) k b c
          ≡ returned (if k || any_complete es then some b else none) (sent_all es c)
    unfolding watch
    watch-stream [] true b c h = refl
    watch-stream [] false b c h = refl
    watch-stream (e ∷ es) k b c h =
        rw (h e c, sym (or_assoc k (is_complete e) (any_complete es)))
          (watch-stream es (k || is_complete e) b (sender.send e c).1 h)

    -- When the bootstrap was begun, no shutdown comes and the events are taken, the stream's events are passed on
    -- one by one, and the client is returned exactly if the bootstrap succeeds or some status before its end was
    -- at 100 percent: such a status alone is enough, even if the bootstrap then fails.
    pub bootstrap_with_shutdown_ends :
        (sys : System C) (b : TorBootstrap C) (pcts : List ℕ) (r : Result (Unit {0}) Text)
        (c : sender.Channel)
        → Accepts
        → bootstrap C sys (new C) ≡ (ok tt, b)
        → let events = forward (map at_percent pcts ++ done r ∷ []) in
          bootstrap_with_shutdown C sender sys (stream_turns events) c
          ≡ returned (if reaches_100 pcts || is_ok r then some b else none) (sent_all events c)
    unfolding bootstrap_with_shutdown forward
    bootstrap_with_shutdown_ends sys b pcts r c h begun =
        rw (begun, sym (any_complete-forward_live pcts r))
          (watch-stream (forward (map at_percent pcts ++ done r ∷ [])) false b c h)
