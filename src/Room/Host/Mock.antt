-- ===== src/Room/Host/Mock.antt =====
-- The mock variants of the host's task and main loop in crates/core/src/room.rs.
use nullpipe.Common.{◌≡◌, refl, some, none, List, [], ◌∷◌, ok}
use nullpipe.Types.{HostConfig}
use nullpipe.External.Channels.{Sender}
use nullpipe.Room.Host.{
  Turn, shutdown, outgoing, incoming, Hosting, serve, speak, hear, run_host_loop,
  run_host_loop_mock, host_task_mock, mock_address,
}

module _ (sender : Sender) (config : HostConfig) where
  run_host_loop_mock-serve :
      (turns : List Turn) (h : Hosting sender config)
      → run_host_loop_mock sender config turns h ≡ serve sender config turns h
  unfolding run_host_loop_mock serve
  run_host_loop_mock-serve [] h = refl
  run_host_loop_mock-serve (shutdown ∷ turns) h = refl
  run_host_loop_mock-serve (outgoing none ∷ turns) h = refl
  run_host_loop_mock-serve (outgoing (some text) ∷ turns) h =
      run_host_loop_mock-serve turns (speak sender config text h)
  run_host_loop_mock-serve (incoming none ∷ turns) h = refl
  run_host_loop_mock-serve (incoming (some (peer_id, m)) ∷ turns) h =
      run_host_loop_mock-serve turns (hear sender config peer_id m h)

  -- The mock host does what the real one does on an onion service with the mock address.
  host_task_mock-run_host_loop :
      (turns : List Turn) (h : Hosting sender config)
      → host_task_mock sender config turns h
        ≡ run_host_loop sender config (ok (mock_address sender config)) turns h
  unfolding host_task_mock run_host_loop
  host_task_mock-run_host_loop turns h = run_host_loop_mock-serve turns _
