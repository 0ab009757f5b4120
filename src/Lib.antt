-- ===== src/Lib.antt =====
-- Ephemeral Chat: a verification library of the chat over Tor onion services.
--
-- The program. A host runs a room: it bootstraps Tor (crates/core/src/bootstrap.rs), opens an onion service, hands out
-- invite codes (crates/core/src/invite.rs) and serves one connection per joiner (crates/core/src/room.rs). A joiner
-- (crates/core/src/joiner.rs) decodes a code, connects, passes a handshake and then exchanges framed messages with the
-- host (crates/core/src/wire.rs). Both hand events to a terminal or a headless program (crates/cli/src/main.rs), which
-- calls the room's handle.
--
-- Files and what they model.
--   Common, Std          tests on native numbers, lists, results; the standard library's text, UTF-8, decimal and
--                        big-endian numbers, string edits and white space, on byte lists.
--   External             what is not the program's: the base58 and hex codecs, byte streams with timeouts, bounded event
--                        channels; each is a record of operations with a record of the documented laws. Actions are
--                        async functions that return Result, over a stream's state.
--   Types, PeerMap, Nonces   types.rs, error.rs, the map of peers and the set of used nonces.
--   Wire                 wire.rs: WireMessage, encode_message, decode_message, read_frame, write_frame.
--   Invite               invite.rs: encode, decode, validate_address.
--   Joiner               joiner.rs: Handshake (handshake), Connect (connect, close), Outbox (try_emit, flush_pending,
--                        drain_and_flush), Reader (reader_loop, handle_incoming_frame), Writer (write_loop,
--                        process_outgoing_message, run_disconnected), Running (run, run_connected: reader and writer interleaved).
--   Room                 room.rs: Handshake (hub_handshake, joiner_handshake), Handle (RoomHandle, do_quit), Host
--                        (run_host_loop, host_task and their mock variants), Lobby (accept_loop and
--                        handle_hub_connection over all connections), PeerIo (hub_reader_task, the writer,
--                        joiner_reader_loop), Joining (from the invite to the admitted joiner),
--                        Conversation (a joiner's main loop against the hub's reader),
--                        JoinerLife (joiner_task with the calls that it makes).
--   Bootstrap            bootstrap.rs: TorBootstrap, bootstrap_with_shutdown; Config (build_config, lock_dir_perms).
--   Connector            connector.rs: the arti connector, MockTorConnector, MockAcceptor.
--   Room.Tasks           room.rs and factory.rs: host, join, RoomFactory::create, joiner_task, joiner_task_mock.
--   Hub                  hub.rs: Room (HostedRoom), Registry (PeerRegistry), Handshake (Hub::handshake), Tasks (reader_task,
--                        writer_task), Hub with its registering and notices, Connections (run, accept_next, handle_connection and
--                        run_peer_io over all connections), Joined (a joiner of joiner.rs at this hub).
--   App                  main.rs: App with push, handle_event, send, dispatch_command; Keys (handle_key), Loop (run_tui),
--                        Headless (run_headless), View (render_messages), Screen (render and its parts), Names (resolve_name,
--                        create_room), Main (main).
--   Tests                concrete streams, channels and codecs that meet the laws, and the theorems at concrete inputs.
--
-- How state corresponds. A struct is a record, a mutated object is passed on, an error is a value. What a select! picks is a
-- turn, and a loop's turns are its argument: a loop with no turn left is waiting. A turn of the terminal program carries
-- the drawing behind it, whose panics are the program's. Tasks that the headless program spawns are kept in the order of
-- their spawning, and run in any order. A quit that takes the bootstrap before its client is looked up is an argument of
-- the host's and the joiner's task. What a stream has taken counts as written, though the hub never flushes it. The connections of a host are a list of
-- phases, and a move takes one of them through one access to what they share; in Hub.Connections.Moves a move may also be one
-- round of a connection's reader or writer, or a call of the hub's user. A round of a reader begins only when there is room
-- in the message channel, so that its own send does not wait. Readings of the clock, random bytes and
-- what Tor and the file system answer are arguments. A panic is a result of its own.
--
-- Bounds. Sums of u64 wrap at 2^64, the scroll position too; a frame's length is four bytes and at most 16 KB. The
-- reader loops recurse on fuel: each round reads a whole frame, so that one round more than there are messages is enough,
-- which the theorems on them show. The hub's handshake reads at least one byte a round, so that 33 rounds are enough for its
-- 32 bytes. The hub's message channel holds 128 messages, and its broadcast channel keeps the last 256 events.
--
-- Not modelled: the cells and the layout that ratatui draws, the terminal's set-up, the parsing of arguments by clap, the
-- inside of Tor, JSON, base58 and hex, logging, and tasks' scheduling below one access to shared state.
mod Common
pub mod Std
pub mod External
pub mod Types
pub mod Wire
pub mod Invite
mod Tests
pub mod Nonces
pub mod Joiner
pub mod PeerMap
pub mod Bootstrap
pub mod Connector
pub mod Room
pub mod Hub
pub mod App
