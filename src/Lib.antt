-- ===== src/Lib.antt =====
-- Peer-to-Peer-Chat-System: a peer-to-peer chat. A peer is a client (the terminal) and a server,
-- joined by two channels; servers talk to each other in frames over TCP, and a tracker tells new
-- peers of others. This library models core/src and the two terminal interfaces of cli/src.
--
-- The parts and their files:
--   Prelude      texts as lists of code points, hash maps as association lists, decimals and how
--                they are read, searches, UTF-8
--   Util         core/src/util: `TtlMap`, a map whose entries expire, and the two counters;
--                TtlMap.Background, its task `purge_expired_tasks` beside the callers, and
--                TtlMap.RandomKeys, `random_keys_vals`; its other children are proofs
--   Frame        core/src/lib.rs: `Bing2BingFrame`, `ClientServerMessage`, `PeerControlMessage`
--   Result       the errors of the code as values
--   Parser       core/src/parser.rs: `Parser`, on the frames of an array
--   Cmd          core/src/cmd.rs and core/src/cmd/*.rs: the commands, their frames and parsers, and
--                the table of processed commands; Cmd.RoundTrip and Cmd.Duplicates are proofs
--   PeerMap      core/src/peer_map.rs: `PeerMap`, with the channels that its senders reach
--   Peer         core/src/peer.rs and `Server::connect_to_peer`: the task of an outgoing connection
--   Connection   core/src/connection.rs: what a stream yields and what was written to it
--   Node         the state that the handlers share and their effects, with what is outside in `Env`
--   Apply        the methods `apply` in core/src/cmd/*.rs, and the functions of the extensions
--   Server       core/src/server.rs: `handle_connection`, its dispatch and its loop;
--                Server.Messages, the messages of the client; Server.Start, the tracker's answer,
--                and announcing; Server.Joining, `new` and `start`; Server.Listen, `listen` and the
--                tasks of the accepted connections; the other children are proofs
--   Client       core/src/client.rs: `Client`
--   Tracker      core/src/tracker.rs and `Register::apply` of core/src/cmd/register.rs;
--                Tracker.Listen, `listen` and the tasks of its connections; Tracker.Binary,
--                core/src/bin/tracker.rs
--   Net          servers connected to each other: what an outgoing connection takes from its channel
--                is handled at the other end; all children are proofs
--   Init         core/src/lib.rs: `init`, the client and the server of a new peer
--   Cli          cli/src: Cli.Simple, simple_tui.rs; Cli.Fancy, fancy_tui.rs, with Cli.Screen, what
--                is drawn, and Cli.Ticks, the thread that reads keys; Cli.Startup, main.rs and how
--                a peer starts; the other children are proofs
--   Tests        the theorems on concrete inputs
--
-- How the code is read:
--   A mutex makes each method of a shared map one step, so a method is a function on the state. The
--   handlers are functions from a node to a result and a node: what was done before an error stays
--   done. What the clock, the random numbers, the network, the client's channel and the files do is
--   an argument (`Env`, or a Boolean for a step). A `HashMap` is iterated in the order of its list;
--   no theorem depends on that order. A `u64` is a natural number, wrapped where the code adds to it;
--   an `f64` is its bits, since the code only moves it; an `Instant` counts nanoseconds. A field
--   `data` of the code is `bytes` in a command and `value` in an entry. Log messages are left out.
--
-- Fuel: `Server.handle_connection` takes one unit for each frame of the stream and one for its end,
-- and more units than the stream has items are enough. The decimal of `n` takes `n + 1` units, one
-- for each digit being enough. The loop of the tracker is by recursion on the stream.
--
-- The task of `TtlMap`: a step is one critical section, one `notify_one` or one wait that ends; a
-- `Notify` is one permit, and the calls of `set` between their lock and their `notify_one` are
-- counted. What may panic gives an `Option`, `none` being the panic, or a type with a
-- constructor for it.
--
-- What is not modelled: the codec, JSON and TCP, which are of other packages, and so the layout
-- and the widgets of the fancy interface, and the sockets that the two functions `listen` open.
-- The random choice of `random_keys_vals`, the formats and the clock of chrono (`Cli.Display`)
-- and an address, `std::net::SocketAddr` (the interface `Tracker.SocketAddr`), are parameters.
-- The tasks of `Server.Listen` and of `Tracker.Listen` act in any order, on one shared state. In
-- `Server.Listen` and `Net` a frame is handled as a whole; Server.Race takes the locks of
-- `check_duplicate` and `set_processed` apart. In `Tracker.Listen` the lookup of a name and what
-- follows from it are two steps; `Tracker.apply_register` has no other task between them. `Net`
-- has no purge of the tables, and its runs `Net.Runs` have no announces.
pub mod Prelude
pub mod Util
pub mod Frame
pub mod Result
pub mod Parser
pub mod Cmd
pub mod PeerMap
pub mod Peer
pub mod Connection
pub mod Node
pub mod Apply
pub mod Client
pub mod Cli
pub mod Server
pub mod Tracker
pub mod Net
pub mod Init
pub mod Tests
