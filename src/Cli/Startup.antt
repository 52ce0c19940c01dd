-- ===== src/Cli/Startup.antt =====
-- cli/src/main.rs with the functions `start` and `start_peer` of the two interfaces: from the command
-- line to a peer that runs. Reading the arguments and the file of the environment is of other
-- packages, and the terminal and the loggers work.
use peer_to_peer_chat_system.Prelude.{
  ℕ, ◌≡◌, refl, ◌<◌, ◌^◌, ◌++◌, ◌∷◌, Bool, true, false, Option, none, some, if◌then◌else◌,
}
use peer_to_peer_chat_system.Prelude.Text.{Text}
use peer_to_peer_chat_system.Prelude.Decimal.{to_decimal}
use peer_to_peer_chat_system.Util.TtlMap
use peer_to_peer_chat_system.Peer.{PeerData}
use peer_to_peer_chat_system.Client
use peer_to_peer_chat_system.Client.{Client}
use peer_to_peer_chat_system.Server.Joining.{Server}
use peer_to_peer_chat_system.Init.{init, init-some, fresh_server}
use peer_to_peer_chat_system.Tracker.{SocketAddr, Tracker, Known}
use peer_to_peer_chat_system.Tracker.Joins.{JoinsBy, start-JoinsBy}

-- `Cli` of main.rs. An address is the text that it is displayed as.
pub record Args : Type 0 where
  pub name : Text
  pub ip_address : Text
  pub port : ℕ
  pub tracker_ip_address : Text
  pub tracker_port : ℕ
  pub max_connections : ℕ
  pub simple : Bool

pub data Ui : Type 0 where
  simple_tui fancy_tui : Ui

-- What `start_peer` is given in its thread.
pub record StartPeer : Type 0 where
  pub client : Client
  pub server : Server
  pub tracker_ip_address : Text
  pub tracker_port : ℕ
  pub max_incoming_connections : ℕ

-- The program ends with a message, or in a panic, or an interface runs beside the thread of the peer.
pub data Launched : Type 0 where
  not_loaded failed : Launched
  runs : Ui → StartPeer → Launched

unfoldable pub started_with : Ui → Args → Option (Client × Server) → Launched
started_with ui args none = failed
started_with ui args (some (client, server)) = runs ui (record {
  client = client;
  server = server;
  tracker_ip_address = args.tracker_ip_address;
  tracker_port = args.tracker_port;
  max_incoming_connections = args.max_connections;
})

-- `start` of either interface, up to the thread that it spawns.
unfoldable pub start : Ui → Bool → PeerData → Args → Launched
unfolding started_with
start ui bind_ok peer_data args =
    started_with ui args (init bind_ok args.name args.ip_address args.port peer_data)

unfoldable pub run : Bool → PeerData → Args → Launched
unfolding start
run bind_ok peer_data args =
    if args.simple
    then start simple_tui bind_ok peer_data args
    else start fancy_tui bind_ok peer_data args

-- `main`, where `dotenv_ok` tells whether a file `.env` was found and read.
unfoldable pub main : Bool → Bool → PeerData → Args → Launched
unfolding run
main true bind_ok peer_data args = run bind_ok peer_data args
main false bind_ok peer_data args = not_loaded

abbrev pub ui_of : Bool → Ui
ui_of true = simple_tui
ui_of false = fancy_tui

abbrev pub peer_of : Args → PeerData → StartPeer
peer_of args peer_data = record {
  client = Client.new args.name;
  server = fresh_server args.name args.ip_address args.port peer_data;
  tracker_ip_address = args.tracker_ip_address;
  tracker_port = args.tracker_port;
  max_incoming_connections = args.max_connections;
}

main-runs :
    (b : Bool) (args : Args) (peer_data : PeerData)
    → init true args.name args.ip_address args.port peer_data
      ≡ some (Client.new args.name, fresh_server args.name args.ip_address args.port peer_data)
    → (if b then start simple_tui true peer_data args else start fancy_tui true peer_data args)
      ≡ runs (ui_of b) (peer_of args peer_data)
unfolding start started_with
main-runs true args peer_data h = rw h refl
main-runs false args peer_data h = rw h refl

module _ (addrs : SocketAddr) (choose : TtlMap.State addrs.Addr → Known addrs) where
  -- From the command line to the network: where a file `.env` is read and the address of a port of
  -- 16 bits can be bound and read, the interface runs that the arguments ask for, and the server in
  -- the thread beside it joins a tracker to which the name is new, or known under the same address,
  -- over connections that take what is written.
  pub main-JoinsBy :
      (now : ℕ) (args : Args) (peer_data : PeerData) (t : Tracker addrs) (a : addrs.Addr)
      → args.port < 2 ^ 16
      → addrs.parse (args.ip_address ++ b':' ∷ to_decimal args.port) ≡ some a
      → addrs.same a a ≡ true
      → ((k : addrs.Addr) → TtlMap.get args.name t.peers ≡ some k → addrs.same k a ≡ true)
      → (main true true peer_data args ≡ runs (ui_of args.simple) (peer_of args peer_data))
        × JoinsBy addrs choose now (peer_of args peer_data).server t
  unfolding main run
  main-JoinsBy now args peer_data t a h p same known = (
    main-runs args.simple args peer_data
        (init-some args.name args.ip_address args.port peer_data h),
    start-JoinsBy addrs choose now (peer_of args peer_data).server t a p same known,
  )
