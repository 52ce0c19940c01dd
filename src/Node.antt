-- ===== src/Node.antt =====
-- The state that the handlers of core/src/server.rs and core/src/cmd/*.rs work on, and their
-- effects: `ConnectionData` of core/src/connection.rs and `PeeringInfo` of core/src/server.rs with
-- the shared counter, the channel to the client, the tasks spawned and the files.
pub mod Keeps
pub mod Peers
use peer_to_peer_chat_system.Prelude.{
  ℕ, ◌≡◌, ◌<◌, Bool, true, false, Option, none, some, List, [], ◌∷◌, ◌++◌, u64_mod,
}
use peer_to_peer_chat_system.Prelude.Text.{Text}
use peer_to_peer_chat_system.Frame.{Frame, ClientServerMessage}
use peer_to_peer_chat_system.Result.{Result, ok, err, Error, io, closed}
use peer_to_peer_chat_system.Util.TtlMap
use peer_to_peer_chat_system.Util.Counters
use peer_to_peer_chat_system.Connection
use peer_to_peer_chat_system.Connection.{Connection}
use peer_to_peer_chat_system.Peer.{PeerData}
use peer_to_peer_chat_system.PeerMap
use peer_to_peer_chat_system.PeerMap.{PeerMap}

-- A call of `Server::connect_to_peer`, whose task has not begun.
pub record Spawn : Type 0 where
  pub name : Text
  pub ip_address : Text
  pub port : Text

pub record Node : Type 0 where
  pub peers : PeerMap
  pub adjacency_list : TtlMap.State PeerData
  pub processed_commands : TtlMap.State Bool
  pub sequence_numbers : ℕ
  pub connection : Connection
  -- the messages sent to the client
  pub events : List ClientServerMessage
  pub spawned : List Spawn
  -- the file names and texts appended, in turn
  pub files : List (Text × Text)

-- What the handlers get from outside: the instant, the seconds since the epoch, `gen_range(0..n)`,
-- `{:?}` of a frame, and whether the client's channel is open, the network takes a frame, and a log
-- file opens and takes a line.
pub record Env : Type 0 where
  pub now : ℕ
  pub system_time : ℕ
  pub gen_range : ℕ → ℕ
  pub debug : Frame → Text
  pub client_open : Bool
  pub write_ok : Bool
  pub open_ok : Bool
  pub append_ok : Bool

-- What was done before an error stays done.
abbrev pub Exec : Type 0 → Type 0
Exec A = Node → Result A × Node

abbrev pub continue : {A B : Type 0} → Result A → (A → Exec B) → Exec B
continue (ok a) f n = f a n
continue (err e) f n = (err e, n)

infixl 5 ◌>>=◌ ◌>>◌
abbrev pub ◌>>=◌ : {A B : Type 0} → Exec A → (A → Exec B) → Exec B
◌>>=◌ m f n = let (r, n') = m n in continue r f n'

abbrev pub ◌>>◌ : {B : Type 0} → Exec (Unit {0}) → Exec B → Exec B
m >> k = m >>= λ _. k

abbrev pub pure : {A : Type 0} → A → Exec A
pure a n = (ok a, n)

abbrev pub lift : {A : Type 0} → Result A → Exec A
lift r n = (r, n)

abbrev pub gets : {A : Type 0} → (Node → A) → Exec A
gets f n = (ok (f n), n)

-- `peers.broadcast(sender, frame)`
unfoldable pub broadcast : Text → Frame → Exec (Unit {0})
broadcast sender f n = (ok tt, record n { peers = PeerMap.broadcast sender f n.peers })

unfoldable pub send_client_if : Bool → ClientServerMessage → Exec (Unit {0})
send_client_if true m n = (ok tt, record n { events = n.events ++ m ∷ [] })
send_client_if false m n = (err closed, n)

-- `client_tx.send(message).await?`
unfoldable pub send_client : Env → ClientServerMessage → Exec (Unit {0})
unfolding send_client_if
send_client env = send_client_if env.client_open

-- `connection.write_frame(frame).await?`
unfoldable pub write_frame : Env → Frame → Exec (Unit {0})
write_frame env f n =
    let (r, c) = Connection.write_frame env.write_ok f n.connection in
    (r, record n { connection = c })

-- `sequence_numbers.next()`
unfoldable pub next_sequence_number : Exec ℕ
next_sequence_number n =
    let (k, c) = Counters.next n.sequence_numbers in (ok k, record n { sequence_numbers = c })

unfoldable pub append_if : Bool → Bool → Text → Text → Exec (Unit {0})
append_if true true file line n = (ok tt, record n { files = n.files ++ (file, line) ∷ [] })
append_if open_ok append_ok file line n = (err io, n)

-- The file is opened, or made, and the line is written at its end; either may fail.
unfoldable pub append_to_file : Env → Text → Text → Exec (Unit {0})
unfolding append_if
append_to_file env = append_if env.open_ok env.append_ok

-- `adjacency_list.set(source, data, Some(30 s))`
unfoldable pub set_adjacent : Env → Text → PeerData → ℕ → Exec (Unit {0})
set_adjacent env source d lifetime n = (
  ok tt,
  record n { adjacency_list = (TtlMap.set env.now source d (some lifetime) n.adjacency_list).0 },
)

-- `Server::connect_to_peer`
unfoldable pub connect_to_peer : Text → Text → Text → Exec (Unit {0})
connect_to_peer name ip_address port n = (
  ok tt,
  record n {
    spawned = n.spawned ++ record { name = name; ip_address = ip_address; port = port } ∷ [];
  },
)

-- A purge by the task of a table, at an instant.
abbrev pub purge_commands : ℕ → Node → Node
purge_commands now n = record n {
  processed_commands = (TtlMap.purge_expired_keys now n.processed_commands).0;
}

abbrev pub purge_adjacent : ℕ → Node → Node
purge_adjacent now n = record n {
  adjacency_list = (TtlMap.purge_expired_keys now n.adjacency_list).0;
}
