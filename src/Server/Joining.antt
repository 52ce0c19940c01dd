-- ===== src/Server/Joining.antt =====
-- core/src/server.rs: the record `Server`, `new`, and `start` up to the call of `listen`.
use mathlib.Core.List.{append-nil, append_assoc}
use peer_to_peer_chat_system.Prelude.{
  ℕ, ◌≡◌, sym, ap, ◌∙◌, inl, inr, Bool-cases, Bool, true, false, Option, none, some, List, [], ◌∷◌,
  ◌++◌, if◌then◌else◌,
}
use peer_to_peer_chat_system.Prelude.Text.{Text, text_eq}
use peer_to_peer_chat_system.Prelude.Decimal.{to_decimal}
use peer_to_peer_chat_system.Prelude.Number.{parse_u64}
use peer_to_peer_chat_system.Frame.{Frame}
use peer_to_peer_chat_system.Result.{Result, ok, err, Error, io}
use peer_to_peer_chat_system.Util.Counters
use peer_to_peer_chat_system.Util.TtlMap
use peer_to_peer_chat_system.Connection
use peer_to_peer_chat_system.Connection.{Connection, Read}
use peer_to_peer_chat_system.Cmd.Register
use peer_to_peer_chat_system.Peer.{PeerData}
use peer_to_peer_chat_system.PeerMap
use peer_to_peer_chat_system.Node
use peer_to_peer_chat_system.Node.{Node, Spawn}
use peer_to_peer_chat_system.Server.Start.{Place, parse_register_response, connect_to_peers}

-- The listener and the channels are outside.
pub record Server : Type 0 where
  pub sequence_numbers : ℕ
  pub name : Text
  pub ip_address : Text
  pub port : ℕ
  pub num_incoming_conns : ℕ
  pub my_peer_data : PeerData

-- `port.to_string().parse().unwrap()`, once the address is bound.
unfoldable pub new_at : Text → Text → PeerData → Option ℕ → Option (Result Server)
new_at name bind_address peer_data none = none
new_at name bind_address peer_data (some port) = some (
    ok (record {
      sequence_numbers = 0;
      name = name;
      ip_address = bind_address;
      port = port;
      num_incoming_conns = 0;
      my_peer_data = peer_data;
    }))

-- `Server::new`, where `bind_ok` tells whether the address can be bound, and `peer_data` is
-- `PeerData::default()`; `none` is a panic.
unfoldable pub new : Bool → Text → Text → Text → PeerData → Option (Result Server)
unfolding new_at
new false name bind_address port peer_data = some (err io)
new true name bind_address port peer_data = new_at name bind_address peer_data (parse_u64 port)

-- How `start` gets as far as `listen`: it returns an error, panics, or listens. The peers in the
-- answer are then being connected to, the messages of the client handled and announces sent.
pub data Started : Type 0 where
  refused : Error → Started
  panicked : Started
  listening : Node → Started

-- What `listen` starts with.
unfoldable pub listens_with : ℕ → Node
listens_with sequence_numbers = record {
  peers = PeerMap.new;
  adjacency_list = TtlMap.new;
  processed_commands = TtlMap.new;
  sequence_numbers = sequence_numbers;
  connection = record { incoming = []; written = [] };
  events = [];
  spawned = [];
  files = [];
}

-- From the peers in the answer on.
unfoldable pub joins : Text → ℕ → Result (List Place) → Started
unfolding listens_with
joins my_name sequence_numbers (err e) = refused e
joins my_name sequence_numbers (ok places) =
    listening (connect_to_peers my_name places (listens_with sequence_numbers))

-- `read_frame().await.unwrap().unwrap()`
unfoldable pub reads_response : Text → ℕ → Result (Option Frame) → Started
unfolding joins
reads_response my_name sequence_numbers (err e) = panicked
reads_response my_name sequence_numbers (ok none) = panicked
reads_response my_name sequence_numbers (ok (some f)) =
    joins my_name sequence_numbers (parse_register_response f)

unfoldable pub registers : Text → ℕ → Result (Unit {0}) → Connection → Started × Connection
unfolding reads_response
registers my_name sequence_numbers (err e) c = (panicked, c)
registers my_name sequence_numbers (ok _) c =
    let (r, c') = Connection.read_frame c in (reads_response my_name sequence_numbers r, c')

-- `Register::new(…)` for this server.
unfoldable pub registration : Server → ℕ → Register.Register
registration s k = Register.new s.name k s.ip_address (to_decimal s.port)

-- `Server::start`. `connect_ok` and `write_ok` tell whether the tracker is reached and takes a frame,
-- and `incoming` is what it sends.
unfoldable pub start : Bool → Bool → List Read → Server → Started × Connection × Server
unfolding registers registration
start false write_ok incoming s = (refused io, record { incoming = incoming; written = [] }, s)
start true write_ok incoming s =
    let (k, numbers) = Counters.next s.sequence_numbers in
    let (r, c) =
      Connection.write_frame write_ok (Register.into_frame (registration s k))
        (record { incoming = incoming; written = [] }) in
    let (started, c') = registers s.name numbers r c in
    (started, c', record s { sequence_numbers = numbers })

-- The peers that `start` connects to.
abbrev pub others : Text → List Place → List Spawn
others my_name [] = []
others my_name ((name, ip_address, port) ∷ places) =
    let rest = others my_name places in
    if text_eq name my_name
    then rest
    else record { name = name; ip_address = ip_address; port = port } ∷ rest

pub connect_to_peers-others :
    (my_name : Text) (places : List Place) (n : Node)
    → connect_to_peers my_name places n ≡ record n { spawned = n.spawned ++ others my_name places }
unfolding connect_to_peers Node.connect_to_peer
connect_to_peers-others my_name [] n =
    ap (λ l. record n { spawned = l }) (sym (append-nil n.spawned))
connect_to_peers-others my_name ((name, ip_address, port) ∷ places) n =
    elim (Bool-cases (text_eq name my_name)) [
      | inl t ↦ rw t (connect_to_peers-others my_name places n)
      | inr t ↦ rw t (
          connect_to_peers-others my_name places (Node.connect_to_peer name ip_address port n).1
          ∙ ap (λ l. record n { spawned = l })
              (append_assoc n.spawned (_ ∷ []) (others my_name places)))
    ]
