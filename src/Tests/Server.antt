-- ===== src/Tests/Server.antt =====
-- The handlers of core/src/server.rs on concrete inputs.
use peer_to_peer_chat_system.Prelude.{
  ◌≤◌, ◌+◌, ◌≡◌, refl, true, if◌then◌else◌, some, [], ◌∷◌, ◌++◌, arith,
}
use peer_to_peer_chat_system.Cmd.Whisper
use peer_to_peer_chat_system.Prelude.Text.{codes, text_eq}
use peer_to_peer_chat_system.Prelude.HashMap
use peer_to_peer_chat_system.Frame
use peer_to_peer_chat_system.Frame.{Frame, array, text, number, vec}
use peer_to_peer_chat_system.Result.{Result, ok}
use peer_to_peer_chat_system.Util.TtlMap
use peer_to_peer_chat_system.Util.Counters
use peer_to_peer_chat_system.Connection
use peer_to_peer_chat_system.PeerMap
use peer_to_peer_chat_system.PeerMap.{PeerMap, push}
use peer_to_peer_chat_system.PeerMap.Distinct.{IsValid, new-IsValid, insert-IsValid}
use peer_to_peer_chat_system.Cmd.{Command, say, whisper, origin, to_frame, check_duplicate}
use peer_to_peer_chat_system.Cmd.Say
use peer_to_peer_chat_system.Node.{Node, Env}
use peer_to_peer_chat_system.Server.{dispatch, handle_command, handle_connection}
use peer_to_peer_chat_system.Server.{handle_frame}
use peer_to_peer_chat_system.Server.Messages.{handle_message, handle_message_arrives}
use peer_to_peer_chat_system.Server.Start.{announce, available_incoming}
use peer_to_peer_chat_system.Server.{handle_unless}
use peer_to_peer_chat_system.Server.Race.{handle_unless_twice}
use peer_to_peer_chat_system.Cmd.Whisper.{Whisper}
use peer_to_peer_chat_system.Server.Whispers.{Returned, handle_command-Returned}
use peer_to_peer_chat_system.Server.Announced.{announce_arrives}
use peer_to_peer_chat_system.Peer
use peer_to_peer_chat_system.Peer.{PeerData}
use peer_to_peer_chat_system.Cmd
use peer_to_peer_chat_system.Cmd.{from_frame}
use peer_to_peer_chat_system.Cmd.Announce
use peer_to_peer_chat_system.Server.Once.{here, handled, handle_command_once}
use peer_to_peer_chat_system.Server.Loop.{handle_connection_ends}
use peer_to_peer_chat_system.Server.Flood.{dispatch_spares_source}
use peer_to_peer_chat_system.Server.Local.{local_message, dispatch_tells}
use peer_to_peer_chat_system.Server.Relay.{handle_command_relays}

abbrev pub env : Env
env = record {
  now = 100;
  system_time = 1;
  gen_range = λ n. 0;
  debug = λ f. [];
  client_open = true;
  write_ok = true;
  open_ok = true;
  append_ok = true;
}

-- A peer that knows `ann` and `bob`, to which `ann` is about to say something.
abbrev peers : PeerMap
peers = record {
  entries = (codes "ann", 0) ∷ (codes "bob", 1) ∷ [];
  channels = λ c. PeerMap.fresh_channel;
  next_channel = 2;
}

abbrev pub said : Frame
said = array (vec (text (codes "say") ∷ text (codes "ann") ∷ number 4 ∷ text (codes "hi") ∷ []))

abbrev pub node : Node
node = record {
  peers = peers;
  adjacency_list = TtlMap.new;
  processed_commands = TtlMap.new;
  sequence_numbers = 9;
  connection = record { incoming = Connection.frame said ∷ []; written = [] };
  events = [];
  spawned = [];
  files = [];
}

abbrev pub one : PeerMap
one = record {
  entries = (codes "ann", 0) ∷ [];
  channels = λ c. PeerMap.fresh_channel;
  next_channel = 1;
}

pub one-IsValid : IsValid one
unfolding PeerMap.insert HashMap.insert PeerMap.new
one-IsValid = insert-IsValid (codes "ann") PeerMap.new new-IsValid

peers-IsValid : IsValid peers
unfolding PeerMap.insert HashMap.insert text_eq
peers-IsValid = insert-IsValid (codes "bob") one one-IsValid

abbrev hello : Command
hello = say (record { source = codes "ann"; sequence_number = 4; message = codes "hi" })

abbrev other : Command
other = say (record { source = codes "ann"; sequence_number = 5; message = codes "hi" })

abbrev secret : Command
secret = whisper (record {
  source = codes "ann";
  sequence_number = 4;
  destination = codes "me";
  message = codes "hi";
})

abbrev once : Node
once = (handle_command env (codes "me") hello node).1

abbrev twice : Node
twice = (handle_command env (codes "me") other once).1

handle_command_once_example : handle_command env (codes "me") secret twice ≡ (ok tt, twice)
unfolding origin
handle_command_once_example =
    handle_command_once env env (codes "me") hello secret (codes "ann", 4) node twice refl refl
      (handled env other (here once))

dispatch_spares_source_example :
    ((dispatch env (codes "me") hello node).1.peers.channels 0 ≡ peers.channels 0)
    × IsValid (dispatch env (codes "me") hello node).1.peers
unfolding origin HashMap.get text_eq
dispatch_spares_source_example =
    dispatch_spares_source env (codes "me") hello (codes "ann", 4) 0 node refl refl peers-IsValid
      refl

handle_command_relays_example : (handle_command env (codes "me") hello node).1.peers.channels 1 ≡ (
    if text_eq (codes "bob") (codes "ann")
    then peers.channels 1
    else push (Frame.frame said) (peers.channels 1))
unfolding origin to_frame HashMap.get text_eq check_duplicate TtlMap.new TtlMap.get Say.into_frame
handle_command_relays_example =
    handle_command_relays env (codes "me") hello (codes "ann", 4) said node (codes "bob") 1 refl
      refl refl refl refl peers-IsValid refl

dispatch_tells_example :
    (dispatch env (codes "me") secret node).1.events
    ≡ [] ++ local_message (codes "me") (Counters.next 9).0 secret
dispatch_tells_example = dispatch_tells env (codes "me") secret node refl

handle_connection_ends_example :
    (r : Result (Unit {0})) × (m : Node) × (handle_connection 2 (λ k. env) (codes "me") node
      ≡ some (r, m))
    × (r ≡ ok tt → m.connection.incoming ≡ [])
handle_connection_ends_example = handle_connection_ends (λ k. env) (codes "me") 2 node (omega arith)

abbrev message : Frame.ClientServerMessage
message = Frame.whisper (codes "eve") (codes "me") (codes "psst")

abbrev whispered : Command
whispered = whisper (record {
  source = codes "eve";
  sequence_number = 9;
  destination = codes "me";
  message = codes "psst";
})

handle_message_arrives_example :
    (a' : Node) × (handle_message message node ≡ some a')
    × (a'.sequence_numbers ≡ (Counters.next 9).1)
    × (a'.peers.channels 0
        ≡ push
            (Frame.frame (
              Whisper.into_frame (record {
                source = codes "eve";
                sequence_number = 9;
                destination = codes "me";
                message = codes "psst";
              })))
            (peers.channels 0))
    × ((handle_frame env
          (codes "me")
          (Whisper.into_frame (record {
            source = codes "eve";
            sequence_number = 9;
            destination = codes "me";
            message = codes "psst";
          }))
          node).1.events
        ≡ [] ++ local_message (codes "me") (Counters.next 9).0 whispered)
unfolding Counters.next to_frame HashMap.get text_eq check_duplicate origin TtlMap.new TtlMap.get
handle_message_arrives_example =
    handle_message_arrives env (codes "me") message node node whispered _ (codes "ann") 0 refl refl
      peers-IsValid refl refl refl refl

abbrev place : PeerData
place = record { city = codes "???"; lat = 0; lng = 0; peers = [] }

announce_arrives_example :
    (g : Frame) × ((announce (codes "eve") (codes "h") 7 2 8 place node).peers
      ≡ PeerMap.broadcast (codes "eve") g peers)
    × (from_frame g
        ≡ ok (
            Cmd.announce (
              Announce.new
                (codes "eve")
                (Counters.next 9).0
                (codes "h")
                7
                (available_incoming 2 8)
                (codes "???")
                0
                0
                (PeerMap.peer_names peers))))
    × (2 ≤ 8
        → (Announce.new
              (codes "eve")
              (Counters.next 9).0
              (codes "h")
              7
              (available_incoming 2 8)
              (codes "???")
              0
              0
              (PeerMap.peer_names peers)).available_incoming
            + 2
          ≡ 8)
    × (TtlMap.get (codes "eve") (handle_frame env (codes "me") g node).1.adjacency_list
        ≡ some (Peer.new (codes "???") 0 0 (PeerMap.peer_names peers)))
unfolding check_duplicate origin TtlMap.new TtlMap.get HashMap.get
announce_arrives_example =
    announce_arrives env (codes "me") (codes "eve") (codes "h") 7 2 8 place node node refl

handle_unless_twice_example :
    let seen = check_duplicate hello node.processed_commands in
    let n' = (handle_unless seen env (codes "me") hello node).1 in
    (handle_unless seen env (codes "me") hello n').1.peers.channels 1
    ≡ push (Frame.frame said) (push (Frame.frame said) (peers.channels 1))
unfolding origin to_frame HashMap.get text_eq check_duplicate TtlMap.new TtlMap.get Say.into_frame
handle_unless_twice_example =
    handle_unless_twice env (codes "me") hello (codes "ann", 4) said node (codes "bob") 1 refl refl
      refl refl peers-IsValid refl refl refl

abbrev onward : Whisper
onward = record {
  source = codes "ann";
  sequence_number = 4;
  destination = codes "bob";
  message = codes "hi";
}

handle_command-Returned_example :
    Returned onward node (handle_command env (codes "me") (whisper onward) node).1
unfolding text_eq
handle_command-Returned_example = handle_command-Returned env (codes "me") onward node refl
