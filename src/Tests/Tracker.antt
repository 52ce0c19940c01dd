-- ===== src/Tests/Tracker.antt =====
-- core/src/tracker.rs on concrete inputs.
use peer_to_peer_chat_system.Prelude.{
  ◌≡◌, refl, ◌&&◌, true, false, ap, none, some, List, [], ◌∷◌, ◌++◌, map, ◌==◌, if◌then◌else◌,
}
use peer_to_peer_chat_system.Prelude.Text.{Text, codes, text_eq}
use peer_to_peer_chat_system.Prelude.HashMap
use peer_to_peer_chat_system.Prelude.Search.{split_once}
use peer_to_peer_chat_system.Frame.{Frame, array, text, number, vec}
use peer_to_peer_chat_system.Result.{Result, ok, expected, array_kind}
use peer_to_peer_chat_system.Parser
use peer_to_peer_chat_system.Util.TtlMap
use peer_to_peer_chat_system.Connection
use peer_to_peer_chat_system.Connection.{Connection}
use peer_to_peer_chat_system.Cmd.{from_frame, to_lowercase, parser_for, parse_command}
use peer_to_peer_chat_system.Cmd.Register
use peer_to_peer_chat_system.Cmd.Register.{Register}
use peer_to_peer_chat_system.Tracker.{
  SocketAddr, Tracker, Known, process_frame, register_of, apply_register, apply_known, reply,
}
use peer_to_peer_chat_system.Tracker.Joins.{JoinsBy, start-JoinsBy, start-refused}
use peer_to_peer_chat_system.Server.Joining.{Server, start, registration, refused}
use peer_to_peer_chat_system.Prelude.Decimal.{to_decimal, digits}
use peer_to_peer_chat_system.Util.Counters
use peer_to_peer_chat_system.Peer
use peer_to_peer_chat_system.Tracker.Listen.{
  Listener, Action, idle, accepted, accepts, reads, applies, accept, looked_up, apply_found, read,
  act, act_all,
}
use peer_to_peer_chat_system.Tracker.Listen.Race.{Registers, act_all_overtakes}
use peer_to_peer_chat_system.Tracker.Listen.Steady.{Stays, act_all_keeps}
use peer_to_peer_chat_system.Tracker.Connections.{Round, handle_stream, handle_stream-refused}

-- An address as the texts before and behind the colon.
abbrev pub addrs : SocketAddr
addrs = record {
  Addr = Text × Text;
  parse = split_once b':';
  ip = λ a. a.0;
  port = λ a. a.1;
  same = λ a b. text_eq a.0 b.0 && text_eq a.1 b.1;
}

abbrev entry : TtlMap.Entry (Text × Text)
entry = record { id = 0; value = (codes "::", codes "1"); expires_at = none }

-- The tracker that knows `ann`.
abbrev pub tracker : Tracker addrs
tracker = record {
  peers = record { entries = (codes "ann", entry) ∷ []; expirations = []; next_id = 1 };
  connection = record { incoming = []; written = [] };
}

abbrev pub all : TtlMap.State (Text × Text) → Known addrs
all st = map (λ e. (e.0, e.1.value)) st.entries

abbrev env : Round addrs
env = record { now = 0; choose = all; write_ok = true }

abbrev bob : Register
bob = record {
  peer_name = codes "bob";
  sequence_number = 0;
  ip_address = codes "h";
  port = codes "2";
}

abbrev impostor : Register
impostor = record {
  peer_name = codes "ann";
  sequence_number = 0;
  ip_address = codes "h";
  port = codes "2";
}

abbrev registers : Text → Frame
registers name = array (
    vec (text (codes "register") ∷ text name ∷ number 0 ∷ text (codes "h") ∷ text (codes "2") ∷ []))

abbrev answered : Result (Unit {0}) × Tracker addrs
answered = apply_register addrs all true 0 bob tracker

-- The peer `bob` before it starts, and one with the name of another.
abbrev server : Server
server = record {
  sequence_numbers = 0;
  name = codes "bob";
  ip_address = codes "h";
  port = 2;
  num_incoming_conns = 0;
  my_peer_data = Peer.default 0 0;
}

start-JoinsBy_example : JoinsBy addrs all 0 server tracker
unfolding split_once HashMap.get text_eq TtlMap.get to_decimal digits
start-JoinsBy_example =
    start-JoinsBy addrs all 0 server tracker (codes "h", codes "2") refl refl (λ k e. cc)

abbrev second : Server
second = record server { name = codes "ann" }

start-refused_example :
    let t' = (apply_register addrs all true 0 (registration second 0) tracker).1 in
    (t'.peers ≡ tracker.peers)
    × (f : Frame) × (t'.connection.written ≡ [] ++ f ∷ [])
    × ((start true true (Connection.frame f ∷ []) second).0 ≡ refused (expected array_kind f))
unfolding split_once HashMap.get text_eq TtlMap.get to_decimal digits Counters.next
start-refused_example =
    start-refused addrs all 0 second tracker (codes "h", codes "2") (codes "::", codes "1") refl
      refl refl

handle_stream-refused_example :
    (t' : Tracker addrs) × (handle_stream addrs
        (λ k. env)
        (Connection.frame (registers (codes "ann")) ∷ [])
        tracker
      ≡ some (ok tt, t'))
    × (TtlMap.get (codes "ann") t'.peers ≡ none)
unfolding process_frame register_of from_frame Register.parse_frames Register.new parser_for text_eq
    to_lowercase Parser.new Parser.next_text Parser.next_number Parser.finish parse_command
    split_once HashMap.get TtlMap.get
handle_stream-refused_example =
    handle_stream-refused addrs (λ k. env) (registers (codes "ann")) impostor tracker
      (codes "::", codes "1") (codes "h", codes "2") refl refl refl refl refl

-- A second connection registers `bob` and ends.
abbrev listener : Listener addrs
listener = record { listening = true; peers = tracker.peers; tasks = λ _. idle; connections = 0 }

abbrev newcomer : Connection
newcomer = record { incoming = Connection.frame (registers (codes "bob")) ∷ []; written = [] }

abbrev visit : List (Action addrs)
visit = accepts (some newcomer) ∷ reads 0 ∷ applies 0 env ∷ reads 0 ∷ accepts none ∷ []

not_bob : codes "bob" ≡ codes "ann" → ⊥
unfolding text_eq
not_bob h = let same : true ≡ false = ap (text_eq (codes "bob")) h in cc

visit-Stays : Stays addrs (codes "ann") visit listener
unfolding act accept read Connection.take_frame process_frame from_frame Parser.new Parser.next_text
    text_eq to_lowercase Register.parse_frames Parser.next_number Parser.finish looked_up
    apply_found apply_known reply Register.new register_of parser_for parse_command split_once
    TtlMap.get HashMap.get Connection.write_frame
visit-Stays = (λ h. h, (λ h. not_bob h.0, tt))

act_all_keeps_example :
    TtlMap.get (codes "ann") (act_all addrs visit listener).peers ≡ some (codes "::", codes "1")
unfolding TtlMap.get HashMap.get text_eq
act_all_keeps_example =
    act_all_keeps addrs (codes "ann") (codes "::", codes "1") visit listener refl (λ i h. h)
      visit-Stays

-- Two connections that bring the name `bob`, from different addresses.
abbrev taker : Connection
taker = record {
  incoming =
      Connection.frame (
        array (
          vec (
            text (codes "register")
            ∷ text (codes "bob")
            ∷ number 0
            ∷ text (codes "k")
            ∷ text (codes "3")
            ∷ [])))
      ∷ [];
  written = [];
}

abbrev other_bob : Register
other_bob = record {
  peer_name = codes "bob";
  sequence_number = 0;
  ip_address = codes "k";
  port = codes "3";
}

abbrev both : Listener addrs
both = record listener { tasks = λ i. if i == 0 then accepted newcomer else accepted taker }

newcomer-Registers : Registers addrs (accepted newcomer) bob (codes "h", codes "2")
unfolding process_frame register_of from_frame Register.parse_frames Register.new parser_for text_eq
    to_lowercase Parser.new Parser.next_text Parser.next_number Parser.finish parse_command
    split_once
newcomer-Registers = record {
  first = _;
  rest = [];
  written = [];
  phase = refl;
  parsed = refl;
  address = refl;
}

taker-Registers : Registers addrs (accepted taker) other_bob (codes "k", codes "3")
unfolding process_frame register_of from_frame Register.parse_frames Register.new parser_for text_eq
    to_lowercase Parser.new Parser.next_text Parser.next_number Parser.finish parse_command
    split_once
taker-Registers = record {
  first = _;
  rest = [];
  written = [];
  phase = refl;
  parsed = refl;
  address = refl;
}

act_all_overtakes_example :
    let l' = act_all addrs (reads 0 ∷ reads 1 ∷ applies 0 env ∷ []) both in
    (TtlMap.get (codes "bob") l'.peers ≡ some (codes "h", codes "2"))
    × (TtlMap.get (codes "bob") (act addrs (applies 1 env) l').peers ≡ some (codes "k", codes "3"))
unfolding TtlMap.get HashMap.get text_eq
act_all_overtakes_example =
    act_all_overtakes addrs env env 0 1 bob other_bob (codes "h", codes "2") (codes "k", codes "3")
      both refl newcomer-Registers taker-Registers refl refl
