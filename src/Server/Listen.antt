-- ===== src/Server/Listen.antt =====
-- core/src/server.rs: `listen` and the tasks that it spawns, one for each incoming connection. The
-- tasks work on shared tables, each round of a connection as a whole, and each of the two tables that
-- `listen` makes has a task that purges it; an `Action` is what the listener or one of the tasks does
-- next, and a list of them is an order in which they run.
pub mod Counting
pub mod Telling
use peer_to_peer_chat_system.Prelude.{
  ℕ, ◌+◌, ◌==◌, Bool, true, false, Option, none, some, List, [], ◌∷◌, if◌then◌else◌,
}
use peer_to_peer_chat_system.Prelude.Text.{Text}
use peer_to_peer_chat_system.Frame.{Frame}
use peer_to_peer_chat_system.Result.{Result, ok, err}
use peer_to_peer_chat_system.Connection.{Connection}
use peer_to_peer_chat_system.Util.Counters
use peer_to_peer_chat_system.Node.{Node, Env, purge_commands, purge_adjacent}
use peer_to_peer_chat_system.Server.{read_frame, handle_frame}

-- Where the task of a connection stands: `idle` before there is one, `spawned` before it has begun,
-- `ending` after `handle_connection` has returned.
pub data Phase : Type 0 where
  idle finished : Phase
  spawned serving : Connection → Phase
  ending : Result (Unit {0}) → Phase

-- `shared` holds the tables, the channels and the files that the tasks share. Its connection is that
-- of the task that ran last.
pub record Listener : Type 0 where
  pub listening : Bool
  pub shared : Node
  pub tasks : ℕ → Phase
  pub accepted : ℕ
  pub num_incoming_conns : ℕ

-- `accepts none` is an error of `accept`, with which `listen` returns. The numbers are those of the
-- connections, in the order in which they were accepted.
pub data Action : Type 0 where
  accepts : Option Connection → Action
  begins : ℕ → Action
  works : ℕ → Env → Action
  finishes : ℕ → Action
  purges_commands purges_adjacent : ℕ → Action

abbrev pub put_task : ℕ → Phase → (ℕ → Phase) → ℕ → Phase
put_task i p tasks j = if j == i then p else tasks j

-- A round goes on with the loop only after a frame that was handled.
abbrev pub failure : Result (Unit {0}) → Option (Result (Unit {0}))
failure (ok _) = none
failure (err e) = some (err e)

abbrev pub round_of : Env → Text → Result (Option Frame) → Node → Option (Result (Unit {0})) × Node
round_of env my_name (err e) n = (some (err e), n)
round_of env my_name (ok none) n = (some (ok tt), n)
round_of env my_name (ok (some f)) n = let (r, n') = handle_frame env my_name f n in (failure r, n')

-- One round of the loop of `handle_connection`, and what it returns if the loop ends.
unfoldable pub round : Env → Text → Node → Option (Result (Unit {0})) × Node
round env my_name n = let (r, n') = read_frame n in round_of env my_name r n'

unfoldable pub accept : Bool → Option Connection → Listener → Listener
accept true (some connection) l = record l {
  tasks = put_task l.accepted (spawned connection) l.tasks;
  accepted = l.accepted + 1;
}
accept true none l = record l { listening = false }
accept false c l = l

-- The task up to the call of `handle_connection`.
unfoldable pub begin : ℕ → Phase → Listener → Listener
begin i (spawned connection) l = record l {
  tasks = put_task i (serving connection) l.tasks;
  num_incoming_conns = Counters.inc l.num_incoming_conns;
}
begin i p l = l

abbrev pub standing : Option (Result (Unit {0})) → Connection → Phase
standing none connection = serving connection
standing (some r) connection = ending r

-- A round of `handle_connection` in the task.
unfoldable pub work : Text → Env → ℕ → Phase → Listener → Listener
unfolding round
work my_name env i (serving connection) l =
    let (r, n) = round env my_name (record l.shared { connection = connection }) in
    record l { shared = n; tasks = put_task i (standing r n.connection) l.tasks }
work my_name env i p l = l

-- The task after `handle_connection`, whatever that returned.
unfoldable pub finish : ℕ → Phase → Listener → Listener
finish i (ending r) l = record l {
  tasks = put_task i finished l.tasks;
  num_incoming_conns = Counters.dec l.num_incoming_conns;
}
finish i p l = l

unfoldable pub act : Text → Action → Listener → Listener
unfolding accept begin work finish
act my_name (accepts c) l = accept l.listening c l
act my_name (begins i) l = begin i (l.tasks i) l
act my_name (works i env) l = work my_name env i (l.tasks i) l
act my_name (finishes i) l = finish i (l.tasks i) l
act my_name (purges_commands now) l = record l { shared = purge_commands now l.shared }
act my_name (purges_adjacent now) l = record l { shared = purge_adjacent now l.shared }

unfoldable pub act_all : Text → List Action → Listener → Listener
unfolding act
act_all my_name [] l = l
act_all my_name (a ∷ rest) l = act_all my_name rest (act my_name a l)

-- `listen` as it begins, with the tables and channels of the server.
unfoldable pub listen : Node → Listener
listen n = record {
  listening = true;
  shared = n;
  tasks = λ _. idle;
  accepted = 0;
  num_incoming_conns = 0;
}
