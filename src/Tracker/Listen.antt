-- ===== src/Tracker/Listen.antt =====
-- core/src/tracker.rs: `new`, `listen` and the tasks that it spawns, one for each connection, which
-- share the known peers. `Register::apply`, core/src/cmd/register.rs, takes the lock of the peers
-- once to look a name up and again to set it, so other tasks act between the two: an `Action` is
-- what the listener or one of the tasks does next, up to the end of such a lookup or to the end of
-- what the task does with its frame.
pub mod Steady
pub mod Race
use peer_to_peer_chat_system.Prelude.{
  ℕ, ◌+◌, ◌==◌, Bool, true, false, Option, none, some, List, [], ◌∷◌, ◌++◌, if◌then◌else◌,
}
use peer_to_peer_chat_system.Prelude.Text.{Text}
use peer_to_peer_chat_system.Frame.{Frame}
use peer_to_peer_chat_system.Result.{Result, ok, err, io}
use peer_to_peer_chat_system.Util.TtlMap
use peer_to_peer_chat_system.Connection.{Connection, take_frame}
use peer_to_peer_chat_system.Cmd.{Command, register, from_frame}
use peer_to_peer_chat_system.Cmd.Register.{Register}
use peer_to_peer_chat_system.Tracker.{SocketAddr, Tracker, process_frame, apply_known}
use peer_to_peer_chat_system.Tracker.Connections.{Round, Outcome}

module _ (addrs : SocketAddr) where
  -- Where the task of a connection stands: before its first frame; in its loop, under the name that
  -- it registered first; between the lookup of a register command's name and what follows from it,
  -- with the address that it names and the one that was found; at its end; or after an `unwrap` of
  -- an error.
  pub data Phase : Type 0 where
    idle left panicked : Phase
    accepted : Connection → Phase
    serving : Text → Connection → Phase
    registering : Text → Register → addrs.Addr → Option addrs.Addr → Connection → Phase

  pub record Listener : Type 0 where
    pub listening : Bool
    pub peers : TtlMap.State addrs.Addr
    pub tasks : ℕ → Phase
    pub connections : ℕ

  -- `accepts none` is an error of `accept`, with which `listen` returns. The numbers are those of
  -- the connections, in the order in which they were accepted.
  pub data Action : Type 0 where
    accepts : Option Connection → Action
    reads : ℕ → Action
    applies : ℕ → Round addrs → Action

  abbrev pub put_task : ℕ → Phase → (ℕ → Phase) → ℕ → Phase
  put_task i p tasks j = if j == i then p else tasks j

  unfoldable pub accept : Bool → Option Connection → Listener → Listener
  accept true (some connection) l = record l {
    tasks = put_task l.connections (accepted connection) l.tasks;
    connections = l.connections + 1;
  }
  accept true none l = record l { listening = false }
  accept false c l = l

  abbrev pub stopped : ℕ → Phase → Listener → Listener
  stopped i p l = record l { tasks = put_task i p l.tasks }

  -- `apply` up to the `match` of what is known under the name, once the address is read.
  unfoldable pub looked_up :
      ℕ → Text → Register → Connection → Option addrs.Addr → Listener → Listener
  looked_up i peer_name c connection none l = stopped i panicked l
  looked_up i peer_name c connection (some socket_addr) l =
      stopped i (registering peer_name c socket_addr (TtlMap.get c.peer_name l.peers) connection) l

  abbrev pub look_up : ℕ → Text → Register → Connection → Listener → Listener
  look_up i peer_name c connection l =
      looked_up i peer_name c connection (addrs.parse (c.ip_address ++ b':' ∷ c.port)) l

  -- The first frame has to be a register command.
  unfoldable pub register_first : ℕ → Connection → Result Register → Listener → Listener
  unfolding looked_up
  register_first i connection (err e) l = stopped i panicked l
  register_first i connection (ok c) l = look_up i c.peer_name c connection l

  unfoldable pub read_first : ℕ → Connection → Result (Option Frame) → Listener → Listener
  unfolding register_first
  read_first i connection (ok (some f)) l = register_first i connection (process_frame f) l
  read_first i connection (ok none) l = stopped i panicked l
  read_first i connection (err e) l = stopped i panicked l

  -- At the end of the stream, or after a failed read, the name is removed.
  unfoldable pub leave : ℕ → Text → Listener → Listener
  leave i peer_name l = record l {
    peers = (TtlMap.remove peer_name l.peers).1;
    tasks = put_task i left l.tasks;
  }

  -- The `match` of the loop.
  unfoldable pub handle_next : ℕ → Text → Connection → Result Command → Listener → Listener
  unfolding looked_up
  handle_next i peer_name connection (ok (register c)) l = look_up i peer_name c connection l
  handle_next i peer_name connection (ok c) l = stopped i (serving peer_name connection) l
  handle_next i peer_name connection (err e) l = stopped i panicked l

  unfoldable pub read_later : ℕ → Text → Connection → Result (Option Frame) → Listener → Listener
  unfolding leave handle_next
  read_later i peer_name connection (ok (some f)) l =
      handle_next i peer_name connection (from_frame f) l
  read_later i peer_name connection (ok none) l = leave i peer_name l
  read_later i peer_name connection (err e) l = leave i peer_name l

  -- A task reads the next frame of its connection.
  unfoldable pub read : ℕ → Phase → Listener → Listener
  unfolding read_first read_later
  read i (accepted connection) l =
      let (r, rest) = take_frame connection.incoming in
      read_first i (record connection { incoming = rest }) r l
  read i (serving peer_name connection) l =
      let (r, rest) = take_frame connection.incoming in
      read_later i peer_name (record connection { incoming = rest }) r l
  read i p l = l

  abbrev pub view : Connection → Listener → Tracker addrs
  view connection l = record { peers = l.peers; connection = connection }

  -- After a frame that was handled the loop goes on; an error is unwrapped in the task.
  abbrev pub goes_on : Text → Outcome addrs → Phase
  goes_on peer_name (ok _, t) = serving peer_name t.connection
  goes_on peer_name (err e, t) = panicked

  abbrev pub handled : ℕ → Text → Outcome addrs → Listener → Listener
  handled i peer_name o l = record l {
    peers = o.1.peers;
    tasks = put_task i (goes_on peer_name o) l.tasks;
  }

  -- `apply` from the `match` on, by what was found: the name is set where none was, whatever is known
  -- by now.
  unfoldable pub apply_found : Round addrs → ℕ → Phase → Listener → Listener
  apply_found env i (registering peer_name c socket_addr found connection) l =
      handled i peer_name
        (apply_known addrs env.choose env.write_ok env.now c.peer_name socket_addr found
          (view connection l))
        l
  apply_found env i p l = l

  unfoldable pub act : Action → Listener → Listener
  unfolding accept read apply_found
  act (accepts c) l = accept l.listening c l
  act (reads i) l = read i (l.tasks i) l
  act (applies i env) l = apply_found env i (l.tasks i) l

  unfoldable pub act_all : List Action → Listener → Listener
  unfolding act
  act_all [] l = l
  act_all (a ∷ rest) l = act_all rest (act a l)

  -- `Tracker::new` and then `listen`, where `bind_ok` tells whether the address can be bound.
  unfoldable pub listen : Bool → Result Listener
  listen false = err io
  listen true =
      ok (record { listening = true; peers = TtlMap.new; tasks = λ _. idle; connections = 0 })
