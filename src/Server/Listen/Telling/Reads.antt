-- ===== src/Server/Listen/Telling/Reads.antt =====
-- The commands that the tasks of `listen`, core/src/server.rs, take from what they read.
use peer_to_peer_chat_system.Prelude.{
  ℕ, ◌≡◌, Bool, true, false, none, some, Option, List, [], ◌∷◌, ◌++◌,
}
use peer_to_peer_chat_system.Prelude.Text.{Text}
use peer_to_peer_chat_system.Frame.{Frame}
use peer_to_peer_chat_system.Result.{Result, ok, err}
use peer_to_peer_chat_system.Connection.{take_frame}
use peer_to_peer_chat_system.Cmd.{Command, from_frame, check_duplicate}
use peer_to_peer_chat_system.Node.{Node}
use peer_to_peer_chat_system.Server.Once.{Lasts}
use peer_to_peer_chat_system.Server.Listen.{
  Phase, serving, Listener, Action, accepts, begins, works, finishes, purges_commands,
  purges_adjacent, act,
}
use peer_to_peer_chat_system.Server.Listen.Telling.{Taken}

-- A command is taken unless it is a duplicate.
abbrev pub taken_unless : Bool → ℕ → Command → Taken
taken_unless true number c = []
taken_unless false number c = (number, c) ∷ []

abbrev pub taken_command : Node → Result Command → Taken
taken_command n (ok c) = taken_unless (check_duplicate c n.processed_commands) n.sequence_numbers c
taken_command n (err e) = []

-- What the next frame of a connection brings.
abbrev pub taken_read : Node → Result (Option Frame) → Taken
taken_read n (ok (some f)) = taken_command n (from_frame f)
taken_read n (ok none) = []
taken_read n (err e) = []

abbrev pub taken_phase : Node → Phase → Taken
taken_phase n (serving connection) = taken_read n (take_frame connection.incoming).0
taken_phase n p = []

abbrev pub taken : Action → Listener → Taken
taken (accepts c) l = []
taken (begins i) l = []
taken (works i env) l = taken_phase l.shared (l.tasks i)
taken (finishes i) l = []
taken (purges_commands now) l = []
taken (purges_adjacent now) l = []

abbrev pub taken_all : Text → List Action → Listener → Taken
taken_all my_name [] l = []
taken_all my_name (a ∷ rest) l = taken a l ++ taken_all my_name rest (act my_name a l)

-- The channel to the client is open whenever a task works.
abbrev pub TellsOpen : List Action → Type 0
TellsOpen [] = Unit
TellsOpen (works i env ∷ rest) = (env.client_open ≡ true) × TellsOpen rest
TellsOpen (a ∷ rest) = TellsOpen rest

-- No processed command expires.
abbrev pub Unexpired : Text → List Action → Listener → Type 0
Unexpired my_name [] l = Unit
Unexpired my_name (purges_commands now ∷ rest) l =
    Lasts now l.shared × Unexpired my_name rest (act my_name (purges_commands now) l)
Unexpired my_name (a ∷ rest) l = Unexpired my_name rest (act my_name a l)
