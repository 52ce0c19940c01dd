-- ===== src/Tracker/Binary.antt =====
-- core/src/bin/tracker.rs: the program that runs a tracker. Reading the arguments and the file of the
-- environment is of other packages, and the logger works.
use peer_to_peer_chat_system.Prelude.{ℕ, ◌++◌, List, [], ◌∷◌, Bool, true, false, if◌then◌else◌}
use peer_to_peer_chat_system.Prelude.Text.{Text}
use peer_to_peer_chat_system.Prelude.Decimal.{to_decimal}
use peer_to_peer_chat_system.Result.{Result, ok, err, Error, io}
use peer_to_peer_chat_system.Tracker.{SocketAddr}
use peer_to_peer_chat_system.Tracker.Listen.{Listener, Action, act, listen}

-- `Cli` of the program. An address is the text that it is displayed as.
pub record Args : Type 0 where
  pub ip_address : Text
  pub port : ℕ

module _ (addrs : SocketAddr) where
  -- The program ends with a message, or the tracker has come to a state by what happened.
  pub data Ran : Type 0 where
    not_loaded : Ran
    failed : Error → Ran
    tracks : Listener addrs → Ran

  -- The program ends, and the tasks with it, when `listen` returns.
  unfoldable pub goes_through : List (Action addrs) → Listener addrs → Ran
  goes_through [] l = tracks l
  goes_through (a ∷ rest) l =
      let l' = act addrs a l in
      let later = goes_through rest l' in if l'.listening then later else failed io

  unfoldable pub ran : Result (Listener addrs) → List (Action addrs) → Ran
  unfolding goes_through
  ran (err e) actions = failed e
  ran (ok l) actions = goes_through actions l

  -- `run`, where `binds` tells whether the network lets an address be bound.
  unfoldable pub run : (Text → Bool) → Args → List (Action addrs) → Ran
  unfolding ran
  run binds args actions =
      ran (listen addrs (binds (args.ip_address ++ b':' ∷ to_decimal args.port))) actions

  -- `main`, where `dotenv_ok` tells whether a file `.env` was found and read.
  unfoldable pub main : Bool → (Text → Bool) → Args → List (Action addrs) → Ran
  unfolding run
  main true binds args actions = run binds args actions
  main false binds args actions = not_loaded
