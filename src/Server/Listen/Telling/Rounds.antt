-- ===== src/Server/Listen/Telling/Rounds.antt =====
-- The rounds of the tasks of `listen`, core/src/server.rs, and the commands that they take.
use mathlib.Core.List.{append-nil}
use peer_to_peer_chat_system.Prelude.{
  ℕ, ◌≡◌, refl, sym, ap, ◌∙◌, Bool, true, false, none, some, Option, List, [], ◌∷◌, ◌++◌, All,
  arith, Bool-cases, inl, inr,
}
use peer_to_peer_chat_system.Prelude.Text.{Text, text_eq_iff}
use peer_to_peer_chat_system.Frame.{Frame}
use peer_to_peer_chat_system.Result.{Result, ok, err}
use peer_to_peer_chat_system.Connection
use peer_to_peer_chat_system.Connection.{Connection, take_frame}
use peer_to_peer_chat_system.Cmd.{Command, from_frame, check_duplicate}
use peer_to_peer_chat_system.Util.Counters
use peer_to_peer_chat_system.Node.{Node, Env, continue, purge_commands, purge_adjacent}
use peer_to_peer_chat_system.Server.{
  mark_processed, handle_unless, handle_command, handle_frame, read_frame,
}
use peer_to_peer_chat_system.Server.Local.{dispatch_tells}
use peer_to_peer_chat_system.Server.Once.{
  Lasts, here, handled, switched, purged_commands, purged_adjacent, check_duplicate-handle_command,
}
use peer_to_peer_chat_system.Server.Listen.{
  Phase, idle, finished, spawned, serving, ending, Listener, Action, accepts, begins, works,
  finishes, purges_commands, purges_adjacent, round, round_of, accept, begin, work, finish, act,
  act_all,
}
use peer_to_peer_chat_system.Server.Listen.Telling.{
  Taken, IsNew, IsKnown, OnceEach, messages, Takes, Takes-refl, Takes-append,
}
use peer_to_peer_chat_system.Server.Listen.Telling.Reads.{
  taken_unless, taken_command, taken_read, taken_phase, taken_all, TellsOpen, Unexpired,
}

module _ (my_name : Text) (Open : Type 0) where
  -- Only the connection of the node is another.
  switched-Takes :
      (n m : Node) (k : Connection) (t : Taken)
      → Takes my_name Open n m t
      → Takes my_name Open n (record m { connection = k }) t
  switched-Takes n m k t h = record {
    handles = switched k h.handles;
    new = h.new;
    known = h.known;
    once = h.once;
    tells = h.tells;
  }

  module _ (env : Env) (open_if : Open → env.client_open ≡ true) where
    handle_command_tells :
        (c : Command) (n : Node)
        → Open
        → (handle_command env my_name c n).1.events
          ≡ n.events
            ++ messages my_name
                (taken_unless (check_duplicate c n.processed_commands) n.sequence_numbers c)
    unfolding handle_command handle_unless mark_processed Counters.next
    handle_command_tells c n h = elim (Bool-cases (check_duplicate c n.processed_commands)) [
      | inl old ↦ rw old (sym (append-nil n.events))
      | inr new ↦ rw new (
          dispatch_tells env my_name c (mark_processed env c n).1 (open_if h)
          ∙ ap (λ l. n.events ++ l) (sym (append-nil _)))
    ]

    taken_unless-All :
        (P : ℕ × Command → Type 0) (b : Bool) (number : ℕ) (c : Command)
        → (b ≡ false → P (number, c))
        → All P (taken_unless b number c)
    taken_unless-All P true number c h = tt
    taken_unless-All P false number c h = (h refl, tt)

    taken_unless-OnceEach :
        (b : Bool) (number : ℕ) (c : Command) → OnceEach (taken_unless b number c)
    taken_unless-OnceEach true number c = tt
    taken_unless-OnceEach false number c = (tt, tt)

    handle_command-Takes :
        (c : Command) (n : Node)
        → Takes my_name Open n
            (handle_command env my_name c n).1
            (taken_unless (check_duplicate c n.processed_commands) n.sequence_numbers c)
    handle_command-Takes c n =
        let number = n.sequence_numbers in
        let old = check_duplicate c n.processed_commands in
        record {
          handles = handled env c (here n);
          new = taken_unless-All (IsNew n) old number c (λ q o p. q);
          known =
              taken_unless-All (IsKnown (handle_command env my_name c n).1) old number c
                (λ q d o p r.
                  check_duplicate-handle_command env my_name c d o o n p r
                  ∙ ground (arith, text_eq_iff o.0 o.0));
          once = taken_unless-OnceEach old number c;
          tells = handle_command_tells c n;
        }

    parsed-Takes :
        (r : Result Command) (n : Node)
        → Takes my_name Open n (continue r (handle_command env my_name) n).1 (taken_command n r)
    parsed-Takes (ok c) n = handle_command-Takes c n
    parsed-Takes (err e) n = Takes-refl my_name Open n

    round_of-Takes :
        (r : Result (Option Frame)) (n : Node)
        → Takes my_name Open n (round_of env my_name r n).1 (taken_read n r)
    unfolding handle_frame
    round_of-Takes (ok (some f)) n = parsed-Takes (from_frame f) n
    round_of-Takes (ok none) n = Takes-refl my_name Open n
    round_of-Takes (err e) n = Takes-refl my_name Open n

  -- It does not matter which connection the node had.
  connected-Takes :
      (n m : Node) (k : Connection) (t : Taken)
      → Takes my_name Open (record n { connection = k }) m t
      → Takes my_name Open n m t
  connected-Takes n m k t h =
      Takes-append my_name Open n (record n { connection = k }) m [] t
        (switched-Takes n n k [] (Takes-refl my_name Open n)) h

  work-Takes :
      (env : Env) (i : ℕ) (p : Phase) (l : Listener)
      → (Open → env.client_open ≡ true)
      → Takes my_name Open l.shared (work my_name env i p l).shared (taken_phase l.shared p)
  unfolding work round read_frame Connection.read_frame
  work-Takes env i (serving c) l open_if =
      let read = take_frame c.incoming in
      connected-Takes l.shared _ (record c { incoming = read.1 }) (taken_read l.shared read.0)
        (round_of-Takes env open_if read.0
          (record l.shared { connection = record c { incoming = read.1 } }))
  work-Takes env i idle l open_if = Takes-refl my_name Open l.shared
  work-Takes env i finished l open_if = Takes-refl my_name Open l.shared
  work-Takes env i (spawned c) l open_if = Takes-refl my_name Open l.shared
  work-Takes env i (ending r) l open_if = Takes-refl my_name Open l.shared

  shared-accept :
      (b : Bool) (c : Option Connection) (l : Listener) → (accept b c l).shared ≡ l.shared
  unfolding accept
  shared-accept true (some c) l = refl
  shared-accept true none l = refl
  shared-accept false c l = refl

  shared-begin : (i : ℕ) (p : Phase) (l : Listener) → (begin i p l).shared ≡ l.shared
  unfolding begin
  shared-begin i (spawned c) l = refl
  shared-begin i idle l = refl
  shared-begin i finished l = refl
  shared-begin i (serving c) l = refl
  shared-begin i (ending r) l = refl

  shared-finish : (i : ℕ) (p : Phase) (l : Listener) → (finish i p l).shared ≡ l.shared
  unfolding finish
  shared-finish i (ending r) l = refl
  shared-finish i idle l = refl
  shared-finish i finished l = refl
  shared-finish i (spawned c) l = refl
  shared-finish i (serving c) l = refl

  equal-Takes :
      (n m k : Node) (t : Taken) → m ≡ n → Takes my_name Open m k t → Takes my_name Open n k t
  equal-Takes n m k t e h = rw (← e) h

  purge_commands-Takes :
      (now : ℕ) (n : Node) → Lasts now n → Takes my_name Open n (purge_commands now n) []
  purge_commands-Takes now n h = record {
    handles = purged_commands now h (here n);
    new = tt;
    known = tt;
    once = tt;
    tells = λ o. sym (append-nil n.events);
  }

  purge_adjacent-Takes : (now : ℕ) (n : Node) → Takes my_name Open n (purge_adjacent now n) []
  purge_adjacent-Takes now n = record {
    handles = purged_adjacent now (here n);
    new = tt;
    known = tt;
    once = tt;
    tells = λ o. sym (append-nil n.events);
  }

  act_all-Takes :
      (actions : List Action) (l : Listener)
      → (Open → TellsOpen actions)
      → Unexpired my_name actions l
      → Takes my_name Open l.shared (act_all my_name actions l).shared (taken_all my_name actions l)
  unfolding act_all act
  act_all-Takes [] l open_if u = Takes-refl my_name Open l.shared
  act_all-Takes (accepts c ∷ rest) l open_if u =
      equal-Takes l.shared _ _ _ (shared-accept l.listening c l)
        (act_all-Takes rest (accept l.listening c l) open_if u)
  act_all-Takes (begins i ∷ rest) l open_if u =
      equal-Takes l.shared _ _ _ (shared-begin i (l.tasks i) l)
        (act_all-Takes rest (begin i (l.tasks i) l) open_if u)
  act_all-Takes (finishes i ∷ rest) l open_if u =
      equal-Takes l.shared _ _ _ (shared-finish i (l.tasks i) l)
        (act_all-Takes rest (finish i (l.tasks i) l) open_if u)
  act_all-Takes (works i env ∷ rest) l open_if u =
      let l' = work my_name env i (l.tasks i) l in
      Takes-append my_name Open l.shared l'.shared (act_all my_name rest l').shared
        (taken_phase l.shared (l.tasks i)) (taken_all my_name rest l')
        (work-Takes env i (l.tasks i) l (λ h. (open_if h).0))
        (act_all-Takes rest l' (λ h. (open_if h).1) u)
  act_all-Takes (purges_commands now ∷ rest) l open_if (lasts, u) =
      let l' = record l { shared = purge_commands now l.shared } in
      Takes-append my_name Open l.shared l'.shared (act_all my_name rest l').shared [] _
        (purge_commands-Takes now l.shared lasts) (act_all-Takes rest l' open_if u)
  act_all-Takes (purges_adjacent now ∷ rest) l open_if u =
      let l' = record l { shared = purge_adjacent now l.shared } in
      Takes-append my_name Open l.shared l'.shared (act_all my_name rest l').shared [] _
        (purge_adjacent-Takes now l.shared) (act_all-Takes rest l' open_if u)

-- In whatever order the listener, its tasks and the purges of its tables act, each round of a
-- connection as a whole, with the channel to the client open and while no processed command expires,
-- no two of the commands that the connections bring and that are taken have the same source and
-- sequence number, none was a duplicate before, each is one afterwards, and the client is told
-- exactly what they say for it, in the order in which they were taken.
pub act_all_tells :
    (my_name : Text) (actions : List Action) (l : Listener)
    → TellsOpen actions
    → Unexpired my_name actions l
    → let t = taken_all my_name actions l in
      let m = (act_all my_name actions l).shared in
      OnceEach t
      × All (IsNew l.shared) t
      × All (IsKnown m) t
      × (m.events ≡ l.shared.events ++ messages my_name t)
act_all_tells my_name actions l h u =
    let a = act_all-Takes my_name (TellsOpen actions) actions l (λ o. o) u in
    (a.once, a.new, a.known, a.tells h)
