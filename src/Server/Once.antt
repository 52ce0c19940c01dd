-- ===== src/Server/Once.antt =====
-- Each command is handled once: the table of processed commands in core/src/server.rs.
use peer_to_peer_chat_system.Prelude.{
  ℕ, ◌≡◌, refl, sym, ◌∙◌, ◌==◌, Bool, true, false, some, ◌||◌, ◌&&◌, arith, Bool-cases,
  Option-cases, inl, inr,
}
use peer_to_peer_chat_system.Prelude.Text.{Text, text_eq, text_eq_iff}
use peer_to_peer_chat_system.Result.{ok}
use peer_to_peer_chat_system.Connection.{Connection}
use peer_to_peer_chat_system.Util.TtlMap
use peer_to_peer_chat_system.Cmd.{
  Command, origin, processed_key, check_duplicate, check_duplicate_of, set_processed,
}
use peer_to_peer_chat_system.Cmd.Duplicates.{
  check_duplicate-set_processed, check_duplicate_same, set_processed-none,
}
use peer_to_peer_chat_system.Node.{Node, Env, purge_commands, purge_adjacent}
use peer_to_peer_chat_system.Node.Keeps.{
  Keeps, Unchanged, Unchanged-refl, broadcast-Unchanged, write_frame-Unchanged,
  append_to_file-Unchanged, set_adjacent-Unchanged, connect_to_peer-Unchanged,
  send_client-Unchanged, next_sequence_number-Unchanged,
}
use peer_to_peer_chat_system.Server.Stable.{dispatch-Serves}
use peer_to_peer_chat_system.Server.{dispatch, mark_processed, handle_unless, handle_command}

-- No dispatch touches the table, the names of the peer map or the frames still to be read.
pub dispatch-Unchanged :
    (m : Node) (env : Env) (my_name : Text) (c : Command)
    → Keeps (Unchanged m) (dispatch env my_name c)
dispatch-Unchanged m env my_name c = dispatch-Serves (Unchanged m) env my_name c (record {
  applies = record {
    broadcasts = broadcast-Unchanged m _;
    writes = write_frame-Unchanged m env;
    appends = append_to_file-Unchanged m env;
    adjacent = set_adjacent-Unchanged m env _;
    connects = connect_to_peer-Unchanged m _;
  };
  sends = send_client-Unchanged m env;
  numbers = next_sequence_number-Unchanged m;
  answers = λ _. broadcast-Unchanged m my_name;
})

pub handle_command_old :
    (env : Env) (my_name : Text) (c : Command) (n : Node)
    → check_duplicate c n.processed_commands ≡ true
    → handle_command env my_name c n ≡ (ok tt, n)
unfolding handle_command
handle_command_old env my_name c n old = rw (old, handle_unless)

pub handle_command_new :
    (env : Env) (my_name : Text) (c : Command) (n : Node)
    → check_duplicate c n.processed_commands ≡ false
    → (handle_command env my_name c n).1.processed_commands
      ≡ set_processed env.now c n.processed_commands
unfolding handle_command mark_processed
handle_command_new env my_name c n new =
    let marked = (mark_processed env c n).1 in
    rw (new, handle_unless)
      ((dispatch-Unchanged marked env my_name c).after marked (Unchanged-refl marked)).processed

absorbed : (s x : Bool) → (s ≡ true → x ≡ true) → x ≡ (s || x)
absorbed true x h = h refl
absorbed false x h = refl

or-true : (s : Bool) → (s || true) ≡ true
or-true true = refl
or-true false = refl

-- After a command is handled, exactly the commands with its source and sequence number are
-- duplicates, beside those that were before.
pub check_duplicate-handle_command :
    (env : Env) (my_name : Text) (c d : Command) (o p : Text × ℕ) (n : Node)
    → origin c ≡ some o
    → origin d ≡ some p
    → check_duplicate d (handle_command env my_name c n).1.processed_commands
      ≡ (text_eq o.0 p.0 && o.1 == p.1 || check_duplicate d n.processed_commands)
check_duplicate-handle_command env my_name c d o p n ho hp =
    elim (Bool-cases (check_duplicate c n.processed_commands)) [
      | inl old ↦
          let same = check_duplicate_same c d o p n.processed_commands ho hp in
          rw (handle_command_old env my_name c n old) (absorbed _ _ (λ e. sym (same e) ∙ old))
      | inr new ↦
          rw (handle_command_new env my_name c n new)
            (check_duplicate-set_processed env.now c d o p n.processed_commands ho hp)
    ]

-- A purge takes no command from the table.
abbrev pub Lasts : ℕ → Node → Type 0
Lasts now n =
    (k : Text)
    → TtlMap.get k (purge_commands now n).processed_commands ≡ TtlMap.get k n.processed_commands

-- What happens to a node while commands are handled, each as a whole, on this connection or others,
-- and the tables are purged, but no processed command expires.
pub data Handled (my_name : Text) : Node → Node → Type 0 where
  here : (n : Node) → Handled my_name n n
  handled :
      {n m : Node} (env : Env) (c : Command)
      → Handled my_name n m
      → Handled my_name n (handle_command env my_name c m).1
  switched :
      {n m : Node} (k : Connection)
      → Handled my_name n m
      → Handled my_name n (record m { connection = k })
  purged_commands :
      {n m : Node} (now : ℕ)
      → Lasts now m
      → Handled my_name n m
      → Handled my_name n (purge_commands now m)
  purged_adjacent :
      {n m : Node} (now : ℕ) → Handled my_name n m → Handled my_name n (purge_adjacent now m)

check_duplicate-purge_commands :
    (now : ℕ) (d : Command) (n : Node)
    → Lasts now n
    → check_duplicate d (purge_commands now n).processed_commands
      ≡ check_duplicate d n.processed_commands
unfolding check_duplicate check_duplicate_of
check_duplicate-purge_commands now d n h = elim (Option-cases (origin d)) [
  | inl none_d ↦ rw none_d refl
  | inr (o, some_d) ↦ rw some_d (rw (h (processed_key o.0 o.1)) refl)
]

pub Handled-check_duplicate :
    (my_name : Text) (d : Command) (p : Text × ℕ) {n m : Node}
    → origin d ≡ some p
    → check_duplicate d n.processed_commands ≡ true
    → Handled my_name n m
    → check_duplicate d m.processed_commands ≡ true
Handled-check_duplicate my_name d p hp h (here n) = h
Handled-check_duplicate my_name d p hp h (switched k r) = Handled-check_duplicate my_name d p hp h r
Handled-check_duplicate my_name d p hp h (purged_commands {m = m} now lasts r) =
    check_duplicate-purge_commands now d m lasts ∙ Handled-check_duplicate my_name d p hp h r
Handled-check_duplicate my_name d p hp h (purged_adjacent now r) =
    Handled-check_duplicate my_name d p hp h r
Handled-check_duplicate my_name d p hp h (handled {m = m} env c r) =
    let old = Handled-check_duplicate my_name d p hp h r in
    elim (Option-cases (origin c)) [
      | inl none_c ↦ elim (Bool-cases (check_duplicate c m.processed_commands)) [
        | inl dup ↦ rw (handle_command_old env my_name c m dup) old
        | inr new ↦
            rw (handle_command_new env my_name c m new)
              (rw (set_processed-none env.now c m.processed_commands none_c) old)
      ]
      | inr (q, hq) ↦
          check_duplicate-handle_command env my_name c d q p m hq hp ∙ rw old (or-true _)
    ]

-- A command is handled once, while it stays in the table: after a command with a source and a
-- sequence number was handled, whatever commands were handled since on this connection or others,
-- each as a whole, and however often the tables were purged, no entry of the table of processed
-- commands having expired, a command with the same source and number changes nothing and is no error.
pub handle_command_once :
    (env env' : Env) (my_name : Text) (c d : Command) (o : Text × ℕ) (n m : Node)
    → origin c ≡ some o
    → origin d ≡ some o
    → Handled my_name (handle_command env my_name c n).1 m
    → handle_command env' my_name d m ≡ (ok tt, m)
handle_command_once env env' my_name c d o n m hc hd r =
    let marked : check_duplicate d (handle_command env my_name c n).1.processed_commands ≡ true =
      check_duplicate-handle_command env my_name c d o o n hc hd
      ∙ ground (arith, text_eq_iff o.0 o.0) in
    handle_command_old env' my_name d m (Handled-check_duplicate my_name d o hd marked r)
