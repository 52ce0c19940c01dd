-- ===== src/Net/Bounded/Handles.antt =====
-- What one server of core/src/server.rs adds to the frames of a command that wait.
use peer_to_peer_chat_system.Prelude.{
  ℕ, ◌≡◌, ◌≤◌, refl, sym, ap, ◌∙◌, ◌+◌, Bool, true, false, some, [], arith, if◌then◌else◌,
  Bool-cases, Option-cases, inl, inr, length,
}
use peer_to_peer_chat_system.Prelude.Text.{Text, text_eq_iff}
use peer_to_peer_chat_system.Prelude.HashMap.{HashMap}
use peer_to_peer_chat_system.Frame.{Frame, frame, text}
use peer_to_peer_chat_system.Result.{Result, ok, err}
use peer_to_peer_chat_system.Parser
use peer_to_peer_chat_system.PeerMap.{PeerMap}
use peer_to_peer_chat_system.PeerMap.Distinct.{Distinct}
use peer_to_peer_chat_system.Cmd.{
  Command, say, pong, origin, to_frame, from_frame, check_duplicate, check_duplicate_of,
}
use peer_to_peer_chat_system.Cmd.Pong
use peer_to_peer_chat_system.Cmd.Pong.{Pong}
use peer_to_peer_chat_system.Cmd.RoundTrip.{from_frame-to_frame}
use peer_to_peer_chat_system.Node.{Node, Env, continue}
use peer_to_peer_chat_system.Node.Keeps.{Unchanged-refl}
use peer_to_peer_chat_system.Server.{mark_processed, handle_command, handle_frame}
use peer_to_peer_chat_system.Server.Once.{
  dispatch-Unchanged, check_duplicate-handle_command, handle_command_old, Handled-check_duplicate,
  here, handled,
}
use peer_to_peer_chat_system.Server.Relay.{peers-handle_command}
use peer_to_peer_chat_system.Server.Emits.{Emits, nothing, passes_on, answers, texts, dispatch-Puts}
use peer_to_peer_chat_system.Net.Handle.{same_origin}
use peer_to_peer_chat_system.Net.Bounded.Weights.{
  is_pong, is_from, one_if, weight, waiting, each, each_one, each_none, waiting-broadcast,
}

-- Whether the server has a command with this source and sequence number in its table.
abbrev pub has : Text × ℕ → Node → Bool
has o n = check_duplicate_of (some o) n.processed_commands

-- The frames of the command that wait on a server, and those that it may still add.
abbrev pub load : Text × ℕ → Node → ℕ
load o n =
    waiting o n.peers.entries n.peers.channels + (if has o n then 0 else length n.peers.entries)

module _ (o : Text × ℕ) where
  pub weight-passed :
      (x : Command) (f : Frame) → to_frame x ≡ some f → weight o (frame f) ≡ one_if (is_from o x)
  weight-passed x f h = rw (from_frame-to_frame x f h) refl

  weight-pong : (c : Pong) → weight o (frame (Pong.into_frame c)) ≡ 0
  weight-pong c =
      rw (from_frame-to_frame (pong c) (Pong.into_frame c) (unfold to_frame in refl)) refl

  weight-text : (message : Text) → weight o (frame (text message)) ≡ 0
  unfolding from_frame Parser.new
  weight-text message = refl

  pub each-zero : (m : HashMap ℕ) (w : ℕ) → w ≡ 0 → each m w ≡ 0
  each-zero m w h = rw h (each_none m)

  added :
      (x : Command) (m : HashMap ℕ)
      → each m (one_if (is_from o x)) ≡ (if is_from o x then length m else 0)
  added x m = elim (Bool-cases (is_from o x)) [
    | inl b ↦ rw b (each_one m)
    | inr b ↦ rw b (each_none m)
  ]

  -- A dispatch adds at most one frame for each peer, if the command is the one that is counted.
  Emits-waiting :
      (x : Command) (p q : PeerMap)
      → Distinct p.entries
      → Emits x p q
      → waiting o p.entries q.channels
        ≤ waiting o p.entries p.channels + (if is_from o x then length p.entries else 0)
  Emits-waiting x p q v (nothing e) = rw e (omega arith)
  Emits-waiting x p q v (passes_on s f h e) = rw e (
      omega (
        arith,
        waiting-broadcast o s f p v,
        ap (each p.entries) (weight-passed x f h) ∙ added x p.entries,
      ))
  Emits-waiting x p q v (answers s c e) = rw e (
      omega (
        arith,
        waiting-broadcast o s (Pong.into_frame c) p v,
        each-zero p.entries _ (weight-pong c),
      ))
  Emits-waiting x p q v (texts s message e) = rw e (
      omega (
        arith,
        waiting-broadcast o s (text message) p v,
        each-zero p.entries _ (weight-text message),
      ))

  is_from-origin : (x : Command) → is_from o x ≡ true → origin x ≡ some o
  is_from-origin x h = elim (Option-cases (origin x)) [
    | inl e ↦ absurd (nothing_from (is_pong x) (rw e at h))
    | inr (q, e) ↦ e ∙ ap some (same_origin q o (matched (is_pong x) _ (rw e at h)))
  ]
    where
      nothing_from : (b : Bool) → (if b then false else false) ≡ true → ⊥
      nothing_from true p = cc
      nothing_from false p = cc

      matched : (b m : Bool) → (if b then false else m) ≡ true → m ≡ true
      matched true m p = cc
      matched false m p = p

  -- A command with the source and sequence number that are looked for.
  abbrev probe : Command
  probe = say (record { source = o.0; sequence_number = o.1; message = [] })

  probe-has : (n : Node) → check_duplicate probe n.processed_commands ≡ has o n
  unfolding check_duplicate origin
  probe-has n = refl

  taken_once :
      (b k k' : Bool) (w w' l : ℕ)
      → w' ≤ w + (if b then l else 0)
      → (b ≡ true → k ≡ false)
      → (b ≡ true → k' ≡ true)
      → (k ≡ true → k' ≡ true)
      → w' + (if k' then 0 else l) ≤ w + (if k then 0 else l)
  taken_once b k k' w w' l h new known kept = ground arith

  module _ (env : Env) (my_name : Text) where
    has_kept :
        (x : Command) (n : Node) → has o n ≡ true → has o (handle_command env my_name x n).1 ≡ true
    unfolding origin
    has_kept x n h =
        sym (probe-has (handle_command env my_name x n).1)
        ∙ Handled-check_duplicate my_name probe o refl (probe-has n ∙ h) (handled env x (here n))

    has_taken :
        (x : Command) (n : Node)
        → is_from o x ≡ true
        → has o (handle_command env my_name x n).1 ≡ true
    unfolding origin
    has_taken x n h =
        sym (probe-has (handle_command env my_name x n).1)
        ∙ check_duplicate-handle_command env my_name x probe o o n (is_from-origin x h) refl
        ∙ ground (arith, text_eq_iff o.0 o.0)

    has_new :
        (x : Command) (n : Node)
        → check_duplicate x n.processed_commands ≡ false
        → is_from o x ≡ true
        → has o n ≡ false
    unfolding check_duplicate
    has_new x n new h = rw (is_from-origin x h) at new

    handle_command-entries :
        (x : Command) (n : Node)
        → (handle_command env my_name x n).1.peers.entries ≡ n.peers.entries
    handle_command-entries x n = elim (Bool-cases (check_duplicate x n.processed_commands)) [
      | inl old ↦ rw (handle_command_old env my_name x n old) refl
      | inr new ↦
          let marked = (mark_processed env x n).1 in
          ap (λ (m : Node). m.peers.entries) (peers-handle_command env my_name x n new)
          ∙ ((dispatch-Unchanged marked env my_name x).after marked (Unchanged-refl marked)).entries
          ∙ unfold mark_processed in refl
    ]

    handle_command-Emits :
        (x : Command) (n : Node)
        → check_duplicate x n.processed_commands ≡ false
        → Emits x n.peers (handle_command env my_name x n).1.peers
    unfolding mark_processed
    handle_command-Emits x n new =
        rw (peers-handle_command env my_name x n new)
          ((dispatch-Puts env my_name x).puts (mark_processed env x n).1)

    handle_new-load :
        (x : Command) (n : Node)
        → Distinct n.peers.entries
        → check_duplicate x n.processed_commands ≡ false
        → load o (handle_command env my_name x n).1 ≤ load o n
    handle_new-load x n v new =
        let n' = (handle_command env my_name x n).1 in
        rw (handle_command-entries x n) (
          taken_once (is_from o x) (has o n) (has o n') _ _ _
            (Emits-waiting x n.peers n'.peers v (handle_command-Emits x n new)) (has_new x n new)
            (has_taken x n) (has_kept x n))

    handle_command-load :
        (x : Command) (n : Node)
        → Distinct n.peers.entries
        → load o (handle_command env my_name x n).1 ≤ load o n
    handle_command-load x n v = elim (Bool-cases (check_duplicate x n.processed_commands)) [
      | inl old ↦ rw (handle_command_old env my_name x n old) (omega arith)
      | inr new ↦ handle_new-load x n v new
    ]

    continue-load :
        (r : Result Command) (n : Node)
        → Distinct n.peers.entries
        → (load o (continue r (handle_command env my_name) n).1 ≤ load o n)
          × ((continue r (handle_command env my_name) n).1.peers.entries ≡ n.peers.entries)
    continue-load (ok x) n v = (handle_command-load x n v, handle_command-entries x n)
    continue-load (err e) n v = (omega arith, refl)

    -- Handling a frame adds no more than the server could still add, and keeps its peers.
    pub handle_frame-load :
        (f : Frame) (n : Node)
        → Distinct n.peers.entries
        → (load o (handle_frame env my_name f n).1 ≤ load o n)
          × ((handle_frame env my_name f n).1.peers.entries ≡ n.peers.entries)
    unfolding handle_frame
    handle_frame-load f n v = continue-load (from_frame f) n v
