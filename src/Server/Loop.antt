-- ===== src/Server/Loop.antt =====
-- The loop of `handle_connection` in core/src/server.rs ends.
use peer_to_peer_chat_system.Prelude.{
  ℕ, zero, suc, ◌≡◌, refl, ap, ◌∙◌, ◌<◌, some, List, [], ◌∷◌, arith, length, Bool, true, false,
}
use peer_to_peer_chat_system.Prelude.Text.{Text}
use peer_to_peer_chat_system.Frame.{Frame}
use peer_to_peer_chat_system.Result.{Result, ok, err, io}
use peer_to_peer_chat_system.Connection.{Read, frame, failed, take_frame}
use peer_to_peer_chat_system.Cmd.{Command, from_frame, check_duplicate}
use peer_to_peer_chat_system.Node.{Node, Env, continue}
use peer_to_peer_chat_system.Node.Keeps.{Unchanged-refl}
use peer_to_peer_chat_system.Server.{
  mark_processed, handle_unless, handle_command, handle_frame, read_frame, handle_connection,
  after_read, after_frame, after_take,
}
use peer_to_peer_chat_system.Server.Once.{dispatch-Unchanged}

incoming-handle_unless :
    (b : Bool) (env : Env) (my_name : Text) (c : Command) (n : Node)
    → (handle_unless b env my_name c n).1.connection.incoming ≡ n.connection.incoming
unfolding handle_unless mark_processed
incoming-handle_unless true env my_name c n = refl
incoming-handle_unless false env my_name c n =
    let marked = (mark_processed env c n).1 in
    ((dispatch-Unchanged marked env my_name c).after marked (Unchanged-refl marked)).incoming

-- Handling a frame reads no other frame.
incoming-handle_frame :
    (env : Env) (my_name : Text) (f : Frame) (n : Node)
    → (handle_frame env my_name f n).1.connection.incoming ≡ n.connection.incoming
unfolding handle_frame handle_command
incoming-handle_frame env my_name f n = parsed (from_frame f) refl
  where
    parsed :
        (r : Result Command)
        → from_frame f ≡ r
        → (continue r (handle_command env my_name) n).1.connection.incoming ≡ n.connection.incoming
    parsed (ok c) e =
        incoming-handle_unless (check_duplicate c n.processed_commands) env my_name c n
    parsed (err x) e = refl

module _ (env : ℕ → Env) (my_name : Text) where
  abbrev Ends : ℕ → Node → Type 0
  Ends fuel n =
      (r : Result (Unit {0})) × (m : Node) × (handle_connection fuel env my_name n ≡ some (r, m))
      × (r ≡ ok tt → m.connection.incoming ≡ [])

  step :
      (fuel : ℕ) (l : List Read) (n : Node)
      → n.connection.incoming ≡ l
      → handle_connection (suc fuel) env my_name n
        ≡ after_read
            (handle_connection fuel env my_name)
            (env fuel)
            my_name
            (take_frame l).0
            (after_take n (take_frame l)).1
  unfolding handle_connection read_frame
  step fuel l n q =
      ap
        (λ x.
          after_read (handle_connection fuel env my_name) (env fuel) my_name (take_frame x).0
            (after_take n (take_frame x)).1)
        q

  handled-Ends :
      (fuel : ℕ) (n m : Node) (s : Result (Unit {0}))
      → Ends fuel m
      → handle_connection (suc fuel) env my_name n
        ≡ after_frame (handle_connection fuel env my_name) s m
      → Ends (suc fuel) n
  handled-Ends fuel n m (ok _) (r, k, e, d) q = (r, k, q ∙ e, d)
  handled-Ends fuel n m (err x) _ q = (err x, m, q, λ p. cc)

  ends :
      (fuel : ℕ) (l : List Read) (n : Node)
      → n.connection.incoming ≡ l
      → length l < fuel
      → Ends fuel n
  unfolding take_frame
  ends zero l n q h = absurd (omega arith)
  ends (suc fuel) [] n q h = (ok tt, (after_take n (take_frame [])).1, step fuel [] n q, λ p. refl)
  ends (suc fuel) (failed ∷ rest) n q h = (
    err io,
    (after_take n (take_frame (failed ∷ rest))).1,
    step fuel (failed ∷ rest) n q,
    λ p. cc,
  )
  ends (suc fuel) (frame f ∷ rest) n q h =
      let n1 = (after_take n (take_frame (frame f ∷ rest))).1 in
      let (s, m) = handle_frame (env fuel) my_name f n1 in
      let reads = incoming-handle_frame (env fuel) my_name f n1 in
      handled-Ends fuel n m s (ends fuel rest m reads (omega arith))
        (step fuel (frame f ∷ rest) n q)

  -- With more fuel than the stream has items the loop of a connection ends, and it ends without an
  -- error only when the whole stream was read.
  pub handle_connection_ends :
      (fuel : ℕ) (n : Node)
      → length n.connection.incoming < fuel
      → (r : Result (Unit {0})) × (m : Node) × (handle_connection fuel env my_name n ≡ some (r, m))
        × (r ≡ ok tt → m.connection.incoming ≡ [])
  handle_connection_ends fuel n h = ends fuel n.connection.incoming n refl h
