-- ===== src/Tracker/Listen/Steady.antt =====
-- One name that the tracker of core/src/tracker.rs knows, while its tasks act.
pub mod Sets
use mathlib.Core.Path.{subst}
use peer_to_peer_chat_system.Prelude.{
  ℕ, ◌≡◌, refl, ◌∙◌, ◌==◌, Bool, true, false, Option, none, some, List, [], ◌∷◌, if◌then◌else◌,
  Bool-cases, inl, inr,
}
use peer_to_peer_chat_system.Prelude.Text.{Text, text_eq, text_eq_iff}
use peer_to_peer_chat_system.Frame.{Frame}
use peer_to_peer_chat_system.Result.{Result, ok, err}
use peer_to_peer_chat_system.Util.TtlMap
use peer_to_peer_chat_system.Util.TtlMap.Lookup.{get-set, remove-get}
use peer_to_peer_chat_system.Connection.{Connection, Read, frame, failed, take_frame}
use peer_to_peer_chat_system.Cmd.{
  Command, broadcast, ping, pong, register, say, deliver, announce, whisper, extension, unknown,
  from_frame,
}
use peer_to_peer_chat_system.Cmd.Register.{Register}
use peer_to_peer_chat_system.Tracker.{
  SocketAddr, Tracker, Known, process_frame, reply, answer, apply_known,
}
use peer_to_peer_chat_system.Tracker.Connections.{Round, Outcome}
use peer_to_peer_chat_system.Tracker.Listen.{
  Phase, idle, left, panicked, accepted, serving, registering, Listener, Action, accepts, reads,
  applies, put_task, stopped, goes_on, view, accept, looked_up, register_first, read_first, leave,
  handle_next, read_later, read, apply_found, act, act_all,
}
use peer_to_peer_chat_system.Tracker.Listen.Steady.Sets.{MaySet, Knows, apply_known-Knows}

-- No frame is left in front.
abbrev AtEnd : List Read → Type 0
AtEnd [] = Unit
AtEnd (failed ∷ rest) = Unit
AtEnd (frame f ∷ rest) = ⊥

module _ (addrs : SocketAddr) where
  -- The task registered the name first, and its connection is at its end.
  abbrev pub Leaves : Text → Phase addrs → Type 0
  Leaves name (serving peer_name connection) = (peer_name ≡ name) × AtEnd connection.incoming
  Leaves name p = ⊥

  -- No such task does its next step.
  abbrev pub Stays : Text → List (Action addrs) → Listener addrs → Type 0
  Stays name [] l = Unit
  Stays name (accepts c ∷ rest) l = Stays name rest (act addrs (accepts c) l)
  Stays name (reads i ∷ rest) l =
      (Leaves name (l.tasks i) → ⊥) × Stays name rest (act addrs (reads i) l)
  Stays name (applies i env ∷ rest) l = Stays name rest (act addrs (applies i env) l)

  module _ (name : Text) (a : addrs.Addr) where
    abbrev Steady : Listener addrs → Type 0
    Steady l = Knows addrs name a l.peers × ((j : ℕ) → MaySet addrs name (l.tasks j) → ⊥)

    unset_by :
        (i : ℕ) (p : Phase addrs) (tasks : ℕ → Phase addrs)
        → (MaySet addrs name p → ⊥)
        → ((j : ℕ) → MaySet addrs name (tasks j) → ⊥)
        → (j : ℕ) → MaySet addrs name (put_task addrs i p tasks j)
        → ⊥
    unset_by i p tasks h rest j = elim (Bool-cases (j == i)) [
      | inl t ↦ rw t h
      | inr t ↦ rw t (rest j)
    ]

    stopped-Steady :
        (i : ℕ) (p : Phase addrs) (l : Listener addrs)
        → (MaySet addrs name p → ⊥)
        → Steady l
        → Steady (stopped addrs i p l)
    stopped-Steady i p l h (k, rest) = (k, unset_by i p l.tasks h rest)

    -- A name that is known is found.
    found-MaySet :
        (peer_name : Text) (c : Register) (x : addrs.Addr) (k : Connection) (l : Listener addrs)
        → Knows addrs name a l.peers
        → (o : Option addrs.Addr) → TtlMap.get c.peer_name l.peers ≡ o
        → MaySet addrs name (registering peer_name c x o k)
        → ⊥
    found-MaySet peer_name c x k l h (some y) e q = q
    found-MaySet peer_name c x k l h none e q =
        let unknown = subst (λ n. TtlMap.get n l.peers ≡ none) q e in cc

    looked_up-Steady :
        (i : ℕ) (peer_name : Text) (c : Register) (k : Connection) (o : Option addrs.Addr)
        (l : Listener addrs)
        → Steady l
        → Steady (looked_up addrs i peer_name c k o l)
    unfolding looked_up
    looked_up-Steady i peer_name c k none l s = stopped-Steady i panicked l (λ q. q) s
    looked_up-Steady i peer_name c k (some x) l s =
        stopped-Steady i (registering peer_name c x (TtlMap.get c.peer_name l.peers) k) l
          (found-MaySet peer_name c x k l s.0 (TtlMap.get c.peer_name l.peers) refl) s

    register_first-Steady :
        (i : ℕ) (k : Connection) (r : Result Register) (l : Listener addrs)
        → Steady l
        → Steady (register_first addrs i k r l)
    unfolding register_first
    register_first-Steady i k (err e) l s = stopped-Steady i panicked l (λ q. q) s
    register_first-Steady i k (ok c) l s = looked_up-Steady i c.peer_name c k _ l s

    read_first-Steady :
        (i : ℕ) (k : Connection) (r : Result (Option Frame)) (l : Listener addrs)
        → Steady l
        → Steady (read_first addrs i k r l)
    unfolding read_first
    read_first-Steady i k (ok (some f)) l s = register_first-Steady i k (process_frame f) l s
    read_first-Steady i k (ok none) l s = stopped-Steady i panicked l (λ q. q) s
    read_first-Steady i k (err e) l s = stopped-Steady i panicked l (λ q. q) s

    handle_next-Steady :
        (i : ℕ) (peer_name : Text) (k : Connection) (r : Result Command) (l : Listener addrs)
        → Steady l
        → Steady (handle_next addrs i peer_name k r l)
    unfolding handle_next
    handle_next-Steady i peer_name k (ok (register c)) l s = looked_up-Steady i peer_name c k _ l s
    handle_next-Steady i peer_name k (ok (broadcast c)) l s =
        stopped-Steady i (serving peer_name k) l (λ q. q) s
    handle_next-Steady i peer_name k (ok (ping c)) l s =
        stopped-Steady i (serving peer_name k) l (λ q. q) s
    handle_next-Steady i peer_name k (ok (pong c)) l s =
        stopped-Steady i (serving peer_name k) l (λ q. q) s
    handle_next-Steady i peer_name k (ok (say c)) l s =
        stopped-Steady i (serving peer_name k) l (λ q. q) s
    handle_next-Steady i peer_name k (ok (deliver c)) l s =
        stopped-Steady i (serving peer_name k) l (λ q. q) s
    handle_next-Steady i peer_name k (ok (announce c)) l s =
        stopped-Steady i (serving peer_name k) l (λ q. q) s
    handle_next-Steady i peer_name k (ok (whisper c)) l s =
        stopped-Steady i (serving peer_name k) l (λ q. q) s
    handle_next-Steady i peer_name k (ok (extension c)) l s =
        stopped-Steady i (serving peer_name k) l (λ q. q) s
    handle_next-Steady i peer_name k (ok unknown) l s =
        stopped-Steady i (serving peer_name k) l (λ q. q) s
    handle_next-Steady i peer_name k (err e) l s = stopped-Steady i panicked l (λ q. q) s

    -- The end of another peer's connection.
    leave-Steady :
        (i : ℕ) (peer_name : Text) (l : Listener addrs)
        → (peer_name ≡ name → ⊥)
        → Steady l
        → Steady (leave addrs i peer_name l)
    unfolding leave
    leave-Steady i peer_name l other (h, rest) = (
      (remove-get peer_name name l.peers).1 ∙ elim (Bool-cases (text_eq peer_name name)) [
        | inl q ↦ absurd (other ((text_eq_iff peer_name name).0 q))
        | inr q ↦ rw q h
      ],
      unset_by i left l.tasks (λ q. q) rest,
    )

    read_later-Steady :
        (i : ℕ) (peer_name : Text) (k : Connection) (items : List Read) (l : Listener addrs)
        → ((peer_name ≡ name) × AtEnd items → ⊥)
        → Steady l
        → Steady (read_later addrs i peer_name k (take_frame items).0 l)
    unfolding read_later take_frame
    read_later-Steady i peer_name k [] l other s = leave-Steady i peer_name l (λ e. other (e, tt)) s
    read_later-Steady i peer_name k (failed ∷ rest) l other s =
        leave-Steady i peer_name l (λ e. other (e, tt)) s
    read_later-Steady i peer_name k (frame f ∷ rest) l other s =
        handle_next-Steady i peer_name k (from_frame f) l s

    read-Steady :
        (i : ℕ) (p : Phase addrs) (l : Listener addrs)
        → (Leaves name p → ⊥)
        → Steady l
        → Steady (read addrs i p l)
    unfolding read
    read-Steady i (accepted k) l other s =
        let (r, rest) = take_frame k.incoming in
        read_first-Steady i (record k { incoming = rest }) r l s
    read-Steady i (serving peer_name k) l other s =
        read_later-Steady i peer_name (record k { incoming = (take_frame k.incoming).1 }) k.incoming
          l other s
    read-Steady i (registering peer_name c x o k) l other s = s
    read-Steady i idle l other s = s
    read-Steady i left l other s = s
    read-Steady i panicked l other s = s

    goes_on-MaySet :
        (peer_name : Text) (o : Outcome addrs) → MaySet addrs name (goes_on addrs peer_name o) → ⊥
    goes_on-MaySet peer_name (ok u, t) q = q
    goes_on-MaySet peer_name (err e, t) q = q

    apply_found-Steady :
        (env : Round addrs) (i : ℕ) (p : Phase addrs) (l : Listener addrs)
        → (MaySet addrs name p → ⊥)
        → Steady l
        → Steady (apply_found addrs env i p l)
    unfolding apply_found
    apply_found-Steady env i (registering peer_name c x o k) l other (h, rest) = (
      apply_known-Knows addrs name a env.choose env.write_ok env.now peer_name c x o k
          (view addrs k l) other h,
      unset_by i _ l.tasks (goes_on-MaySet peer_name _) rest,
    )
    apply_found-Steady env i idle l other s = s
    apply_found-Steady env i left l other s = s
    apply_found-Steady env i panicked l other s = s
    apply_found-Steady env i (accepted k) l other s = s
    apply_found-Steady env i (serving peer_name k) l other s = s

    accept-Steady :
        (b : Bool) (c : Option Connection) (l : Listener addrs)
        → Steady l
        → Steady (accept addrs b c l)
    unfolding accept
    accept-Steady true (some c) l (h, rest) =
        (h, unset_by l.connections (accepted c) l.tasks (λ q. q) rest)
    accept-Steady true none l s = s
    accept-Steady false c l s = s

    act_all-Steady :
        (actions : List (Action addrs)) (l : Listener addrs)
        → Steady l
        → Stays name actions l
        → Steady (act_all addrs actions l)
    unfolding act_all act
    act_all-Steady [] l s stays = s
    act_all-Steady (accepts c ∷ rest) l s stays =
        act_all-Steady rest (act addrs (accepts c) l) (accept-Steady l.listening c l s) stays
    act_all-Steady (reads i ∷ rest) l s (other, stays) =
        act_all-Steady rest (act addrs (reads i) l) (read-Steady i (l.tasks i) l other s) stays
    act_all-Steady (applies i env ∷ rest) l s stays =
        act_all-Steady rest (act addrs (applies i env) l)
          (apply_found-Steady env i (l.tasks i) l (s.1 i) s) stays

    -- Whatever connections come, register and leave, and in whatever order their tasks act, a lookup
    -- of a name and what follows from it being two steps, a peer that the tracker knows stays known
    -- with its address, until a task that registered its name first reads the end of its connection,
    -- if no task is left that looked the name up before it was known and has yet to set it.
    pub act_all_keeps :
        (actions : List (Action addrs)) (l : Listener addrs)
        → TtlMap.get name l.peers ≡ some a
        → ((i : ℕ) → MaySet addrs name (l.tasks i) → ⊥)
        → Stays name actions l
        → TtlMap.get name (act_all addrs actions l).peers ≡ some a
    act_all_keeps actions l h u stays = (act_all-Steady actions l (h, u) stays).0
