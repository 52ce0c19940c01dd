-- ===== src/Tracker/Listen/Race.antt =====
-- core/src/tracker.rs and `Register::apply` of core/src/cmd/register.rs: two tasks that look the same
-- name up before either sets it.
use mathlib.Core.Path.{subst}
use peer_to_peer_chat_system.Prelude.{
  ℕ, ◌≡◌, refl, sym, ap, ◌∙◌, ◌==◌, true, false, Option, none, some, List, [], ◌∷◌, ◌++◌, arith,
}
use peer_to_peer_chat_system.Prelude.Text.{text_eq_refl}
use peer_to_peer_chat_system.Frame.{Frame}
use peer_to_peer_chat_system.Result.{ok}
use peer_to_peer_chat_system.Util.TtlMap
use peer_to_peer_chat_system.Util.TtlMap.Lookup.{get-set}
use peer_to_peer_chat_system.Connection.{Connection, Read, frame, take_frame}
use peer_to_peer_chat_system.Cmd.Register.{Register}
use peer_to_peer_chat_system.Tracker.{SocketAddr, process_frame, reply, apply_known}
use peer_to_peer_chat_system.Tracker.Connections.{Round}
use peer_to_peer_chat_system.Tracker.Listen.{
  Phase, accepted, registering, Listener, reads, applies, put_task, stopped, looked_up,
  register_first, read_first, read, apply_found, act, act_all,
}

module _ (addrs : SocketAddr) where
  put_same : (i : ℕ) (p : Phase addrs) (tasks : ℕ → Phase addrs) → put_task addrs i p tasks i ≡ p
  put_same i p tasks = let same : (i == i) ≡ true = ground arith in rw same refl

  put_other :
      (i k : ℕ) (p : Phase addrs) (tasks : ℕ → Phase addrs)
      → (k == i) ≡ false
      → put_task addrs i p tasks k ≡ tasks k
  put_other i k p tasks h = rw h refl

  -- The connection's next frame is a register command with an address that can be read.
  pub record Registers (p : Phase addrs) (c : Register) (x : addrs.Addr) : Type 0 where
    pub first : Frame
    pub rest : List Read
    pub written : List Frame
    pub phase : p ≡ accepted (record { incoming = frame first ∷ rest; written = written })
    pub parsed : process_frame first ≡ ok c
    pub address : addrs.parse (c.ip_address ++ b':' ∷ c.port) ≡ some x

  -- The task has looked the name up and found what `o` says.
  abbrev Found : Phase addrs → Register → addrs.Addr → Option addrs.Addr → Type 0
  Found p c x o = (k : Connection) × (p ≡ registering c.peer_name c x o k)

  abbrev OnlyTask : ℕ → Listener addrs → Listener addrs → Type 0
  OnlyTask i l l' = (k : ℕ) → (k == i) ≡ false → l'.tasks k ≡ l.tasks k

  abbrev looks : ℕ → Register → addrs.Addr → Connection → Listener addrs → Listener addrs
  looks i c x k l =
      stopped addrs i (registering c.peer_name c x (TtlMap.get c.peer_name l.peers) k) l

  read-looks :
      (i : ℕ) (c : Register) (x : addrs.Addr) (l : Listener addrs) (h : Registers (l.tasks i) c x)
      → act addrs (reads i) l ≡ looks i c x (record { incoming = h.rest; written = h.written }) l
  unfolding act read read_first register_first looked_up take_frame
  read-looks i c x l h = rw (h.phase, h.parsed, h.address) refl

  read-Found :
      (i : ℕ) (c : Register) (x : addrs.Addr) (l : Listener addrs)
      → Registers (l.tasks i) c x
      → let l' = act addrs (reads i) l in
        Found (l'.tasks i) c x (TtlMap.get c.peer_name l.peers)
        × (l'.peers ≡ l.peers)
        × OnlyTask i l l'
  read-Found i c x l h =
      subst
        (λ (l' : Listener addrs).
          Found (l'.tasks i) c x (TtlMap.get c.peer_name l.peers)
          × (l'.peers ≡ l.peers)
          × OnlyTask i l l')
        (sym (read-looks i c x l h))
        ((_, put_same i _ l.tasks), refl, λ k q. put_other i k _ l.tasks q)

  apply_sets :
      (env : Round addrs) (i : ℕ) (c : Register) (x : addrs.Addr) (l : Listener addrs)
      → Found (l.tasks i) c x none
      → let l' = act addrs (applies i env) l in
        (TtlMap.get c.peer_name l'.peers ≡ some x) × OnlyTask i l l'
  unfolding act apply_found apply_known reply
  apply_sets env i c x l (k, e) = (
    rw e (get-set env.now c.peer_name c.peer_name x none l.peers ∙ rw text_eq_refl refl),
    λ j h. rw e (put_other i j _ l.tasks h),
  )

  -- If the tasks of two connections whose first frames register the same new name, with addresses
  -- that can be read, both look it up before either goes on, the first of them is known under its
  -- address, and then the second is known under its own in its place, whether that is the same address
  -- or not.
  pub act_all_overtakes :
      (env env' : Round addrs) (i j : ℕ) (c d : Register) (x y : addrs.Addr) (l : Listener addrs)
      → (j == i) ≡ false
      → Registers (l.tasks i) c x
      → Registers (l.tasks j) d y
      → c.peer_name ≡ d.peer_name
      → TtlMap.get c.peer_name l.peers ≡ none
      → let l' = act_all addrs (reads i ∷ reads j ∷ applies i env ∷ []) l in
        (TtlMap.get c.peer_name l'.peers ≡ some x)
        × (TtlMap.get c.peer_name (act addrs (applies j env') l').peers ≡ some y)
  unfolding act_all
  act_all_overtakes env env' i j c d x y l apart h g same new =
      let l1 = act addrs (reads i) l in
      let l2 = act addrs (reads j) l1 in
      let apart' : (i == j) ≡ false = ground arith in
      let (found, peers, others) = read-Found i c x l h in
      let (found', peers', others') =
        read-Found j d y l1 (subst (λ p. Registers p d y) (sym (others j apart)) g) in
      let unknown : TtlMap.get d.peer_name l1.peers ≡ none =
        ap (λ st. TtlMap.get d.peer_name st) peers
        ∙ subst (λ n. TtlMap.get n l.peers ≡ none) same new in
      let seen = ap (λ o. registering c.peer_name c x o found.0) new in
      let seen' = ap (λ o. registering d.peer_name d y o found'.0) unknown in
      let (known, kept) = apply_sets env i c x l2 (found.0, others' i apart' ∙ found.1 ∙ seen) in
      let l3 = act addrs (applies i env) l2 in
      let (known', _) = apply_sets env' j d y l3 (found'.0, kept j apart ∙ found'.1 ∙ seen') in
      (
        known,
        subst (λ n. TtlMap.get n (act addrs (applies j env') l3).peers ≡ some y) (sym same) known',
      )
