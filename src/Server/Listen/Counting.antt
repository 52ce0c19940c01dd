-- ===== src/Server/Listen/Counting.antt =====
-- The counter of incoming connections that the tasks of `listen`, core/src/server.rs, share.
use peer_to_peer_chat_system.Prelude.{
  ℕ, zero, suc, ◌≡◌, refl, ◌+◌, ◌%◌, ◌<◌, ◌≤◌, ◌==◌, Bool, true, false, Option, none, some, List,
  [], ◌∷◌, arith, u64_mod, Bool-cases, inl, inr,
}
use native.Mathlib.Decide.{dec_lt}
use peer_to_peer_chat_system.Prelude.Text.{Text}
use peer_to_peer_chat_system.Result.{Result}
use peer_to_peer_chat_system.Connection.{Connection}
use peer_to_peer_chat_system.Util.Counters
use peer_to_peer_chat_system.Node.{Node, Env}
use peer_to_peer_chat_system.Server.Listen.{
  Phase, idle, finished, spawned, serving, ending, Listener, Action, accepts, begins, works,
  finishes, purges_commands, purges_adjacent, put_task, standing, round, accept, begin, work,
  finish, act, act_all, listen,
}

-- A connection is counted from the begin of its task to the end of it.
abbrev pub counts : Phase → ℕ
counts idle = 0
counts finished = 0
counts (spawned c) = 0
counts (serving c) = 1
counts (ending r) = 1

-- The connections that are open, among the first so many.
abbrev pub opened : ℕ → (ℕ → Phase) → ℕ
opened zero tasks = 0
opened (suc n) tasks = counts (tasks n) + opened n tasks

opened-put_above :
    (n i : ℕ) (p : Phase) (tasks : ℕ → Phase)
    → n ≤ i
    → opened n (put_task i p tasks) ≡ opened n tasks
opened-put_above zero i p tasks h = refl
opened-put_above (suc n) i p tasks h =
    let other : (n == i) ≡ false = ground arith in
    rw other (omega (arith, opened-put_above n i p tasks))

opened-put :
    (n i : ℕ) (p : Phase) (tasks : ℕ → Phase)
    → i < n
    → opened n (put_task i p tasks) + counts (tasks i) ≡ opened n tasks + counts p
opened-put zero i p tasks h = absurd (omega arith)
opened-put (suc n) i p tasks h = elim (Bool-cases (n == i)) [
  | inl q ↦
      let same : n ≡ i = ground arith in
      rw q (rw (← same) (omega (arith, opened-put_above n n p tasks)))
  | inr q ↦ rw q (omega (arith, opened-put n i p tasks (ground arith)))
]

record IsCounted (l : Listener) : Type 0 where
  counted : l.num_incoming_conns ≡ opened l.accepted l.tasks % u64_mod
  unused : (i : ℕ) → l.accepted ≤ i → l.tasks i ≡ idle

used : (l : Listener) (i : ℕ) → IsCounted l → (l.tasks i ≡ idle → ⊥) → i < l.accepted
used l i v h = elim (dec_lt i l.accepted) [
  | yes p ↦ p
  | no p ↦ absurd (h (v.unused i (omega arith)))
]

put_unused :
    (l : Listener) (i j : ℕ) (p : Phase)
    → IsCounted l
    → i < l.accepted
    → l.accepted ≤ j
    → put_task i p l.tasks j ≡ idle
put_unused l i j p v h k = let other : (j == i) ≡ false = ground arith in rw other (v.unused j k)

-- A task moves, and the counter of connections with it.
moved :
    (l : Listener) (i : ℕ) (p : Phase) (n : Node) (k : ℕ)
    → IsCounted l
    → i < l.accepted
    → ((m : ℕ) → m + counts (l.tasks i) ≡ opened l.accepted l.tasks + counts p → k ≡ m % u64_mod)
    → IsCounted (record l { shared = n; tasks = put_task i p l.tasks; num_incoming_conns = k })
moved l i p n k v h f = record {
  counted = f (opened l.accepted (put_task i p l.tasks)) (opened-put l.accepted i p l.tasks h);
  unused = λ j q. put_unused l i j p v h q;
}

add-one : (n : ℕ) → n + 1 ≡ suc n
add-one n = omega arith

accept-IsCounted :
    (b : Bool) (c : Option Connection) (l : Listener) → IsCounted l → IsCounted (accept b c l)
unfolding accept
accept-IsCounted true (some c) l v = record {
  counted =
      let same : (l.accepted == l.accepted) ≡ true = ground arith in
      let grown = opened-put_above l.accepted l.accepted (spawned c) l.tasks (omega arith) in
      rw add-one (rw same (omega (arith, grown, v.counted)));
  unused = λ j q.
      let other : (j == l.accepted) ≡ false = ground arith in rw other (v.unused j (omega arith));
}
accept-IsCounted true none l v = record { counted = v.counted; unused = v.unused }
accept-IsCounted false c l v = v

begin-IsCounted :
    (i : ℕ) (p : Phase) (l : Listener) → l.tasks i ≡ p → IsCounted l → IsCounted (begin i p l)
unfolding begin Counters.inc
begin-IsCounted i (spawned c) l e v =
    moved l i (serving c) l.shared _ v (used l i v (λ q. cc))
      (λ m q. let g = rw e at q in omega (arith, v.counted))
begin-IsCounted i idle l e v = v
begin-IsCounted i finished l e v = v
begin-IsCounted i (serving c) l e v = v
begin-IsCounted i (ending r) l e v = v

counts-standing : (r : Option (Result (Unit {0}))) (c : Connection) → counts (standing r c) ≡ 1
counts-standing none c = refl
counts-standing (some r) c = refl

work-IsCounted :
    (my_name : Text) (env : Env) (i : ℕ) (p : Phase) (l : Listener)
    → l.tasks i ≡ p
    → IsCounted l
    → IsCounted (work my_name env i p l)
unfolding work
work-IsCounted my_name env i (serving c) l e v =
    let (r, n) = round env my_name (record l.shared { connection = c }) in
    moved l i (standing r n.connection) n l.num_incoming_conns v (used l i v (λ q. cc))
      (λ m q. let g = rw e at q in omega (arith, v.counted, counts-standing r n.connection))
work-IsCounted my_name env i idle l e v = v
work-IsCounted my_name env i finished l e v = v
work-IsCounted my_name env i (spawned c) l e v = v
work-IsCounted my_name env i (ending r) l e v = v

finish-IsCounted :
    (i : ℕ) (p : Phase) (l : Listener) → l.tasks i ≡ p → IsCounted l → IsCounted (finish i p l)
unfolding finish Counters.dec
finish-IsCounted i (ending r) l e v =
    moved l i finished l.shared _ v (used l i v (λ q. cc))
      (λ m q. let g = rw e at q in omega (arith, v.counted))
finish-IsCounted i idle l e v = v
finish-IsCounted i finished l e v = v
finish-IsCounted i (spawned c) l e v = v
finish-IsCounted i (serving c) l e v = v

act-IsCounted :
    (my_name : Text) (a : Action) (l : Listener) → IsCounted l → IsCounted (act my_name a l)
unfolding act
act-IsCounted my_name (accepts c) l v = accept-IsCounted l.listening c l v
act-IsCounted my_name (begins i) l v = begin-IsCounted i (l.tasks i) l refl v
act-IsCounted my_name (works i env) l v = work-IsCounted my_name env i (l.tasks i) l refl v
act-IsCounted my_name (finishes i) l v = finish-IsCounted i (l.tasks i) l refl v
act-IsCounted my_name (purges_commands now) l v = record { counted = v.counted; unused = v.unused }
act-IsCounted my_name (purges_adjacent now) l v = record { counted = v.counted; unused = v.unused }

act_all-IsCounted :
    (my_name : Text) (actions : List Action) (l : Listener)
    → IsCounted l
    → IsCounted (act_all my_name actions l)
unfolding act_all
act_all-IsCounted my_name [] l v = v
act_all-IsCounted my_name (a ∷ rest) l v =
    act_all-IsCounted my_name rest (act my_name a l) (act-IsCounted my_name a l v)

opened_none : (k : ℕ) → opened k (λ _. idle) ≡ 0
opened_none zero = refl
opened_none (suc k) = omega (arith, opened_none k)

listen-IsCounted : (n : Node) → IsCounted (listen n)
unfolding listen
listen-IsCounted n = record { counted = refl; unused = λ i h. refl }

-- In whatever order the listener and its tasks act, the counter of connections is, on 64 bits, the
-- number of the accepted connections whose task has begun and not ended.
pub act_all-counts :
    (my_name : Text) (n : Node) (actions : List Action)
    → let l = act_all my_name actions (listen n) in
      l.num_incoming_conns ≡ opened l.accepted l.tasks % u64_mod
act_all-counts my_name n actions =
    (act_all-IsCounted my_name actions (listen n) (listen-IsCounted n)).counted
