-- ===== src/Tests/Background.antt =====
-- The task of core/src/util/ttl_map.rs and the choice of keys on concrete inputs.
use mathlib.Core.List.{
  Subset, Mem-prop, not-mem-nil, mem-cons_self, mem-cons_of_mem, eq-or-mem_of_mem-cons,
}
use mathlib.Core.Logic.Or
use peer_to_peer_chat_system.Prelude.{
  ℕ, zero, suc, ◌+◌, ◌≡◌, ◌≤◌, refl, Bool, true, none, some, List, [], ◌∷◌, All, length, map, arith,
}
use peer_to_peer_chat_system.Prelude.Text.{Text, codes}
use peer_to_peer_chat_system.Util.TtlMap
use peer_to_peer_chat_system.Util.TtlMap.{Entry, State}
use peer_to_peer_chat_system.Util.TtlMap.RandomKeys.{random_keys_vals, random_keys_vals-get}
use peer_to_peer_chat_system.Util.TtlMap.Background.{
  Shared, Runs, start, locked_set, purge, started, passes, sets, serves, purges,
}
use peer_to_peer_chat_system.Util.TtlMap.Wakes.{IsWatched, Runs-IsWatched}
use peer_to_peer_chat_system.Util.TtlMap.Progress.{Settles, Runs-settle}

-- The task waits on an empty map, `a` is set at 3 for 5, and the clock passes its instant.
abbrev due : Shared Bool
due =
    let s = locked_set (codes "a") true (some 5) (purge (start 3)) in
    record s { clock = s.clock + 9 }

due-Runs : Runs due
unfolding start
due-Runs = passes 9 (sets (codes "a") true (some 5) (serves (started 3) (purges refl)))

Runs-IsWatched_example : IsWatched due
Runs-IsWatched_example = Runs-IsWatched due-Runs

Runs-settle_example : (t : Shared Bool) × Settles due t
Runs-settle_example = Runs-settle due-Runs

-- The first keys.
abbrev firsts : ℕ → List Text → List Text
firsts zero l = []
firsts (suc n) [] = []
firsts (suc n) (k ∷ l) = k ∷ firsts n l

firsts-Subset : (n : ℕ) (l : List Text) → Subset (firsts n l) l
firsts-Subset zero l k h = absurd (not-mem-nil h)
firsts-Subset (suc n) [] k h = h
firsts-Subset (suc n) (j ∷ l) k h =
    Or.elim Mem-prop (eq-or-mem_of_mem-cons h) (λ e. rw e mem-cons_self)
      (λ m. mem-cons_of_mem j (firsts-Subset n l k m))

length-firsts : (n : ℕ) (l : List Text) → length (firsts n l) ≤ n
length-firsts zero l = omega arith
length-firsts (suc n) [] = omega arith
length-firsts (suc n) (k ∷ l) = omega (arith, length-firsts n l)

abbrev entry : Bool → Entry Bool
entry b = record { id = 0; value = b; expires_at = none }

abbrev two : State Bool
two = record {
  entries = (codes "a", entry true) ∷ (codes "b", entry true) ∷ [];
  expirations = [];
  next_id = 1;
}

random_keys_vals-get_example :
    (kvs : List (Text × Bool)) × (random_keys_vals firsts 1 two ≡ some kvs)
    × (map (λ p. p.0) kvs ≡ codes "a" ∷ [])
    × (length kvs ≤ 1)
    × All (λ p. TtlMap.get p.0 two ≡ some p.1) kvs
random_keys_vals-get_example = random_keys_vals-get firsts 1 two (firsts-Subset 1) (length-firsts 1)
