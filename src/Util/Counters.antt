-- ===== src/Util/Counters.antt =====
-- core/src/util/counters.rs: two counters of type `u64` behind a mutex, built for release, where
-- `+= 1` and `-= 1` wrap.
use peer_to_peer_chat_system.Prelude.{
  ℕ, zero, suc, ◌+◌, ◌-◌, ◌%◌, ◌<◌, ◌≡◌, some, List, [], ◌∷◌, arith, u64_mod, get_elem?,
}

-- `SequenceNumberGenerator`: the number handed out, and the counter after the call.
unfoldable pub next : ℕ → ℕ × ℕ
next current_number = (current_number, (current_number + 1) % u64_mod)

-- `ConnectionCounter`
unfoldable pub inc : ℕ → ℕ
inc current_number = (current_number + 1) % u64_mod

unfoldable pub dec : ℕ → ℕ
dec current_number = (current_number + u64_mod - 1) % u64_mod

-- The numbers that `k` calls of `next` hand out in turn, and the counter after them.
pub issue : ℕ → ℕ → List ℕ × ℕ
issue zero c = ([], c)
issue (suc k) c = let (n, c') = next c in let (ns, c'') = issue k c' in (n ∷ ns, c'')

-- While the counter does not wrap, the call number `i` of `k` calls, from 0, hands out the start
-- plus `i`.
pub issue-get_elem? :
    (k c i : ℕ) → c + k < u64_mod → i < k → get_elem? (issue k c).0 i ≡ some (c + i)
unfolding issue next
issue-get_elem? zero c i b h = absurd (omega arith)
issue-get_elem? (suc k) c zero b h = ground arith
issue-get_elem? (suc k) c (suc i) b h =
    let step : (c + 1) % u64_mod ≡ c + 1 = omega arith in
    rw step (ground (arith, issue-get_elem? k (c + 1) i))

-- `dec` undoes `inc` on every counter in range.
pub dec-inc : (n : ℕ) → n < u64_mod → dec (inc n) ≡ n
unfolding inc dec
dec-inc n h = omega arith
