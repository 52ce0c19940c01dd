-- ===== src/Prelude/Decimal.antt =====
-- A `u64` in decimal, as `format!("{}", n)` prints it, and texts of the form `a-n`.
use Prim.Native.Nat.{ℕ, zero, suc, ◌+◌, ◌-◌, ◌*◌, ◌/◌, ◌%◌, ◌<◌, ◌≤◌}
use mathlib.Core.Path.{◌≡◌, refl, sym, ap, ◌∙◌}
use mathlib.Core.Logic.{inl, inr}
use mathlib.Core.List.{[], ◌∷◌, ◌++◌}
use native.Mathlib.Omega.{arith}
use peer_to_peer_chat_system.Prelude.Tests.{ltb, if◌then◌else◌, Bool-cases, ltb-false→le, ltb→lt}
use peer_to_peer_chat_system.Prelude.Lists.{All}
use peer_to_peer_chat_system.Prelude.Text.{Text}

-- One digit for each unit of fuel; `n + 1` is more than enough.
unfoldable pub digits : ℕ → ℕ → Text
digits zero n = []
digits (suc fuel) n =
    let rest = digits fuel (n / 10) in
    if ltb n 10 then (b'0' + n) ∷ [] else rest ++ (b'0' + n % 10) ∷ []

unfoldable pub to_decimal : ℕ → Text
unfolding digits
to_decimal n = digits (suc n) n

-- The number that a row of digits writes, behind those that stand for `acc`.
abbrev value : ℕ → Text → ℕ
value acc [] = acc
value acc (c ∷ cs) = value (acc * 10 + (c - b'0')) cs

value-append : (acc : ℕ) (xs ys : Text) → value acc (xs ++ ys) ≡ value (value acc xs) ys
value-append acc [] ys = refl
value-append acc (x ∷ xs) ys = value-append (acc * 10 + (x - b'0')) xs ys

value-digits : (fuel n : ℕ) → n < fuel → value 0 (digits fuel n) ≡ n
unfolding digits
value-digits zero n h = absurd (omega arith)
value-digits (suc fuel) n h = elim (Bool-cases (ltb n 10)) [
  | inl small ↦ rw small (omega arith)
  | inr big ↦
      let le = ltb-false→le n 10 big in
      rw big (rw value-append (omega (arith, value-digits fuel (n / 10) (omega arith))))
]

abbrev pub IsDigit : ℕ → Type 0
IsDigit c = (b'0' ≤ c) × (c ≤ b'9')

All-append : (xs ys : Text) → All IsDigit xs → All IsDigit ys → All IsDigit (xs ++ ys)
All-append [] ys hx hy = hy
All-append (x ∷ xs) ys hx hy = (hx.0, All-append xs ys hx.1 hy)

pub digits-IsDigit : (fuel n : ℕ) → All IsDigit (digits fuel n)
unfolding digits
digits-IsDigit zero n = tt
digits-IsDigit (suc fuel) n = elim (Bool-cases (ltb n 10)) [
  | inl small ↦ let lt = ltb→lt n 10 small in rw small (omega arith)
  | inr big ↦ rw big (All-append _ _ (digits-IsDigit fuel (n / 10)) (omega arith))
]

-- Different numbers have different decimals.
pub to_decimal-injective : (m n : ℕ) → to_decimal m ≡ to_decimal n → m ≡ n
unfolding to_decimal
to_decimal-injective m n h =
    sym (value-digits (suc m) m (omega arith))
    ∙ ap (value 0) h
    ∙ value-digits (suc n) n (omega arith)

no_dash : (s d : Text) → All IsDigit (s ++ b'-' ∷ d) → ⊥
no_dash [] d h = omega arith
no_dash (c ∷ s) d h = no_dash s d h.1

-- A text that ends in a dash and digits comes apart in one way.
split_unique :
    (s t d e : Text)
    → All IsDigit d
    → All IsDigit e
    → s ++ b'-' ∷ d ≡ t ++ b'-' ∷ e
    → (s ≡ t) × (d ≡ e)
split_unique [] [] d e hd he h = ground arith
split_unique [] (c ∷ t) d e hd he h =
    let q : d ≡ t ++ b'-' ∷ e = cc in absurd (no_dash t e (rw q at hd))
split_unique (c ∷ s) [] d e hd he h =
    let q : e ≡ s ++ b'-' ∷ d = cc in absurd (no_dash s d (rw q at he))
split_unique (c ∷ s) (c' ∷ t) d e hd he h =
    let q : s ++ b'-' ∷ d ≡ t ++ b'-' ∷ e = cc in
    let (p, r) = split_unique s t d e hd he q in (cc, r)

-- `format!("{}-{}", source, n)` tells sources and numbers apart, also where a source has dashes.
pub dashed-injective :
    (s t : Text) (m n : ℕ) → s ++ b'-' ∷ to_decimal m ≡ t ++ b'-' ∷ to_decimal n → (s ≡ t) × (m ≡ n)
unfolding to_decimal
dashed-injective s t m n h =
    let (p, q) =
      split_unique s t (digits (suc m) m) (digits (suc n) n) (digits-IsDigit (suc m) m)
        (digits-IsDigit (suc n) n) h in
    (p, to_decimal-injective m n q)
