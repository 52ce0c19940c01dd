-- ===== src/Prelude/Number.antt =====
-- `str::parse::<u64>` and `str::as_bytes`.
use Prim.Native.Nat.{ℕ, zero, suc, ◌+◌, ◌-◌, ◌*◌, ◌/◌, ◌%◌, ◌<◌, ◌≤◌}
use mathlib.Core.Path.{◌≡◌, refl, ◌∙◌}
use mathlib.Core.Logic.{inl, inr}
use mathlib.Core.Bool.{◌&&◌}
use mathlib.Core.Option.{Option, none, some}
use mathlib.Core.List.{List, [], ◌∷◌, ◌++◌}
use native.Mathlib.Omega.{arith}
use peer_to_peer_chat_system.Prelude.Tests.{
  ltb, leb, ◌==◌, if◌then◌else◌, Bool-cases, ltb→lt, ltb-false→le, u64_mod,
}
use peer_to_peer_chat_system.Prelude.Text.{Text}
use peer_to_peer_chat_system.Prelude.Decimal.{digits, to_decimal}

-- The digits behind `n`; what is no digit, or runs over 64 bits, is refused.
scan : Text → ℕ → Option ℕ
scan [] n = some n
scan (c ∷ s) n =
    let rest = scan s (n * 10 + (c - b'0')) in
    if leb b'0' c && leb c b'9' && ltb (n * 10 + (c - b'0')) u64_mod then rest else none

parse_digits : Text → Option ℕ
unfolding scan
parse_digits [] = none
parse_digits (c ∷ s) = scan (c ∷ s) 0

-- One sign `+` may stand in front.
unfoldable pub parse_u64 : Text → Option ℕ
unfolding parse_digits
parse_u64 [] = none
parse_u64 (c ∷ s) = if c == b'+' then parse_digits s else parse_digits (c ∷ s)

-- The code point in UTF-8.
abbrev encode_utf8 : ℕ → List ℕ
encode_utf8 c =
    if ltb c 0x80
    then c ∷ []
    else if ltb c 0x800
    then (0xC0 + c / 64) ∷ (0x80 + c % 64) ∷ []
    else if ltb c 0x10000
    then (0xE0 + c / 4096) ∷ (0x80 + c / 64 % 64) ∷ (0x80 + c % 64) ∷ []
    else (0xF0 + c / 262144) ∷ (0x80 + c / 4096 % 64) ∷ (0x80 + c / 64 % 64) ∷ (0x80 + c % 64) ∷ []

unfoldable pub as_bytes : Text → List ℕ
as_bytes [] = []
as_bytes (c ∷ s) = encode_utf8 c ++ as_bytes s

scan-snoc :
    (s : Text) (c n m : ℕ)
    → scan s n ≡ some m
    → b'0' ≤ c
    → c ≤ b'9'
    → m * 10 + (c - b'0') < u64_mod
    → scan (s ++ c ∷ []) n ≡ some (m * 10 + (c - b'0'))
unfolding scan
scan-snoc [] c n m h lo hi b = ground arith
scan-snoc (d ∷ s) c n m h lo hi b = ground (arith, scan-snoc s c (n * 10 + (d - b'0')) m)

scan-digits : (fuel n : ℕ) → n < fuel → n < u64_mod → scan (digits fuel n) 0 ≡ some n
unfolding digits
scan-digits zero n h b = absurd (omega arith)
scan-digits (suc fuel) n h b = elim (Bool-cases (ltb n 10)) [
  | inl small ↦ let lt = ltb→lt n 10 small in rw small (unfold scan in ground arith)
  | inr big ↦
      let le = ltb-false→le n 10 big in
      let rest = scan-digits fuel (n / 10) (omega arith) (omega arith) in
      let whole : n / 10 * 10 + (b'0' + n % 10 - b'0') ≡ n = omega arith in
      rw big (
        scan-snoc (digits fuel (n / 10)) (b'0' + n % 10) 0 (n / 10) rest (omega arith) (omega arith)
          (omega arith)
        ∙ rw whole refl)
]

-- A row of digits as `parse` takes it: not empty, and no sign in front.
abbrev Starts : Text → Type 0
Starts [] = ⊥
Starts (c ∷ s) = b'0' ≤ c

Starts-append : (s t : Text) → Starts s → Starts (s ++ t)
Starts-append [] t h = elim h [ ]
Starts-append (c ∷ s) t h = h

digits-Starts : (fuel n : ℕ) → n < fuel → Starts (digits fuel n)
unfolding digits
digits-Starts zero n h = absurd (omega arith)
digits-Starts (suc fuel) n h = elim (Bool-cases (ltb n 10)) [
  | inl small ↦ rw small (omega arith)
  | inr big ↦
      let le = ltb-false→le n 10 big in
      rw big (Starts-append _ _ (digits-Starts fuel (n / 10) (omega arith)))
]

parse_u64-eq-scan : (s : Text) → Starts s → parse_u64 s ≡ scan s 0
unfolding parse_u64
parse_u64-eq-scan [] h = elim h [ ]
parse_u64-eq-scan (c ∷ s) h = ground arith

-- The decimal of a `u64` is read back.
pub parse_u64-to_decimal : (n : ℕ) → n < u64_mod → parse_u64 (to_decimal n) ≡ some n
unfolding to_decimal
parse_u64-to_decimal n b =
    parse_u64-eq-scan (digits (suc n) n) (digits-Starts (suc n) n (omega arith))
    ∙ scan-digits (suc n) n (omega arith) b
