-- ===== src/Prelude/Search.antt =====
-- The searches of `str` that the code uses: `starts_with`, `strip_prefix`, `contains`, `split_once`.
use Prim.Native.Nat.{ℕ}
use mathlib.Core.Path.{◌≡◌, refl}
use mathlib.Core.Logic.{◌≢◌, ◌↔◌}
use mathlib.Core.Bool.{Bool, true, false, ◌||◌}
use mathlib.Core.Option
use mathlib.Core.Option.{Option, none, some}
use mathlib.Core.List.{[], ◌∷◌, ◌++◌}
use native.Mathlib.Omega.{arith}
use peer_to_peer_chat_system.Prelude.Tests.{◌==◌, if◌then◌else◌}
use peer_to_peer_chat_system.Prelude.Lists.{All}
use peer_to_peer_chat_system.Prelude.Text.{Text}

unfoldable pub strip_prefix : Text → Text → Option Text
strip_prefix [] s = some s
strip_prefix (c ∷ p) [] = none
strip_prefix (c ∷ p) (d ∷ s) = if c == d then strip_prefix p s else none

abbrev pub is_some : Option Text → Bool
is_some none = false
is_some (some s) = true

unfoldable pub starts_with : Text → Text → Bool
unfolding strip_prefix
starts_with p s = is_some (strip_prefix p s)

unfoldable pub contains : Text → Text → Bool
unfolding starts_with
contains p [] = starts_with p []
contains p (c ∷ s) = starts_with p (c ∷ s) || contains p s

-- The parts before and behind the first `c`.
unfoldable pub split_once : ℕ → Text → Option (Text × Text)
split_once c [] = none
split_once c (d ∷ s) =
    let rest = split_once c s in
    if d == c then some ([], s) else Option.map (λ r. (d ∷ r.0, r.1)) rest

pub strip_prefix-append : (p s : Text) → strip_prefix p (p ++ s) ≡ some s
unfolding strip_prefix
strip_prefix-append [] s = refl
strip_prefix-append (c ∷ p) s = ground (arith, strip_prefix-append p s)

pub strip_prefix-eq_some : (p s r : Text) → strip_prefix p s ≡ some r → s ≡ p ++ r
unfolding strip_prefix
strip_prefix-eq_some [] s r h = ground arith
strip_prefix-eq_some (c ∷ p) [] r h = cc
strip_prefix-eq_some (c ∷ p) (d ∷ s) r h = ground (arith, strip_prefix-eq_some p s r)

pub split_once-append :
    (c : ℕ) (a b : Text) → All (λ d. d ≢ c) a → split_once c (a ++ c ∷ b) ≡ some (a, b)
unfolding split_once
split_once-append c [] b h = ground arith
split_once-append c (d ∷ a) b (p, h) = ground (arith, split_once-append c a b h)

pub split_once-eq_none : (c : ℕ) (s : Text) → (split_once c s ≡ none) ↔ All (λ d. d ≢ c) s
unfolding split_once
split_once-eq_none c [] = (λ h. tt, λ h. refl)
split_once-eq_none c (d ∷ s) =
    let (there, back) = split_once-eq_none c s in
    (λ h. (λ e. ground arith, there (ground arith)), λ h. ground (arith, back h.1))
