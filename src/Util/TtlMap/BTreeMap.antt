-- ===== src/Util/TtlMap/BTreeMap.antt =====
-- The field `expirations` of core/src/util/ttl_map.rs, a `BTreeMap<(Instant, u64), String>`: the
-- list of its items in the order of the keys. An `Instant` is a number of nanoseconds.
use peer_to_peer_chat_system.Prelude.{
  ℕ, ◌≡◌, refl, ◌⊎◌, ◌<◌, Bool, Option, none, some, List, [], ◌∷◌, ◌&&◌, ◌||◌, arith, ltb, ◌==◌,
  if◌then◌else◌, All, Bool-cases, inl, inr,
}
use peer_to_peer_chat_system.Prelude.Text.{Text}

pub record Expiration : Type 0 where
  pub when : ℕ
  pub id : ℕ
  pub key : Text

abbrev pub Expirations : Type 0
Expirations = List Expiration

-- The order of the pairs `(when, id)`, and their equality.
abbrev before : ℕ → ℕ → Expiration → Bool
before w i e = ltb w e.when || w == e.when && ltb i e.id

abbrev pub same : ℕ → ℕ → Expiration → Bool
same w i e = w == e.when && i == e.id

unfoldable pub get_at : ℕ → ℕ → Expirations → Option Text
get_at w i [] = none
get_at w i (e ∷ l) = if same w i e then some e.key else get_at w i l

unfoldable pub insert_at : ℕ → ℕ → Text → Expirations → Expirations
insert_at w i k [] = record { when = w; id = i; key = k } ∷ []
insert_at w i k (e ∷ l) =
    let rest = insert_at w i k l in
    if before w i e
    then record { when = w; id = i; key = k } ∷ e ∷ l
    else if same w i e
    then record { when = w; id = i; key = k } ∷ l
    else e ∷ rest

unfoldable pub remove_at : ℕ → ℕ → Expirations → Expirations
remove_at w i [] = []
remove_at w i (e ∷ l) = let rest = remove_at w i l in if same w i e then rest else e ∷ rest

-- `expirations.keys().next()`, the least of the instants.
unfoldable pub first : Expirations → Option ℕ
first [] = none
first (e ∷ l) = some e.when

abbrev pub Before : Expiration → Expiration → Type 0
Before e f = (e.when < f.when) ⊎ ((e.when ≡ f.when) × (e.id < f.id))

abbrev pub IsSorted : Expirations → Type 0
IsSorted [] = Unit
IsSorted (e ∷ l) = All (Before e) l × IsSorted l

pub get_at-insert_at :
    (w i v j : ℕ) (k : Text) (l : Expirations)
    → get_at v j (insert_at w i k l) ≡ (if v == w && j == i then some k else get_at v j l)
unfolding get_at insert_at
get_at-insert_at w i v j k [] = refl
get_at-insert_at w i v j k (e ∷ l) = ground (arith, get_at-insert_at w i v j k l)

pub get_at-remove_at :
    (w i v j : ℕ) (l : Expirations)
    → get_at v j (remove_at w i l) ≡ (if v == w && j == i then none else get_at v j l)
unfolding get_at remove_at
get_at-remove_at w i v j [] = ground arith
get_at-remove_at w i v j (e ∷ l) = ground (arith, get_at-remove_at w i v j l)

-- The key of the first item stands nowhere behind it.
pub get_at-Before :
    (e : Expiration) (l : Expirations) → All (Before e) l → get_at e.when e.id l ≡ none
unfolding get_at
get_at-Before e [] h = refl
get_at-Before e (f ∷ l) (b, h) = ground (arith, get_at-Before e l h)

insert_at-All :
    (e : Expiration) (w i : ℕ) (k : Text) (l : Expirations)
    → Before e (record { when = w; id = i; key = k })
    → All (Before e) l
    → All (Before e) (insert_at w i k l)
unfolding insert_at
insert_at-All e w i k [] b h = (b, tt)
insert_at-All e w i k (f ∷ l) b (c, h) = ground (arith, insert_at-All e w i k l b h)

All-Before-trans :
    (e f : Expiration) (l : Expirations) → Before e f → All (Before f) l → All (Before e) l
All-Before-trans e f [] b h = tt
All-Before-trans e f (g ∷ l) b (c, h) = (omega arith, All-Before-trans e f l b h)

All-Before-same :
    (w i : ℕ) (k : Text) (e : Expiration) (l : Expirations)
    → e.when ≡ w
    → e.id ≡ i
    → All (Before e) l
    → All (Before (record { when = w; id = i; key = k })) l
All-Before-same w i k e [] p q h = tt
All-Before-same w i k e (f ∷ l) p q (b, h) = (omega arith, All-Before-same w i k e l p q h)

pub insert_at-IsSorted :
    (w i : ℕ) (k : Text) (l : Expirations) → IsSorted l → IsSorted (insert_at w i k l)
unfolding insert_at
insert_at-IsSorted w i k [] s = (tt, tt)
insert_at-IsSorted w i k (e ∷ l) (h, s) = elim (Bool-cases (before w i e)) [
  | inl b ↦
      let n : Expiration = record { when = w; id = i; key = k } in
      let be : Before n e = ground arith in rw b ((be, All-Before-trans n e l be h), (h, s))
  | inr b ↦ elim (Bool-cases (same w i e)) [
    | inl q ↦ rw (b, q) (All-Before-same w i k e l (ground arith) (ground arith) h, s)
    | inr q ↦ rw (b, q) (insert_at-All e w i k l (ground arith) h, insert_at-IsSorted w i k l s)
  ]
]

remove_at-All :
    (e : Expiration) (w i : ℕ) (l : Expirations)
    → All (Before e) l
    → All (Before e) (remove_at w i l)
unfolding remove_at
remove_at-All e w i [] h = tt
remove_at-All e w i (f ∷ l) (b, h) = ground (arith, remove_at-All e w i l h)

pub remove_at-IsSorted : (w i : ℕ) (l : Expirations) → IsSorted l → IsSorted (remove_at w i l)
unfolding remove_at
remove_at-IsSorted w i [] s = tt
remove_at-IsSorted w i (e ∷ l) (h, s) =
    ground (arith, remove_at-All e w i l h, remove_at-IsSorted w i l s)
