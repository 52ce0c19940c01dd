-- ===== src/Util/TtlMap/RandomKeys.antt =====
-- core/src/util/ttl_map.rs: `random_keys_vals`. The choice among the keys, `choose_multiple` of the
-- crate rand with its generator, is a parameter.
use mathlib.Core.List.{
  Mem, Subset, not-mem-nil, mem-cons_self, mem-cons_of_mem, eq-or-mem_of_mem-cons,
}
use mathlib.Core.Option
use mathlib.Core.Logic.Or
use mathlib.Core.HLevel.{⊥_prop}
use peer_to_peer_chat_system.Prelude.{
  ℕ, ◌≡◌, ◌≢◌, ◌≤◌, refl, ap, Option, none, some, List, [], ◌∷◌, map, length, suc, All, arith,
  Option-cases, inl, inr,
}
use peer_to_peer_chat_system.Prelude.Text.{Text, text_eq_iff}
use peer_to_peer_chat_system.Prelude.HashMap
use peer_to_peer_chat_system.Prelude.HashMap.{HashMap, keys}
use peer_to_peer_chat_system.Util.TtlMap
use peer_to_peer_chat_system.Util.TtlMap.{Entry, State}

module _ {ℓ} {T : Type ℓ} where
  length-map : (kvs : List (Text × T)) → length (map (λ p. p.0) kvs) ≡ length kvs
  length-map [] = refl
  length-map (x ∷ kvs) = ap suc (length-map kvs)

  -- `state.entries.get(key).unwrap()` for each key; `none` is a panic.
  unfoldable pub get_all : List Text → State T → Option (List (Text × T))
  get_all [] st = some []
  get_all (key ∷ ks) st =
      let rest = get_all ks st in
      Option.bind (TtlMap.get key st) (λ value. Option.map (λ kvs. (key, value) ∷ kvs) rest)

  unfoldable pub random_keys_vals :
      (ℕ → List Text → List Text) → ℕ → State T → Option (List (Text × T))
  unfolding get_all
  random_keys_vals choose n st = get_all (choose n (keys st.entries)) st

  keys-get : (k : Text) (m : HashMap (Entry T)) → Mem k (keys m) → HashMap.get k m ≢ none
  unfolding HashMap.get
  keys-get k [] h e = not-mem-nil h
  keys-get k ((j, w) ∷ m) h e =
      Or.elim ⊥_prop (eq-or-mem_of_mem-cons h) (λ q. ground (arith, text_eq_iff j k))
        (λ q. keys-get k m q (ground arith))

  -- Where all keys are there, the values are those of the map.
  get_all-get :
      (ks : List Text) (st : State T)
      → Subset ks (keys st.entries)
      → (kvs : List (Text × T)) × (get_all ks st ≡ some kvs)
        × (map (λ p. p.0) kvs ≡ ks)
        × All (λ p. TtlMap.get p.0 st ≡ some p.1) kvs
  unfolding get_all TtlMap.get Option.bind
  get_all-get [] st h = ([], refl, refl, tt)
  get_all-get (k ∷ ks) st h =
      let (kvs, e, p, q) = get_all-get ks st (λ j i. h j (mem-cons_of_mem k i)) in
      elim (Option-cases (HashMap.get k st.entries)) [
        | inl none_there ↦ absurd (keys-get k st.entries (h k mem-cons_self) none_there)
        | inr (o, there) ↦
            ((k, o.value) ∷ kvs, rw (there, e) refl, ap (λ l. k ∷ l) p, (rw there refl, q))
      ]

  -- If the choice is among the keys and of at most n of them, random_keys_vals does not panic, and
  -- hands out the chosen keys, at most n, each with its value.
  pub random_keys_vals-get :
      (choose : ℕ → List Text → List Text) (n : ℕ) (st : State T)
      → ((l : List Text) → Subset (choose n l) l)
      → ((l : List Text) → length (choose n l) ≤ n)
      → (kvs : List (Text × T)) × (random_keys_vals choose n st ≡ some kvs)
        × (map (λ p. p.0) kvs ≡ choose n (keys st.entries))
        × (length kvs ≤ n)
        × All (λ p. TtlMap.get p.0 st ≡ some p.1) kvs
  unfolding random_keys_vals
  random_keys_vals-get choose n st among few =
      let (kvs, e, p, q) = get_all-get (choose n (keys st.entries)) st (among (keys st.entries)) in
      (kvs, e, p, omega (arith, few (keys st.entries), length-map kvs, ap length p), q)
