-- ===== src/Util/TtlMap/Refines.antt =====
-- The calls of core/src/util/ttl_map.rs against an abstract map that has no ids and no schedule: a
-- function from the keys to the values with the instants at which they expire.
use mathlib.Core.Option
use mathlib.Core.Path.{fun_ext}
use peer_to_peer_chat_system.Prelude.{
  ℕ, suc, Bool, true, false, ◌≡◌, refl, ap, ◌<◌, ◌+◌, ◌∙◌, Option, none, some, List, [], ◌∷◌, arith,
  ltb, u64_mod, length, if◌then◌else◌, Option-cases, inl, inr,
}
use peer_to_peer_chat_system.Prelude.Text.{Text, text_eq}
use peer_to_peer_chat_system.Prelude.HashMap
use peer_to_peer_chat_system.Prelude.HashMap.{get-insert, get-remove}
use peer_to_peer_chat_system.Util.TtlMap
use peer_to_peer_chat_system.Util.TtlMap.{Entry, State, new, set, remove, purge_expired_keys}
use peer_to_peer_chat_system.Util.TtlMap.Invariant.{IsValid, new-IsValid, set-IsValid}
use peer_to_peer_chat_system.Util.TtlMap.Purge.{unexpired, purge_expired_keys-unexpired}
use peer_to_peer_chat_system.Util.TtlMap.Remove.{remove-IsValid}

module _ {ℓ} (T : Type ℓ) where
  -- What changes the map: a call of `set` or `remove`, or a purge by the background task.
  pub data Call : Type ℓ where
    sets : ℕ → Text → T → Option ℕ → Call
    removes : Text → Call
    purges : ℕ → Call

  -- The abstract map.
  abbrev pub Lasting : Type ℓ
  Lasting = Text → Option (T × Option ℕ)

module _ {ℓ} {T : Type ℓ} where
  unfoldable pub perform : Call T → State T → State T
  perform (sets now key value expire) st = (set now key value expire st).0
  perform (removes key) st = (remove key st).1
  perform (purges now) st = (purge_expired_keys now st).0

  unfoldable pub perform_all : List (Call T) → State T → State T
  unfolding perform
  perform_all [] st = st
  perform_all (c ∷ l) st = perform_all l (perform c st)

  -- What lasts beyond an instant.
  abbrev pub lasts : ℕ → Option (T × Option ℕ) → Option (T × Option ℕ)
  lasts now none = none
  lasts now (some (v, none)) = some (v, none)
  lasts now (some (v, some w)) = if ltb now w then some (v, some w) else none

  -- What each call promises.
  abbrev pub promise : Call T → Lasting T → Lasting T
  promise (sets now key value expire) s j =
      if text_eq key j then some (value, Option.map (λ duration. now + duration) expire) else s j
  promise (removes key) s j = if text_eq key j then none else s j
  promise (purges now) s j = lasts now (s j)

  abbrev pub promise_all : List (Call T) → Lasting T → Lasting T
  promise_all [] s = s
  promise_all (c ∷ l) s = promise_all l (promise c s)

  abbrev pub Permanent : Option (T × Option ℕ) → Type 0
  Permanent none = Unit
  Permanent (some (v, x)) = x ≡ none

  -- No key is removed while its value is to expire.
  abbrev pub RemovesPermanent : List (Call T) → Lasting T → Type 0
  RemovesPermanent [] s = Unit
  RemovesPermanent (removes key ∷ l) s =
      Permanent (s key) × RemovesPermanent l (promise (removes key) s)
  RemovesPermanent (c ∷ l) s = RemovesPermanent l (promise c s)

  abbrev pub seen : Option (Entry T) → Option (T × Option ℕ)
  seen = Option.map (λ e. (e.value, e.expires_at))

  -- The abstract map that a map stands for.
  abbrev pub view : State T → Lasting T
  view st j = seen (HashMap.get j st.entries)

  seen-if :
      (b : Bool) (x y : Option (Entry T))
      → seen (if b then x else y) ≡ (if b then seen x else seen y)
  seen-if true x y = refl
  seen-if false x y = refl

  view-set :
      (now : ℕ) (key : Text) (value : T) (expire : Option ℕ) (st : State T)
      → view (set now key value expire st).0 ≡ promise (sets now key value expire) (view st)
  unfolding set
  view-set now key value expire st = fun_ext λ j. rw get-insert (seen-if (text_eq key j) _ _)

  view-remove :
      (key : Text) (st : State T) → view (remove key st).1 ≡ promise (removes key) (view st)
  unfolding remove
  view-remove key st = fun_ext λ j. rw get-remove (seen-if (text_eq key j) _ _)

  seen-unexpired : (now : ℕ) (o : Option (Entry T)) → seen (unexpired now o) ≡ lasts now (seen o)
  seen-unexpired now none = refl
  seen-unexpired now (some e) = elim (Option-cases e.expires_at) [
    | inl p ↦ simp p
    | inr (w, p) ↦ simp (p, seen-if (ltb now w))
  ]

  view-purge :
      (now : ℕ) (st : State T)
      → IsValid st
      → view (purge_expired_keys now st).0 ≡ promise (purges now) (view st)
  view-purge now st h = fun_ext λ j.
      ap seen ((purge_expired_keys-unexpired now st h).1 j)
      ∙ seen-unexpired now (HashMap.get j st.entries)

  view-perform :
      (c : Call T) (st : State T) → IsValid st → view (perform c st) ≡ promise c (view st)
  unfolding perform
  view-perform (sets now key value expire) st h = view-set now key value expire st
  view-perform (removes key) st h = view-remove key st
  view-perform (purges now) st h = view-purge now st h

  Permanent-none :
      (o : Option (Entry T)) (e : Entry T) → Permanent (seen o) → o ≡ some e → e.expires_at ≡ none
  Permanent-none none e h p = cc
  Permanent-none (some d) e h p =
      ap (λ (x : Entry T). x.expires_at) (let same : e ≡ d = cc in same) ∙ h

  abbrev Counted : ℕ → State T → Type ℓ
  Counted k st = IsValid st × (st.next_id + k < u64_mod)

  perform-Counted :
      (c : Call T) (l : List (Call T)) (k : ℕ) (st : State T)
      → Counted (suc k) st
      → RemovesPermanent (c ∷ l) (view st)
      → Counted k (perform c st) × RemovesPermanent l (promise c (view st))
  unfolding perform
  perform-Counted (sets now key value expire) l k st (h, b) p =
      ((set-IsValid now key value expire st h (omega arith), unfold set in omega arith), p)
  perform-Counted (removes key) l k st (h, b) (q, p) = (
    (
      remove-IsValid key st h (λ e r. Permanent-none (HashMap.get key st.entries) e q r),
      unfold remove in omega arith,
    ),
    p,
  )
  perform-Counted (purges now) l k st (h, b) p =
      (((purge_expired_keys-unexpired now st h).0, unfold purge_expired_keys in omega arith), p)

  perform_all-Counted :
      (l : List (Call T)) (st : State T)
      → Counted (length l) st
      → RemovesPermanent l (view st)
      → view (perform_all l st) ≡ promise_all l (view st)
  unfolding perform_all
  perform_all-Counted [] st h p = refl
  perform_all-Counted (c ∷ l) st h p =
      let (h', p') = perform-Counted c l (length l) st h p in
      let stands = view-perform c st h.0 in
      perform_all-Counted l (perform c st) h' (rw stands p') ∙ ap (promise_all l) stands

  get-view : (j : Text) (st : State T) → TtlMap.get j st ≡ Option.map (λ v. v.0) (view st j)
  unfolding TtlMap.get
  get-view j st = read (HashMap.get j st.entries)
    where
      read : (o : Option (Entry T)) → Option.map (λ e. e.value) o ≡ Option.map (λ v. v.0) (seen o)
      read none = refl
      read (some e) = refl

  -- From the new map, any calls of set and remove and any purges, of which fewer than 2 ^ 64 are
  -- made and none removes a key whose value is to expire, leave under each key the value that the
  -- abstract map has there: the last one set with the instant at which it expires, unless it was
  -- removed since or a purge came at or after that instant.
  pub perform_all-Refines :
      (l : List (Call T))
      → length l < u64_mod
      → RemovesPermanent l (λ _. none)
      → (j : Text)
      → TtlMap.get j (perform_all l new) ≡ Option.map (λ v. v.0) (promise_all l (λ _. none) j)
  perform_all-Refines l b p j =
      let blank : view (new {T = T}) ≡ (λ _. none) = unfold new HashMap.get in refl in
      let small : Counted (length l) (new {T = T}) = (new-IsValid, unfold new in omega arith) in
      let stands = perform_all-Counted l new small (rw blank p) in
      get-view j (perform_all l new)
      ∙ ap (λ (s : Lasting T). Option.map (λ (v : T × Option ℕ). v.0) (s j))
          (stands ∙ ap (promise_all l) blank)
