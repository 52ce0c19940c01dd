-- ===== src/Util/TtlMap/Invariant.antt =====
-- The invariant of a `TtlMap`, and that `new`, `set` and `purge_expired_keys` keep it.
use mathlib.Core.Option
use peer_to_peer_chat_system.Prelude.{
  ℕ, ◌≡◌, refl, ap, sym, ◌<◌, ◌+◌, ◌∙◌, ◌⊎◌, Option, none, some, arith, u64_mod, false, Bool-cases,
  Option-cases, inl, inr,
}
use peer_to_peer_chat_system.Prelude.Text.{Text, text_eq, text_eq_iff}
use peer_to_peer_chat_system.Prelude.HashMap
use peer_to_peer_chat_system.Prelude.HashMap.{HashMap, get-insert, get-remove}
use peer_to_peer_chat_system.Util.TtlMap.{Entry, State, new, set, forget, schedule}
use peer_to_peer_chat_system.Util.TtlMap.BTreeMap.{
  Expirations, get_at, IsSorted, get_at-insert_at, get_at-remove_at, insert_at-IsSorted,
  remove_at-IsSorted,
}

-- Each entry that expires is scheduled under its own id, and each scheduled item is that of a live
-- entry.
pub record Agree {ℓ} {T : Type ℓ} (entries : HashMap (Entry T)) (l : Expirations) : Type ℓ where
  pub sorted : IsSorted l
  pub scheduled :
      (k : Text) (e : Entry T) (w : ℕ)
      → HashMap.get k entries ≡ some e
      → e.expires_at ≡ some w
      → get_at w e.id l ≡ some k
  pub live :
      (w i : ℕ) (k : Text)
      → get_at w i l ≡ some k
      → (e : Entry T) × (HashMap.get k entries ≡ some e) × (e.id ≡ i) × (e.expires_at ≡ some w)

pub record IsValid {ℓ} {T : Type ℓ} (st : State T) : Type ℓ where
  pub agree : Agree st.entries st.expirations
  pub fresh : (k : Text) (e : Entry T) → HashMap.get k st.entries ≡ some e → e.id < st.next_id

module _ {ℓ} {T : Type ℓ} where
  pub new-IsValid : IsValid (new {T = T})
  unfolding new HashMap.get get_at
  new-IsValid = record {
    agree = record { sorted = tt; scheduled = λ k e w p q. cc; live = λ w i k p. cc };
    fresh = λ k e p. cc;
  }

  -- What an overwrite of `prev` at `key` by an entry with the new id `n` leaves in the schedule.
  module _ (entries : HashMap (Entry T)) (l : Expirations) (key : Text) (n : ℕ) where
    abbrev prev : Option (Entry T)
    prev = HashMap.get key entries

    get_at-schedule :
        (x : Option ℕ) (w i : ℕ) → i < n → get_at w i (schedule key n x l) ≡ get_at w i l
    unfolding schedule
    get_at-schedule none w i h = refl
    get_at-schedule (some v) w i h = rw get_at-insert_at (ground arith)

    -- Only the item of the overwritten entry goes.
    get_at-forget :
        (m : Expirations) (w i : ℕ)
        → ((o : Entry T) → prev ≡ some o → o.expires_at ≡ some w → o.id ≡ i → ⊥)
        → get_at w i (forget prev m) ≡ get_at w i m
    unfolding forget
    get_at-forget m w i h = elim (Option-cases prev) [
      | inl p ↦ rw p
      | inr (o, p) ↦ elim (Option-cases o.expires_at) [
        | inl q ↦ rw p (rw q refl)
        | inr (v, q) ↦ rw p (rw q (rw get_at-remove_at (ground (arith, h o p))))
      ]
    ]

    get_at-forget_self :
        (m : Expirations) (w : ℕ) (o : Entry T)
        → prev ≡ some o
        → o.expires_at ≡ some w
        → get_at w o.id (forget prev m) ≡ none
    unfolding forget
    get_at-forget_self m w o p q = rw p (rw q (rw get_at-remove_at (ground arith)))

    get_at-forget-some :
        (m : Expirations) (w i : ℕ) (k : Text)
        → get_at w i (forget prev m) ≡ some k
        → get_at w i m ≡ some k
    unfolding forget
    get_at-forget-some m w i k h = elim (Option-cases prev) [
      | inl p ↦ rw p at h
      | inr (o, p) ↦ elim (Option-cases o.expires_at) [
        | inl q ↦ rw q at (rw p at h)
        | inr (v, q) ↦ let g = rw get_at-remove_at at (rw q at (rw p at h)) in ground arith
      ]
    ]

    get_at-schedule-some :
        (x : Option ℕ) (w i : ℕ) (k : Text)
        → get_at w i (schedule key n x l) ≡ some k
        → ((x ≡ some w) × (i ≡ n) × (key ≡ k)) ⊎ (get_at w i l ≡ some k)
    unfolding schedule
    get_at-schedule-some none w i k h = inr h
    get_at-schedule-some (some v) w i k h = ground (arith, get_at-insert_at v n w i key l)

    forget-IsSorted : (m : Expirations) → IsSorted m → IsSorted (forget prev m)
    unfolding forget
    forget-IsSorted m s = elim (Option-cases prev) [
      | inl p ↦ rw p s
      | inr (o, p) ↦ elim (Option-cases o.expires_at) [
        | inl q ↦ rw p (rw q s)
        | inr (v, q) ↦ rw p (rw q (remove_at-IsSorted v o.id m s))
      ]
    ]

    schedule-IsSorted : (x : Option ℕ) → IsSorted l → IsSorted (schedule key n x l)
    unfolding schedule
    schedule-IsSorted none s = s
    schedule-IsSorted (some w) s = insert_at-IsSorted w n key l s

    module _ (a : Agree entries l)
        (f : (k : Text) (e : Entry T) → HashMap.get k entries ≡ some e → e.id < n) (value : T)
        (x : Option ℕ) where
      abbrev entries' : HashMap (Entry T)
      entries' = HashMap.insert key (record { id = n; value = value; expires_at = x }) entries

      abbrev l' : Expirations
      l' = forget prev (schedule key n x l)

      scheduled_new : (w : ℕ) → x ≡ some w → get_at w n l' ≡ some key
      scheduled_new w p = rw p (
          rw (get_at-forget (schedule key n (some w) l) w n (λ o q r t. omega (arith, f key o q)))
            (unfold schedule in rw get_at-insert_at (ground arith)))

      scheduled_old :
          (k : Text) (e : Entry T) (w : ℕ)
          → text_eq key k ≡ false
          → HashMap.get k entries ≡ some e
          → e.expires_at ≡ some w
          → get_at w e.id l' ≡ some k
      scheduled_old k e w d p q =
          get_at-forget (schedule key n x l) w e.id (λ o r t u.
            ground (arith, a.scheduled k e w p q, a.scheduled key o w r t, text_eq_iff key k))
          ∙ get_at-schedule x w e.id (f k e p)
          ∙ a.scheduled k e w p q

      live_old :
          (w i : ℕ) (k : Text)
          → get_at w i l' ≡ some k
          → get_at w i l ≡ some k
          → (e : Entry T) × (HashMap.get k entries' ≡ some e) × (e.id ≡ i) × (e.expires_at ≡ some w)
      live_old w i k h g =
          let (e, p, q, r) = a.live w i k g in
          elim (Bool-cases (text_eq key k)) [
            | inl b ↦
                let same_key : key ≡ k = (text_eq_iff key k).0 b in
                let gone = get_at-forget_self (schedule key n x l) w e (rw same_key p) r in
                absurd (ground arith)
            | inr b ↦ (e, rw get-insert (rw b p), q, r)
          ]

      abbrev entry : Entry T
      entry = record { id = n; value = value; expires_at = x }

      get_self : (k : Text) → key ≡ k → HashMap.get k entries' ≡ some entry
      get_self k h = rw get-insert (ground (arith, text_eq_iff key k))

      scheduled_self :
          (e : Entry T) (k : Text) (w : ℕ)
          → key ≡ k
          → some entry ≡ some e
          → e.expires_at ≡ some w
          → get_at w e.id l' ≡ some k
      scheduled_self e k w r p q =
          let same : entry ≡ e = cc in
          ap (λ (i : ℕ). get_at w i l') (ap (λ (d : Entry T). d.id) (sym same))
          ∙ scheduled_new w (ap (λ (d : Entry T). d.expires_at) same ∙ q)
          ∙ ap some r

      set-Agree : Agree entries' l'
      set-Agree = record {
        sorted = forget-IsSorted (schedule key n x l) (schedule-IsSorted x a.sorted);
        scheduled = λ k e w p q. elim (Bool-cases (text_eq key k)) [
          | inl b ↦
              let r : key ≡ k = (text_eq_iff key k).0 b in
              scheduled_self e k w r (sym (get_self k r) ∙ p) q
          | inr b ↦ ground (arith, get-insert key k entry entries, scheduled_old k e w b)
        ];
        live = λ w i k h.
            elim (get_at-schedule-some x w i k (get_at-forget-some (schedule key n x l) w i k h)) [
              | inl (p, q, r) ↦ (entry, get_self k r, sym q, p)
              | inr g ↦ live_old w i k h g
            ];
      }

      set_fresh : (k : Text) (e : Entry T) → HashMap.get k entries' ≡ some e → e.id < n + 1
      set_fresh k e p = ground (arith, get-insert key k entry entries, f k e)

  -- `set` keeps the invariant while the counter of ids does not wrap.
  pub set-IsValid :
      (now : ℕ) (key : Text) (value : T) (expire : Option ℕ) (st : State T)
      → IsValid st
      → st.next_id + 1 < u64_mod
      → IsValid (set now key value expire st).0
  unfolding set
  set-IsValid now key value expire st h b = record {
    agree =
        set-Agree st.entries st.expirations key st.next_id h.agree h.fresh value
          (Option.map (λ duration. now + duration) expire);
    fresh = λ k e p. omega (
      arith,
      set_fresh st.entries st.expirations key st.next_id h.agree h.fresh value
          (Option.map (λ duration. now + duration) expire) k e p,
    );
  }
