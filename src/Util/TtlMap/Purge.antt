-- ===== src/Util/TtlMap/Purge.antt =====
-- `purge_expired_keys` of core/src/util/ttl_map.rs against what it is for.
use peer_to_peer_chat_system.Prelude.{
  ℕ, ◌≡◌, refl, sym, ◌<◌, ◌∙◌, Option, none, some, [], ◌∷◌, arith, ltb, false, if◌then◌else◌,
  Bool-cases, Option-cases, inl, inr, ltb→lt, lt→ltb, All,
}
use peer_to_peer_chat_system.Prelude.Text.{Text, text_eq, text_eq_iff}
use peer_to_peer_chat_system.Prelude.HashMap
use peer_to_peer_chat_system.Prelude.HashMap.{HashMap, get-remove}
use peer_to_peer_chat_system.Util.TtlMap.{Entry, State, purge_loop, purge_expired_keys}
use peer_to_peer_chat_system.Util.TtlMap.BTreeMap.{
  Expiration, Expirations, get_at, first, Before, get_at-Before,
}
use peer_to_peer_chat_system.Util.TtlMap.Invariant.{Agree, IsValid}

get_at-tail :
    (x : Expiration) (l : Expirations) (w i : ℕ) (k : Text)
    → All (Before x) l
    → get_at w i l ≡ some k
    → get_at w i (x ∷ l) ≡ some k
unfolding get_at
get_at-tail x l w i k b h = ground (arith, get_at-Before x l b)

-- Where the first item is not due, no item is.
pub not_due :
    (now : ℕ) (x : Expiration) (l : Expirations) (w i : ℕ) (k : Text)
    → now < x.when
    → All (Before x) l
    → get_at w i (x ∷ l) ≡ some k
    → now < w
unfolding get_at
not_due now x [] w i k h b g = ground arith
not_due now x (y ∷ l) w i k h (c, b) g = ground (arith, not_due now x l w i k h b)

module _ {ℓ} {T : Type ℓ} where
  -- An entry counts until its instant has come.
  abbrev pub unexpired : ℕ → Option (Entry T) → Option (Entry T)
  unexpired now none = none
  unexpired now (some e) = elim e.expires_at [
    | none ↦ some e
    | some w ↦ if ltb now w then some e else none
  ]

  -- The item in front is that of its key's entry.
  Agree-head :
      (entries : HashMap (Entry T)) (x : Expiration) (l : Expirations)
      → Agree entries (x ∷ l)
      → (e : Entry T) × (HashMap.get x.key entries ≡ some e)
        × (e.id ≡ x.id)
        × (e.expires_at ≡ some x.when)
  unfolding get_at
  Agree-head entries x l a = a.live x.when x.id x.key (ground arith)

  Agree-tail :
      (entries : HashMap (Entry T)) (x : Expiration) (l : Expirations)
      → Agree entries (x ∷ l)
      → Agree (HashMap.remove x.key entries) l
  unfolding get_at
  Agree-tail entries x l a =
      let (o, p, q, r) = Agree-head entries x l a in
      record {
        sorted = a.sorted.1;
        scheduled = λ k e w g t.
            ground (arith, get-remove x.key k entries, a.scheduled k e w, text_eq_iff x.key k);
        live = λ w i k g.
            let (e, t, u, v) = a.live w i k (get_at-tail x l w i k a.sorted.0 g) in
            let apart = get_at-Before x l a.sorted.0 in
            (e, rw get-remove (ground (arith, text_eq_iff x.key k)), u, v);
      }

  unexpired-eq_self :
      (now : ℕ) (o : Option (Entry T))
      → ((e : Entry T) (w : ℕ) → o ≡ some e → e.expires_at ≡ some w → now < w)
      → o ≡ unexpired now o
  unexpired-eq_self now none h = refl
  unexpired-eq_self now (some e) h = elim (Option-cases e.expires_at) [
    | inl p ↦ simp p
    | inr (w, p) ↦ simp (p, lt→ltb now w (h e w refl p))
  ]

  unexpired_due :
      (now : ℕ) (e : Entry T) (w : ℕ)
      → e.expires_at ≡ some w
      → ltb now w ≡ false
      → unexpired now (some e) ≡ none
  unexpired_due now e w p b = simp (p, b)

  pub unexpired-some :
      (now : ℕ) (o : Option (Entry T)) (e : Entry T) → unexpired now o ≡ some e → o ≡ some e
  unexpired-some now none e h = h
  unexpired-some now (some d) e h = elim (Option-cases d.expires_at) [
    | inl p ↦ simp p at h
    | inr (w, p) ↦ elim (Bool-cases (ltb now w)) [
      | inl b ↦ simp (p, b) at h
      | inr b ↦ let g = simp (p, b) at h in cc
    ]
  ]

  -- Dropping the entry of a due item changes nothing that has not expired.
  unexpired-remove :
      (now : ℕ) (entries : HashMap (Entry T)) (x : Expiration) (l : Expirations)
      → Agree entries (x ∷ l)
      → ltb now x.when ≡ false
      → (k : Text)
      → unexpired now (HashMap.get k (HashMap.remove x.key entries))
        ≡ unexpired now (HashMap.get k entries)
  unexpired-remove now entries x l a b k =
      let (o, p, q, r) = Agree-head entries x l a in
      elim (Bool-cases (text_eq x.key k)) [
        | inl t ↦
            let same : x.key ≡ k = (text_eq_iff x.key k).0 t in
            rw get-remove (rw (t, ← same, p) (sym (unexpired_due now o x.when r b)))
        | inr t ↦ rw get-remove (rw t)
      ]

  -- After the loop a key has its entry if the entry is not due.
  pub purge_loop-unexpired :
      (now : ℕ) (entries : HashMap (Entry T)) (l : Expirations)
      → Agree entries l
      → (k : Text)
      → HashMap.get k (purge_loop now entries l).0 ≡ unexpired now (HashMap.get k entries)
  unfolding purge_loop get_at
  purge_loop-unexpired now entries [] a k =
      unexpired-eq_self now (HashMap.get k entries)
        (λ e w p q. ground (arith, a.scheduled k e w p q))
  purge_loop-unexpired now entries (x ∷ l) a k = elim (Bool-cases (ltb now x.when)) [
    | inl b ↦ rw b (
        unexpired-eq_self now (HashMap.get k entries) (λ e w p q.
          not_due now x l w e.id k (ltb→lt now x.when b) a.sorted.0 (a.scheduled k e w p q)))
    | inr b ↦ rw b (
        purge_loop-unexpired now (HashMap.remove x.key entries) l (Agree-tail entries x l a) k
        ∙ unexpired-remove now entries x l a b k)
  ]

  purge_loop-Agree :
      (now : ℕ) (entries : HashMap (Entry T)) (l : Expirations)
      → Agree entries l
      → Agree (purge_loop now entries l).0 (purge_loop now entries l).1
  unfolding purge_loop
  purge_loop-Agree now entries [] a = a
  purge_loop-Agree now entries (x ∷ l) a = elim (Bool-cases (ltb now x.when)) [
    | inl b ↦ rw b a
    | inr b ↦
        rw b (purge_loop-Agree now (HashMap.remove x.key entries) l (Agree-tail entries x l a))
  ]

  -- The instant that the loop returns is that of the first item left, and lies ahead.
  purge_loop_next :
      (now : ℕ) (entries : HashMap (Entry T)) (l : Expirations)
      → ((purge_loop now entries l).2 ≡ first (purge_loop now entries l).1)
        × ((t : ℕ) → (purge_loop now entries l).2 ≡ some t → now < t)
  unfolding purge_loop first
  purge_loop_next now entries [] = (refl, λ t h. cc)
  purge_loop_next now entries (x ∷ l) = elim (Bool-cases (ltb now x.when)) [
    | inl b ↦ rw b (refl, λ t h. ground arith)
    | inr b ↦ rw b (purge_loop_next now (HashMap.remove x.key entries) l)
  ]

  -- On a valid map a purge at `now` leaves a valid map in which each key has its entry if the entry
  -- is not due and none else; the instant returned is the least that is scheduled, and lies ahead.
  pub purge_expired_keys-unexpired :
      (now : ℕ) (st : State T)
      → IsValid st
      → let st' = (purge_expired_keys now st).0 in
        let next = (purge_expired_keys now st).1 in
        IsValid st'
        × ((k : Text) → HashMap.get k st'.entries ≡ unexpired now (HashMap.get k st.entries))
        × (next ≡ first st'.expirations)
        × ((t : ℕ) → next ≡ some t → now < t)
  unfolding purge_expired_keys
  purge_expired_keys-unexpired now st h =
      let kept = purge_loop-unexpired now st.entries st.expirations h.agree in
      let ahead = purge_loop_next now st.entries st.expirations in
      (
        record {
          agree = purge_loop-Agree now st.entries st.expirations h.agree;
          fresh = λ k e p.
              h.fresh k e (unexpired-some now (HashMap.get k st.entries) e (sym (kept k) ∙ p));
        },
        kept,
        ahead.0,
        ahead.1,
      )
