-- ===== src/Util/TtlMap/Remove.antt =====
-- `remove` of core/src/util/ttl_map.rs, which leaves the expirations as they are.
use mathlib.Core.Option
use peer_to_peer_chat_system.Prelude.{
  ℕ, ◌≡◌, ap, ◌≤◌, none, some, [], ◌∷◌, arith, ltb, Bool-cases, inl, inr, ltb→lt,
}
use peer_to_peer_chat_system.Prelude.Text.{Text, text_eq_iff}
use peer_to_peer_chat_system.Prelude.HashMap
use peer_to_peer_chat_system.Prelude.HashMap.{HashMap, get-remove, get-insert}
use peer_to_peer_chat_system.Util.TtlMap
use peer_to_peer_chat_system.Util.TtlMap.{
  Entry, State, remove, set, forget, schedule, purge_loop, purge_expired_keys,
}
use peer_to_peer_chat_system.Util.TtlMap.BTreeMap.{Expirations, get_at, IsSorted}
use peer_to_peer_chat_system.Util.TtlMap.Invariant.{IsValid}
use peer_to_peer_chat_system.Util.TtlMap.Purge.{not_due}

module _ {ℓ} {T : Type ℓ} where
  -- Removing a key whose entry never expires, or that has none, keeps the map valid.
  pub remove-IsValid :
      (key : Text) (st : State T)
      → IsValid st
      → ((e : Entry T) → HashMap.get key st.entries ≡ some e → e.expires_at ≡ none)
      → IsValid (remove key st).1
  unfolding remove
  remove-IsValid key st h forever = record {
    agree = record {
      sorted = h.agree.sorted;
      scheduled = λ k e w p q. ground (arith, get-remove key k st.entries, h.agree.scheduled k e w);
      live = λ w i k g.
          let (e, p, q, r) = h.agree.live w i k g in
          (e, rw get-remove (ground (arith, text_eq_iff key k, forever e)), q, r);
    };
    fresh = λ k e p. ground (arith, get-remove key k st.entries, h.fresh k e);
  }

  purge_loop-none :
      (now : ℕ) (entries : HashMap (Entry T)) (l : Expirations) (k : Text)
      → HashMap.get k entries ≡ none
      → HashMap.get k (purge_loop now entries l).0 ≡ none
  unfolding purge_loop
  purge_loop-none now entries [] k p = p
  purge_loop-none now entries (x ∷ l) k p =
      let gone : HashMap.get k (HashMap.remove x.key entries) ≡ none =
        ground (arith, get-remove x.key k entries) in
      elim (Bool-cases (ltb now x.when)) [
        | inl b ↦ rw b p
        | inr b ↦ rw b (purge_loop-none now (HashMap.remove x.key entries) l k gone)
      ]

  -- Whatever entry a key has, a due item for the key removes it.
  purge_loop-due :
      (now : ℕ) (entries : HashMap (Entry T)) (l : Expirations) (w i : ℕ) (k : Text)
      → IsSorted l
      → get_at w i l ≡ some k
      → w ≤ now
      → HashMap.get k (purge_loop now entries l).0 ≡ none
  unfolding purge_loop get_at
  purge_loop-due now entries [] w i k s g d = cc
  purge_loop-due now entries (x ∷ l) w i k s g d = elim (Bool-cases (ltb now x.when)) [
    | inl b ↦ absurd (omega (arith, not_due now x l w i k (ltb→lt now x.when b) s.0 g))
    | inr b ↦
        let keeps = purge_loop-none now (HashMap.remove x.key entries) l k in
        let rest = purge_loop-due now (HashMap.remove x.key entries) l w i k s.1 in
        ground (arith, keeps, rest, get-remove x.key k entries, text_eq_iff x.key k)
  ]

  -- If a key is removed while its entry is scheduled to expire at `w`, then set again so that it
  -- never expires, the purge at any instant from `w` on removes the new entry.
  pub purge-set-remove :
      (st : State T) (key : Text) (e : Entry T) (w t now : ℕ) (value : T)
      → IsValid st
      → HashMap.get key st.entries ≡ some e
      → e.expires_at ≡ some w
      → w ≤ now
      → TtlMap.get key (purge_expired_keys now (set t key value none (remove key st).1).0).0 ≡ none
  unfolding TtlMap.get purge_expired_keys set remove forget schedule
  purge-set-remove st key e w t now value h p q d =
      let gone : HashMap.get key (HashMap.remove key st.entries) ≡ none =
        ground (arith, get-remove key key st.entries, text_eq_iff key key) in
      let entry : Entry T = record { id = st.next_id; value = value; expires_at = none } in
      rw gone (
        ap (Option.map (λ (o : Entry T). o.value)) (
          purge_loop-due now (HashMap.insert key entry (HashMap.remove key st.entries))
            st.expirations w e.id key h.agree.sorted (h.agree.scheduled key e w p q) d))
