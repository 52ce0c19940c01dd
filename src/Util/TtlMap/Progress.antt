-- ===== src/Util/TtlMap/Progress.antt =====
-- The task `purge_expired_tasks` of core/src/util/ttl_map.rs never gets stuck behind what is due.
use peer_to_peer_chat_system.Prelude.{
  ℕ, zero, suc, ◌≡◌, ◌≢◌, ◌≤◌, ◌⊎◌, inl, inr, refl, true, [], ◌∷◌, arith, ltb, Bool-cases, ltb→lt,
  ltb-false→le,
}
use peer_to_peer_chat_system.Util.TtlMap.{purge_expired_keys}
use peer_to_peer_chat_system.Util.TtlMap.BTreeMap.{Expirations, IsSorted}
use peer_to_peer_chat_system.Util.TtlMap.Background.{
  Phase, purging, waiting, sleeping, Shared, Serve, Serves, Runs, purge, notify_one, wake, notified,
  ends_set, purges, wakes, notified_asleep, notified_waiting, rests, goes_on,
}
use peer_to_peer_chat_system.Util.TtlMap.NoneBefore.{NoneBefore}
use peer_to_peer_chat_system.Util.TtlMap.Wakes.{Alarm, Covers, purge-IsWatched, Runs-IsWatched}

NoneBefore-mono : (v w : ℕ) (l : Expirations) → v ≤ w → NoneBefore w l → NoneBefore v l
NoneBefore-mono v w [] h a = tt
NoneBefore-mono v w (e ∷ l) h (b, a) = (omega arith, NoneBefore-mono v w l h a)

pred_of : (n : ℕ) → n ≢ 0 → (k : ℕ) × (n ≡ suc k)
pred_of zero h = absurd (h refl)
pred_of (suc k) h = (k, refl)

module _ {ℓ} {T : Type ℓ} where
  -- `t` comes from `s` by what goes on by itself, at the same instant; its map is that of `s`, or
  -- what a purge makes of it; and nothing in its schedule is due.
  abbrev pub Settles : Shared T → Shared T → Type ℓ
  Settles s t =
      Serves s t
      × (t.clock ≡ s.clock)
      × ((t.state ≡ s.state) ⊎ (t.state ≡ (purge_expired_keys s.clock s.state).0))
      × NoneBefore (suc s.clock) t.state.expirations

  from_purging :
      (s : Shared T)
      → IsSorted s.state.expirations
      → s.phase ≡ purging
      → (t : Shared T) × Settles s t
  unfolding purge
  from_purging s h e =
      (purge s, (goes_on (purges e) rests, refl, inr refl, (purge-IsWatched s h).1))

  from_woken :
      (s : Shared T)
      → IsSorted s.state.expirations
      → Serve s (wake s)
      → (t : Shared T) × Settles s t
  unfolding wake
  from_woken s h step =
      let (t, (more, clock, state, later)) = from_purging (wake s) h refl in
      (t, (goes_on step more, clock, state, later))

  from_notified :
      (s : Shared T)
      → IsSorted s.state.expirations
      → Serve s (notified s)
      → (t : Shared T) × Settles s t
  unfolding notified
  from_notified s h step =
      let (t, (more, clock, state, later)) = from_purging (notified s) h refl in
      (t, (goes_on step more, clock, state, later))

  from_permit :
      (p : Phase) (s : Shared T)
      → s.phase ≡ p
      → IsSorted s.state.expirations
      → s.background_task ≡ true
      → (t : Shared T) × Settles s t
  from_permit purging s e h b = from_purging s h e
  from_permit (sleeping w) s e h b = from_notified s h (notified_asleep w e b)
  from_permit waiting s e h b = from_notified s h (notified_waiting e b)

  from_owed : (s : Shared T) → IsSorted s.state.expirations → Alarm s → (t : Shared T) × Settles s t
  unfolding notify_one
  from_owed s h (inl b) = from_permit s.phase s refl h b
  from_owed s h (inr n) =
      let (owed, e) = pred_of s.owed n in
      let (t, (more, clock, state, later)) = from_permit s.phase (notify_one owed s) refl h refl in
      (t, (goes_on (ends_set owed e) more, clock, state, later))

  from_phase :
      (p : Phase) (s : Shared T)
      → s.phase ≡ p
      → IsSorted s.state.expirations
      → Covers s p
      → (t : Shared T) × Settles s t
  from_phase purging s e h c = from_purging s h e
  from_phase (sleeping w) s e h (inl a) = from_owed s h a
  from_phase (sleeping w) s e h (inr later) = elim (Bool-cases (ltb s.clock w)) [
    | inl b ↦
        let lt = ltb→lt s.clock w b in
        (s, (rests, refl, inl refl, NoneBefore-mono _ w _ (omega arith) later))
    | inr b ↦ from_woken s h (wakes w e (ltb-false→le s.clock w b))
  ]
  from_phase waiting s e h (inl a) = from_owed s h a
  from_phase waiting s e h (inr none_left) = (s, (rests, refl, inl refl, rw none_left tt))

  -- From every state of a run the background task and the calls of set that have dropped the lock
  -- can by themselves, at the same instant, come to a schedule in which nothing is due; the map is
  -- then untouched or as a purge at that instant leaves it.
  pub Runs-settle : {s : Shared T} → Runs s → (t : Shared T) × Settles s t
  Runs-settle {s} r = let h = Runs-IsWatched r in from_phase s.phase s refl h.sorted h.covers
