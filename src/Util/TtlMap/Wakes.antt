-- ===== src/Util/TtlMap/Wakes.antt =====
-- No wake-up of the task `purge_expired_tasks` of core/src/util/ttl_map.rs is lost.
use mathlib.Core.Option
use peer_to_peer_chat_system.Prelude.{
  ℕ, suc, ◌+◌, ◌≡◌, ◌≢◌, ◌⊎◌, inl, inr, refl, Bool, true, false, Option, none, some, [], arith,
  Bool-cases,
}
use peer_to_peer_chat_system.Prelude.Text.{Text}
use peer_to_peer_chat_system.Prelude.HashMap
use peer_to_peer_chat_system.Prelude.HashMap.{HashMap}
use peer_to_peer_chat_system.Util.TtlMap.{
  new, set, remove, purge_expired_keys, forget, schedule, notifies,
}
use peer_to_peer_chat_system.Util.TtlMap.BTreeMap.{Expirations, first, IsSorted, remove_at-IsSorted}
use peer_to_peer_chat_system.Util.TtlMap.Background.{
  Phase, purging, waiting, sleeping, Shared, Serve, Runs, start, locked_set, locked_remove, purge,
  notify_one, wake, notified, phase_after, owed_after, ends_set, purges, wakes, notified_asleep,
  notified_waiting, started, passes, sets, removes, serves,
}
use peer_to_peer_chat_system.Util.TtlMap.NoneBefore.{
  NoneBefore, NoneBefore-remove_at, NoneBefore-schedule, schedule_empty, IsSorted-schedule,
  remove_at-empty, forget_keeps, purge_loop-NoneBefore,
}

module _ {ℓ} {T : Type ℓ} where
  -- A permit is there, or is about to be given.
  abbrev pub Alarm : Shared T → Type 0
  Alarm s = (s.background_task ≡ true) ⊎ (s.owed ≢ 0)

  abbrev pub Covers : Shared T → Phase → Type 0
  Covers s purging = Unit
  Covers s (sleeping w) = Alarm s ⊎ NoneBefore w s.state.expirations
  Covers s waiting = Alarm s ⊎ (s.state.expirations ≡ [])

  -- While the task waits, there is an alarm, or nothing is due before it wakes.
  pub record IsWatched (s : Shared T) : Type 0 where
    pub sorted : IsSorted s.state.expirations
    pub covers : Covers s s.phase

owed_after-alarms : (b : Bool) (n : ℕ) → (b ≡ true) ⊎ (n ≢ 0) → owed_after b n ≢ 0
unfolding owed_after
owed_after-alarms true n h = λ e. omega arith
owed_after-alarms false n (inl h) = cc
owed_after-alarms false n (inr h) = h

module _ {ℓ} {T : Type ℓ} where
  module _ (key : Text) (value : T) (expire : Option ℕ) (s : Shared T) where
    abbrev expires_at : Option ℕ
    expires_at = Option.map (λ duration. s.clock + duration) expire

    abbrev notify : Bool
    notify = notifies expires_at (first s.state.expirations)

    abbrev rescheduled : Expirations
    rescheduled =
        forget (HashMap.get key s.state.entries)
          (schedule key s.state.next_id expires_at s.state.expirations)

    -- An alarm goes on, and a call that notifies gives one.
    keeps_ringing : (notify ≡ true) ⊎ Alarm s → Alarm (locked_set key value expire s)
    unfolding locked_set set
    keeps_ringing (inl h) = inr (owed_after-alarms notify s.owed (inl h))
    keeps_ringing (inr (inl h)) = inl h
    keeps_ringing (inr (inr h)) = inr (owed_after-alarms notify s.owed (inr h))

    or_silent : {P : Type 0} → (notify ≡ false → P) → Alarm (locked_set key value expire s) ⊎ P
    or_silent f = elim (Bool-cases notify) [
      | inl b ↦ inl (keeps_ringing (inl b))
      | inr b ↦ inr (f b)
    ]

    locked_set-Covers : (p : Phase) → Covers s p → Covers (locked_set key value expire s) p
    unfolding locked_set set first
    locked_set-Covers purging h = tt
    locked_set-Covers (sleeping w) (inl a) = inl (keeps_ringing (inr a))
    locked_set-Covers (sleeping w) (inr a) = or_silent (λ b.
        forget_keeps (NoneBefore w) (NoneBefore-remove_at w) (HashMap.get key s.state.entries) _
          (NoneBefore-schedule w s.state.next_id key expires_at s.state.expirations b a))
    locked_set-Covers waiting (inl a) = inl (keeps_ringing (inr a))
    locked_set-Covers waiting (inr e) = or_silent (λ b.
        forget_keeps (λ l. l ≡ []) remove_at-empty (HashMap.get key s.state.entries) _
          (rw e (schedule_empty s.state.next_id key expires_at (rw e at b))))

  locked_set-IsWatched :
      (key : Text) (value : T) (expire : Option ℕ) (s : Shared T)
      → IsWatched s
      → IsWatched (locked_set key value expire s)
  unfolding locked_set set
  locked_set-IsWatched key value expire s h =
      let x = Option.map (λ duration. s.clock + duration) expire in
      record {
        sorted =
            forget_keeps IsSorted remove_at-IsSorted _ _
              (IsSorted-schedule s.state.next_id key x s.state.expirations h.sorted);
        covers = locked_set-Covers key value expire s s.phase h.covers;
      }

  phase_after-Covers :
      (t : Shared T) (o : Option ℕ)
      → (o ≡ none → t.state.expirations ≡ [])
      → ((w : ℕ) → o ≡ some w → NoneBefore w t.state.expirations)
      → Covers t (phase_after o)
  unfolding phase_after
  phase_after-Covers t none f g = inr (f refl)
  phase_after-Covers t (some w) f g = inr (g w refl)

  Alarm-Covers : (t : Shared T) (p : Phase) → Alarm t → Covers t p
  Alarm-Covers t purging a = tt
  Alarm-Covers t (sleeping w) a = inl a
  Alarm-Covers t waiting a = inl a

  -- What `purge` makes of a sorted schedule: nothing due is left, and the task waits for the rest.
  pub purge-IsWatched :
      (s : Shared T)
      → IsSorted s.state.expirations
      → IsWatched (purge s) × NoneBefore (suc s.clock) (purge s).state.expirations
  unfolding purge purge_expired_keys phase_after
  purge-IsWatched s h =
      let (sorted, ahead, none_left, next) =
        purge_loop-NoneBefore s.clock s.state.entries s.state.expirations h in
      (record { sorted = sorted; covers = phase_after-Covers (purge s) _ none_left next }, ahead)

  Serve-IsWatched : {s t : Shared T} → Serve s t → IsWatched s → IsWatched t
  unfolding notify_one wake notified
  Serve-IsWatched (ends_set {s = s} owed e) h = record {
    sorted = h.sorted;
    covers = Alarm-Covers (notify_one owed s) s.phase (inl refl);
  }
  Serve-IsWatched (purges {s = s} e) h = (purge-IsWatched s h.sorted).0
  Serve-IsWatched (wakes w e l) h = record { sorted = h.sorted; covers = tt }
  Serve-IsWatched (notified_asleep w e p) h = record { sorted = h.sorted; covers = tt }
  Serve-IsWatched (notified_waiting e p) h = record { sorted = h.sorted; covers = tt }

  -- In every run of the map, its callers and its background task, the schedule is sorted, and while
  -- the task waits there is a permit, or a call of set that will give one, or no item is due before
  -- the task wakes: no notification is lost.
  pub Runs-IsWatched : {s : Shared T} → Runs s → IsWatched s
  unfolding start new locked_remove remove
  Runs-IsWatched (started now) = record { sorted = tt; covers = tt }
  Runs-IsWatched (passes d r) =
      let h = Runs-IsWatched r in record { sorted = h.sorted; covers = h.covers }
  Runs-IsWatched (sets {s = s} key value expire r) =
      locked_set-IsWatched key value expire s (Runs-IsWatched r)
  Runs-IsWatched (removes key r) =
      let h = Runs-IsWatched r in record { sorted = h.sorted; covers = h.covers }
  Runs-IsWatched (serves r step) = Serve-IsWatched step (Runs-IsWatched r)
