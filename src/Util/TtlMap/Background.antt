-- ===== src/Util/TtlMap/Background.antt =====
-- core/src/util/ttl_map.rs: the task `purge_expired_tasks` beside the callers of the map. The
-- `Notify` holds at most one permit. Each step is one critical section, one call of `notify_one`, or
-- one wait that ends.
use peer_to_peer_chat_system.Prelude.{ℕ, suc, ◌+◌, ◌≡◌, ◌≤◌, Bool, true, false, Option, none, some}
use peer_to_peer_chat_system.Prelude.Text.{Text}
use peer_to_peer_chat_system.Util.TtlMap.{State, new, set, remove, purge_expired_keys}

-- Where the task is: before `purge_expired_keys`, in the `select!` with `sleep_until`, or in the
-- `notified` alone.
pub data Phase : Type 0 where
  purging waiting : Phase
  sleeping : ℕ → Phase

-- The field `background_task` is whether there is a permit; `owed` counts the calls of `set` that
-- have dropped the lock and not yet called `notify_one`.
pub record Shared {ℓ} (T : Type ℓ) : Type ℓ where
  pub state : State T
  pub background_task : Bool
  pub phase : Phase
  pub owed : ℕ
  pub clock : ℕ

unfoldable pub phase_after : Option ℕ → Phase
phase_after none = waiting
phase_after (some w) = sleeping w

unfoldable pub owed_after : Bool → ℕ → ℕ
owed_after true n = suc n
owed_after false n = n

module _ {ℓ} {T : Type ℓ} where
  -- `TtlMap::new`, with the task spawned.
  unfoldable pub start : ℕ → Shared T
  start now = record {
    state = new;
    background_task = false;
    phase = purging;
    owed = 0;
    clock = now;
  }

  unfoldable pub locked_set : Text → T → Option ℕ → Shared T → Shared T
  unfolding owed_after
  locked_set key value expire s =
      let (st, notify) = set s.clock key value expire s.state in
      record s { state = st; owed = owed_after notify s.owed }

  unfoldable pub locked_remove : Text → Shared T → Shared T
  locked_remove key s = record s { state = (remove key s.state).1 }

  -- The head of the loop of `purge_expired_tasks`.
  unfoldable pub purge : Shared T → Shared T
  unfolding phase_after
  purge s =
      let (st, next) = purge_expired_keys s.clock s.state in
      record s { state = st; phase = phase_after next }

  unfoldable pub notify_one : ℕ → Shared T → Shared T
  notify_one owed s = record s { background_task = true; owed = owed }

  unfoldable pub wake : Shared T → Shared T
  wake s = record s { phase = purging }

  unfoldable pub notified : Shared T → Shared T
  notified s = record s { background_task = false; phase = purging }

  -- What goes on by itself: calls of `set` that end, and the task.
  pub data Serve : Shared T → Shared T → Type ℓ where
    ends_set : {s : Shared T} (owed : ℕ) → s.owed ≡ suc owed → Serve s (notify_one owed s)
    purges : {s : Shared T} → s.phase ≡ purging → Serve s (purge s)
    wakes : {s : Shared T} (w : ℕ) → s.phase ≡ sleeping w → w ≤ s.clock → Serve s (wake s)
    notified_asleep :
        {s : Shared T} (w : ℕ)
        → s.phase ≡ sleeping w
        → s.background_task ≡ true
        → Serve s (notified s)
    notified_waiting :
        {s : Shared T} → s.phase ≡ waiting → s.background_task ≡ true → Serve s (notified s)

  pub data Serves : Shared T → Shared T → Type ℓ where
    rests : {s : Shared T} → Serves s s
    goes_on : {s t u : Shared T} → Serve s t → Serves t u → Serves s u

  -- What can be reached when the clock moves and other tasks call the map.
  pub data Runs : Shared T → Type ℓ where
    started : (now : ℕ) → Runs (start now)
    passes : {s : Shared T} (d : ℕ) → Runs s → Runs (record s { clock = s.clock + d })
    sets :
        {s : Shared T} (key : Text) (value : T) (expire : Option ℕ)
        → Runs s
        → Runs (locked_set key value expire s)
    removes : {s : Shared T} (key : Text) → Runs s → Runs (locked_remove key s)
    serves : {s t : Shared T} → Runs s → Serve s t → Runs t
