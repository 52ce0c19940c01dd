-- ===== src/Util/TtlMap.antt =====
-- core/src/util/ttl_map.rs: `TtlMap`, a map from strings whose entries may expire. The mutex makes
-- each method one step on `State`; `Instant::now()` is an argument.
pub mod BTreeMap
pub mod Invariant
pub mod Purge
pub mod Remove
pub mod Lookup
pub mod Background
pub mod NoneBefore
pub mod Wakes
pub mod Progress
pub mod RandomKeys
pub mod Refines
use peer_to_peer_chat_system.Prelude.{
  ℕ, ◌+◌, ◌%◌, Bool, true, false, Option, none, some, List, [], ◌∷◌, ltb, u64_mod, if◌then◌else◌,
}
use peer_to_peer_chat_system.Prelude.Text.{Text}
use peer_to_peer_chat_system.Prelude.HashMap
use peer_to_peer_chat_system.Prelude.HashMap.{HashMap}
use BTreeMap.{Expiration, Expirations, insert_at, remove_at, first}
use mathlib.Core.Option

module _ {ℓ} (T : Type ℓ) where
  pub record Entry : Type ℓ where
    pub id : ℕ
    pub value : T
    pub expires_at : Option ℕ

  pub record State : Type ℓ where
    pub entries : HashMap Entry
    pub expirations : Expirations
    pub next_id : ℕ

-- `when`, if the entry is to expire, and the expirations with it.
unfoldable pub schedule : Text → ℕ → Option ℕ → Expirations → Expirations
schedule key id none l = l
schedule key id (some w) l = insert_at w id key l

-- Whether the background task has to wake earlier.
unfoldable pub notifies : Option ℕ → Option ℕ → Bool
notifies none _ = false
notifies (some w) none = true
notifies (some w) (some t) = ltb w t

module _ {ℓ} {T : Type ℓ} where
  unfoldable pub new : State T
  new = record { entries = []; expirations = []; next_id = 0 }

  unfoldable pub get : Text → State T → Option T
  get key st = Option.map (λ e. e.value) (HashMap.get key st.entries)

  -- The expirations are left as they are.
  unfoldable pub remove : Text → State T → Option T × State T
  remove key st = (get key st, record st { entries = HashMap.remove key st.entries })

  abbrev pub next_expiration : State T → Option ℕ
  next_expiration st = first st.expirations

  -- The `expirations.remove(&(when, prev.id))` for the entry that was overwritten.
  unfoldable pub forget : Option (Entry T) → Expirations → Expirations
  forget none l = l
  forget (some prev) l = elim prev.expires_at [ none ↦ l | some w ↦ remove_at w prev.id l ]

  -- The map after the call, and whether the background task is notified.
  unfoldable pub set : ℕ → Text → T → Option ℕ → State T → State T × Bool
  unfolding forget schedule notifies
  set now key value expire st =
      let id = st.next_id in
      let expires_at = Option.map (λ duration. now + duration) expire in
      let prev = HashMap.get key st.entries in
      (
        record {
          entries =
              HashMap.insert key (record { id = id; value = value; expires_at = expires_at })
                st.entries;
          expirations = forget prev (schedule key id expires_at st.expirations);
          next_id = (id + 1) % u64_mod;
        },
        notifies expires_at (next_expiration st),
      )

  -- The loop of `purge_expired_keys`. `expirations.remove(&(when, id))` takes away the first item.
  unfoldable pub purge_loop :
      ℕ → HashMap (Entry T) → Expirations → HashMap (Entry T) × Expirations × Option ℕ
  purge_loop now entries [] = (entries, [], none)
  purge_loop now entries (e ∷ l) =
      let rest = purge_loop now (HashMap.remove e.key entries) l in
      if ltb now e.when then (entries, e ∷ l, some e.when) else rest

  -- The map without what has expired, and the instant at which the next entry expires.
  unfoldable pub purge_expired_keys : ℕ → State T → State T × Option ℕ
  unfolding purge_loop
  purge_expired_keys now st =
      let (entries, expirations, next) = purge_loop now st.entries st.expirations in
      (record st { entries = entries; expirations = expirations }, next)
