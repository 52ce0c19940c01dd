-- ===== src/Util/TtlMap/Lookup.antt =====
-- What `get` of core/src/util/ttl_map.rs reads after the other operations.
use mathlib.Core.Option
use peer_to_peer_chat_system.Prelude.{
  ℕ, ◌≡◌, refl, ap, ◌+◌, ◌<◌, ◌∙◌, Option, none, some, arith, ltb, u64_mod, if◌then◌else◌,
}
use peer_to_peer_chat_system.Prelude.Text.{Text, text_eq, text_eq_iff}
use peer_to_peer_chat_system.Prelude.HashMap.{get-remove, get-insert}
use peer_to_peer_chat_system.Util.TtlMap
use peer_to_peer_chat_system.Util.TtlMap.{Entry, State, set, remove, purge_expired_keys}
use peer_to_peer_chat_system.Util.TtlMap.Invariant.{IsValid, set-IsValid}
use peer_to_peer_chat_system.Util.TtlMap.Purge.{purge_expired_keys-unexpired}

module _ {ℓ} {T : Type ℓ} where
  pub get-set :
      (now : ℕ) (k j : Text) (v : T) (x : Option ℕ) (st : State T)
      → TtlMap.get j (set now k v x st).0 ≡ (if text_eq k j then some v else TtlMap.get j st)
  unfolding TtlMap.get set
  get-set now k j v x st = rw get-insert (ground arith)

  pub remove-get :
      (k j : Text) (st : State T)
      → ((remove k st).0 ≡ TtlMap.get k st)
        × (TtlMap.get j (remove k st).1 ≡ (if text_eq k j then none else TtlMap.get j st))
  unfolding TtlMap.get remove
  remove-get k j st = (refl, rw get-remove (ground arith))

  -- A value that was set with a lifetime in a valid map, whose ids have not run out, is read after a
  -- purge exactly if its instant has not come.
  pub get-purge-set :
      (now t : ℕ) (k : Text) (v : T) (d : ℕ) (st : State T)
      → IsValid st
      → st.next_id + 1 < u64_mod
      → TtlMap.get k (purge_expired_keys t (set now k v (some d) st).0).0
        ≡ (if ltb t (now + d) then some v else none)
  get-purge-set now t k v d st h b =
      let valid = set-IsValid now k v (some d) st h b in
      let kept = (purge_expired_keys-unexpired t (set now k v (some d) st).0 valid).1 k in
      unfold TtlMap.get in
      ap (Option.map (λ (e : Entry T). e.value)) kept
      ∙ unfold set in rw get-insert (ground (arith, text_eq_iff k k))
