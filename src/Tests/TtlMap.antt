-- ===== src/Tests/TtlMap.antt =====
-- core/src/util/ttl_map.rs and core/src/util/counters.rs on concrete inputs.
use peer_to_peer_chat_system.Prelude.{
  ℕ, ◌≡◌, refl, ◌<◌, Bool, true, false, none, some, List, [], ◌∷◌, arith,
}
use peer_to_peer_chat_system.Prelude.Text.{Text, codes, text_eq}
use peer_to_peer_chat_system.Prelude.HashMap
use peer_to_peer_chat_system.Util.TtlMap
use peer_to_peer_chat_system.Util.TtlMap.{
  State, Entry, new, set, remove, forget, schedule, notifies, purge_expired_keys,
}
use peer_to_peer_chat_system.Util.TtlMap.Refines.{
  Call, sets, removes, purges, perform_all, promise_all, perform_all-Refines,
}
use mathlib.Core.Option
use peer_to_peer_chat_system.Util.TtlMap.BTreeMap.{insert_at, first}
use peer_to_peer_chat_system.Util.TtlMap.Invariant.{IsValid, new-IsValid, set-IsValid}
use peer_to_peer_chat_system.Util.TtlMap.Purge.{unexpired, purge_expired_keys-unexpired}
use peer_to_peer_chat_system.Util.TtlMap.Remove.{purge-set-remove}

abbrev entry : Entry Bool
entry = record { id = 0; value = true; expires_at = some 5 }

-- The map after `a` was set at 0 for 5.
abbrev held : State Bool
held = record {
  entries = (codes "a", entry) ∷ [];
  expirations = record { when = 5; id = 0; key = codes "a" } ∷ [];
  next_id = 1;
}

held_is : (set 0 (codes "a") true (some 5) new).0 ≡ held
unfolding set new HashMap.insert HashMap.get insert_at
held_is = refl

held-IsValid : IsValid held
held-IsValid =
    rw⁻¹ held_is
      (set-IsValid 0 (codes "a") true (some 5) new new-IsValid (unfold new in omega arith))

purge_example :
    let st' = (purge_expired_keys 7 held).0 in
    let next = (purge_expired_keys 7 held).1 in
    IsValid st'
    × ((k : Text) → HashMap.get k st'.entries ≡ unexpired 7 (HashMap.get k held.entries))
    × (next ≡ first st'.expirations)
    × ((t : ℕ) → next ≡ some t → 7 < t)
purge_example = purge_expired_keys-unexpired 7 held held-IsValid

purge-set-remove_example :
    TtlMap.get
      (codes "a")
      (purge_expired_keys 6 (set 2 (codes "a") false none (remove (codes "a") held).1).0).0
    ≡ none
unfolding HashMap.get text_eq
purge-set-remove_example =
    purge-set-remove held (codes "a") entry 5 2 6 false held-IsValid refl refl (omega arith)

abbrev calls : List (Call Bool)
calls =
    sets 0 (codes "a") true none
    ∷ sets 1 (codes "b") false (some 5)
    ∷ removes (codes "a")
    ∷ purges 5
    ∷ []

perform_all-Refines_example :
    TtlMap.get (codes "b") (perform_all calls new)
    ≡ Option.map (λ v. v.0) (promise_all calls (λ _. none) (codes "b"))
unfolding text_eq
perform_all-Refines_example = perform_all-Refines calls (omega arith) (refl, tt) (codes "b")
