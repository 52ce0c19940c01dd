-- ===== src/Util/TtlMap/NoneBefore.antt =====
-- What the operations of core/src/util/ttl_map.rs on the schedule leave due before an instant.

use peer_to_peer_chat_system.Prelude.{
  ℕ, suc, ◌≡◌, ◌≤◌, inl, inr, refl, false, Option, none, some, [], ◌∷◌, All, arith, ltb, Bool-cases,
  Option-cases, ltb→lt,
}
use peer_to_peer_chat_system.Prelude.Text.{Text}
use peer_to_peer_chat_system.Prelude.HashMap
use peer_to_peer_chat_system.Prelude.HashMap.{HashMap}
use peer_to_peer_chat_system.Util.TtlMap.{Entry, purge_loop, forget, schedule, notifies}
use peer_to_peer_chat_system.Util.TtlMap.BTreeMap.{
  Expiration, Expirations, insert_at, remove_at, first, Before, IsSorted, insert_at-IsSorted,
}

-- No item is due before `w`.
abbrev pub NoneBefore : ℕ → Expirations → Type 0
NoneBefore w = All (λ e. w ≤ e.when)

NoneBefore-insert_at :
    (w v i : ℕ) (k : Text) (l : Expirations)
    → w ≤ v
    → NoneBefore w l
    → NoneBefore w (insert_at v i k l)
unfolding insert_at
NoneBefore-insert_at w v i k [] h a = (h, tt)
NoneBefore-insert_at w v i k (e ∷ l) h a = ground (arith, NoneBefore-insert_at w v i k l)

pub NoneBefore-remove_at :
    (w v i : ℕ) (l : Expirations) → NoneBefore w l → NoneBefore w (remove_at v i l)
unfolding remove_at
NoneBefore-remove_at w v i [] a = tt
NoneBefore-remove_at w v i (e ∷ l) a = ground (arith, NoneBefore-remove_at w v i l)

-- An item that no earlier one announces leads to no notification only behind another.
pub NoneBefore-schedule :
    (w i : ℕ) (k : Text) (x : Option ℕ) (l : Expirations)
    → notifies x (first l) ≡ false
    → NoneBefore w l
    → NoneBefore w (schedule k i x l)
unfolding notifies first schedule
NoneBefore-schedule w i k none l q a = a
NoneBefore-schedule w i k (some v) [] q a = cc
NoneBefore-schedule w i k (some v) (e ∷ l) q a =
    NoneBefore-insert_at w v i k (e ∷ l) (ground arith) a

pub schedule_empty :
    (i : ℕ) (k : Text) (x : Option ℕ) → notifies x none ≡ false → schedule k i x [] ≡ []
unfolding notifies schedule
schedule_empty i k none q = refl
schedule_empty i k (some v) q = cc

pub IsSorted-schedule :
    (i : ℕ) (k : Text) (x : Option ℕ) (l : Expirations) → IsSorted l → IsSorted (schedule k i x l)
unfolding schedule
IsSorted-schedule i k none l s = s
IsSorted-schedule i k (some v) l s = insert_at-IsSorted v i k l s

NoneBefore-weaken :
    (e : Expiration) (w : ℕ) (l : Expirations) → w ≤ e.when → All (Before e) l → NoneBefore w l
NoneBefore-weaken e w [] h a = tt
NoneBefore-weaken e w (f ∷ l) h (b, a) = (omega arith, NoneBefore-weaken e w l h a)

NoneBefore-front :
    (e : Expiration) (w : ℕ) (l : Expirations)
    → w ≤ e.when
    → All (Before e) l
    → NoneBefore w (e ∷ l)
NoneBefore-front e w l h a = (h, NoneBefore-weaken e w l h a)

pub remove_at-empty : (w i : ℕ) (l : Expirations) → l ≡ [] → remove_at w i l ≡ []
unfolding remove_at
remove_at-empty w i l h = rw h refl

module _ {ℓ} {T : Type ℓ} where
  -- What holds of a schedule still holds when the item of an overwritten entry goes.
  pub forget_keeps :
      (P : Expirations → Type 0)
      → ((w i : ℕ) (l : Expirations) → P l → P (remove_at w i l))
      → (o : Option (Entry T)) (l : Expirations) → P l
      → P (forget o l)
  unfolding forget
  forget_keeps P f none l h = h
  forget_keeps P f (some o) l h = elim (Option-cases o.expires_at) [
    | inl p ↦ rw p h
    | inr (v, p) ↦ rw p (f v o.id l h)
  ]

  pub purge_loop-NoneBefore :
      (now : ℕ) (entries : HashMap (Entry T)) (l : Expirations)
      → IsSorted l
      → let kept = (purge_loop now entries l).1 in
        IsSorted kept
        × NoneBefore (suc now) kept
        × ((purge_loop now entries l).2 ≡ none → kept ≡ [])
        × ((w : ℕ) → (purge_loop now entries l).2 ≡ some w → NoneBefore w kept)
  unfolding purge_loop
  purge_loop-NoneBefore now entries [] h = (tt, tt, λ e. refl, λ w e. tt)
  purge_loop-NoneBefore now entries (e ∷ l) (a, h) = elim (Bool-cases (ltb now e.when)) [
    | inl b ↦
        let lt = ltb→lt now e.when b in
        rw b (
          (a, h),
          NoneBefore-front e (suc now) l (omega arith) a,
          λ q. cc,
          λ w q. NoneBefore-front e w l (ground arith) a,
        )
    | inr b ↦ rw b (purge_loop-NoneBefore now (HashMap.remove e.key entries) l h)
  ]
