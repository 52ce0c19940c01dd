-- ===== src/PeerMap/Distinct.antt =====
-- The invariant of a `PeerMap`: no name and no channel stands twice in it, and the channels in it
-- were created.
use peer_to_peer_chat_system.Prelude.{
  ℕ, ◌≡◌, ◌≢◌, ◌<◌, ◌+◌, [], ◌∷◌, arith, All, Bool-cases, inl, inr,
}
use peer_to_peer_chat_system.Prelude.Text.{Text, text_eq, text_eq_iff}
use peer_to_peer_chat_system.Prelude.HashMap
use peer_to_peer_chat_system.Prelude.HashMap.{HashMap}
use peer_to_peer_chat_system.PeerMap.{PeerMap, new, insert, remove}

abbrev pub Apart : Text → ℕ → Text × ℕ → Type 0
Apart k c e = (e.0 ≢ k) × (e.1 ≢ c)

abbrev pub Distinct : HashMap ℕ → Type 0
Distinct [] = Unit
Distinct ((k, c) ∷ m) = All (Apart k c) m × Distinct m

abbrev Below : ℕ → Text × ℕ → Type 0
Below n e = e.1 < n

pub record IsValid (p : PeerMap) : Type 0 where
  pub distinct : Distinct p.entries
  pub created : All (Below p.next_channel) p.entries

pub new-IsValid : IsValid new
unfolding new
new-IsValid = record { distinct = tt; created = tt }

module _ (P : Text × ℕ → Type 0) where
  insert-All :
      (k : Text) (c : ℕ) (m : HashMap ℕ) → All P m → P (k, c) → All P (HashMap.insert k c m)
  unfolding HashMap.insert
  insert-All k c [] h q = (q, tt)
  insert-All k c ((j, d) ∷ m) (p, h) q = elim (Bool-cases (text_eq j k)) [
    | inl t ↦ rw t (q, h)
    | inr t ↦ rw t (p, insert-All k c m h q)
  ]

  remove-All : (k : Text) (m : HashMap ℕ) → All P m → All P (HashMap.remove k m)
  unfolding HashMap.remove
  remove-All k [] h = tt
  remove-All k ((j, d) ∷ m) (p, h) = elim (Bool-cases (text_eq j k)) [
    | inl t ↦ rw t (remove-All k m h)
    | inr t ↦ rw t (p, remove-All k m h)
  ]

remove-Distinct : (k : Text) (m : HashMap ℕ) → Distinct m → Distinct (HashMap.remove k m)
unfolding HashMap.remove
remove-Distinct k [] h = tt
remove-Distinct k ((j, d) ∷ m) (a, h) = elim (Bool-cases (text_eq j k)) [
  | inl t ↦ rw t (remove-Distinct k m h)
  | inr t ↦ rw t (remove-All (Apart j d) k m a, remove-Distinct k m h)
]

-- A channel above all that are in the map is apart from each.
fresh-Apart :
    (j k : Text) (d c : ℕ) (m : HashMap ℕ)
    → j ≡ k
    → All (Apart j d) m
    → All (Below c) m
    → All (Apart k c) m
fresh-Apart j k d c [] e a b = tt
fresh-Apart j k d c ((i, x) ∷ m) e (p, a) (q, b) =
    ((λ s. p.0 (ground arith), omega arith), fresh-Apart j k d c m e a b)

insert-Distinct :
    (k : Text) (c : ℕ) (m : HashMap ℕ)
    → Distinct m
    → All (Below c) m
    → Distinct (HashMap.insert k c m)
unfolding HashMap.insert
insert-Distinct k c [] h b = (tt, tt)
insert-Distinct k c ((j, d) ∷ m) (a, h) (q, b) = elim (Bool-cases (text_eq j k)) [
  | inl t ↦ rw t (fresh-Apart j k d c m ((text_eq_iff j k).0 t) a b, h)
  | inr t ↦ rw t (
    insert-All (Apart j d) k c m a (λ s. ground (arith, text_eq_iff j k), omega arith),
    insert-Distinct k c m h b,
  )
]

All-Below_suc : (n : ℕ) (m : HashMap ℕ) → All (Below n) m → All (Below (n + 1)) m
All-Below_suc n [] h = tt
All-Below_suc n (e ∷ m) (p, h) = (omega arith, All-Below_suc n m h)

-- Inserting the channel that is created next, under any name, keeps the invariant.
pub insert-IsValid :
    (name : Text) (p : PeerMap)
    → IsValid p
    → IsValid (insert name p.next_channel (record p { next_channel = p.next_channel + 1 })).0
unfolding insert
insert-IsValid name p h = record {
  distinct = insert-Distinct name p.next_channel p.entries h.distinct h.created;
  created =
      insert-All (Below (p.next_channel + 1)) name p.next_channel p.entries
        (All-Below_suc p.next_channel p.entries h.created) (omega arith);
}

pub fresh-IsValid :
    (p : PeerMap) → IsValid p → IsValid (record p { next_channel = p.next_channel + 1 })
fresh-IsValid p h = record {
  distinct = h.distinct;
  created = All-Below_suc p.next_channel p.entries h.created;
}

pub remove-IsValid : (name : Text) (p : PeerMap) → IsValid p → IsValid (remove name p).0
unfolding remove
remove-IsValid name p h = record {
  distinct = remove-Distinct name p.entries h.distinct;
  created = remove-All (Below p.next_channel) name p.entries h.created;
}
