-- ===== src/Server/Listen/Telling.antt =====
-- What the tasks of `listen`, core/src/server.rs, take of the commands that their connections read,
-- and what they tell the client.
pub mod Reads
pub mod Rounds
use mathlib.Core.List.{append-nil, append_assoc}
use peer_to_peer_chat_system.Prelude.{
  ℕ, ◌≡◌, refl, sym, ap, ◌∙◌, Bool, true, false, none, some, Option, List, [], ◌∷◌, ◌++◌, All,
  Bool-cases, inl, inr,
}
use peer_to_peer_chat_system.Prelude.Text.{Text, text_eq_refl}
use peer_to_peer_chat_system.Frame.{Frame, ClientServerMessage}
use peer_to_peer_chat_system.Result.{Result, ok, err}
use peer_to_peer_chat_system.Connection.{take_frame}
use peer_to_peer_chat_system.Cmd.{Command, from_frame, origin, check_duplicate}
use peer_to_peer_chat_system.Node.{Node}
use peer_to_peer_chat_system.Server.Local.{local_message}
use peer_to_peer_chat_system.Server.Once.{
  Handled, here, handled, switched, purged_commands, purged_adjacent, Handled-check_duplicate,
}

-- The commands that were taken, each with the next sequence number of the server at that time.
abbrev pub Taken : Type 0
Taken = List (ℕ × Command)

-- What the client is told of them.
abbrev pub messages : Text → Taken → List ClientServerMessage
messages my_name [] = []
messages my_name ((number, c) ∷ t) = local_message my_name number c ++ messages my_name t

messages-append :
    (my_name : Text) (t u : Taken)
    → messages my_name (t ++ u) ≡ messages my_name t ++ messages my_name u
messages-append my_name [] u = refl
messages-append my_name ((number, c) ∷ t) u =
    ap (λ l. local_message my_name number c ++ l) (messages-append my_name t u)
    ∙ sym (append_assoc (local_message my_name number c) (messages my_name t) (messages my_name u))

-- No command with this one's source and sequence number is a duplicate.
abbrev pub IsNew : Node → ℕ × Command → Type 0
IsNew n c = (o : Text × ℕ) → origin c.1 ≡ some o → check_duplicate c.1 n.processed_commands ≡ false

-- Every command with this one's source and sequence number is a duplicate.
abbrev pub IsKnown : Node → ℕ × Command → Type 0
IsKnown n c =
    (d : Command) (o : Text × ℕ)
    → origin c.1 ≡ some o
    → origin d ≡ some o
    → check_duplicate d n.processed_commands ≡ true

abbrev pub Differ : ℕ × Command → ℕ × Command → Type 0
Differ c d = (o : Text × ℕ) → origin c.1 ≡ some o → origin d.1 ≡ some o → ⊥

-- No two have the same source and sequence number.
abbrev pub OnceEach : Taken → Type 0
OnceEach [] = Unit
OnceEach (c ∷ t) = All (Differ c) t × OnceEach t

Handled-trans :
    (my_name : Text) {n m k : Node}
    → Handled my_name n m
    → Handled my_name m k
    → Handled my_name n k
Handled-trans my_name h (here m) = h
Handled-trans my_name h (handled env c r) = handled env c (Handled-trans my_name h r)
Handled-trans my_name h (switched k r) = switched k (Handled-trans my_name h r)
Handled-trans my_name h (purged_commands now lasts r) =
    purged_commands now lasts (Handled-trans my_name h r)
Handled-trans my_name h (purged_adjacent now r) = purged_adjacent now (Handled-trans my_name h r)

Handled-IsNew :
    (my_name : Text) {n m : Node} (t : Taken)
    → Handled my_name n m
    → All (IsNew m) t
    → All (IsNew n) t
Handled-IsNew my_name [] r h = tt
Handled-IsNew my_name {n} ((number, c) ∷ t) r (new, h) = (
  λ o p. elim (Bool-cases (check_duplicate c n.processed_commands)) [
    | inl old ↦
        let known = Handled-check_duplicate my_name c o p old r in
        absurd (let clash : false ≡ true = sym (new o p) ∙ known in cc)
    | inr q ↦ q
  ],
  Handled-IsNew my_name t r h,
)

Handled-IsKnown :
    (my_name : Text) {n m : Node} (t : Taken)
    → Handled my_name n m
    → All (IsKnown n) t
    → All (IsKnown m) t
Handled-IsKnown my_name [] r h = tt
Handled-IsKnown my_name (c ∷ t) r (known, h) = (
  λ d o p q. Handled-check_duplicate my_name d o q (known d o p q) r,
  Handled-IsKnown my_name t r h,
)

Differ-known :
    (n : Node) (c : ℕ × Command) (u : Taken) → IsKnown n c → All (IsNew n) u → All (Differ c) u
Differ-known n c [] known h = tt
Differ-known n c (d ∷ u) known (new, h) = (
  λ o p q. let clash : false ≡ true = sym (new o q) ∙ known d.1 o p q in absurd (cc),
  Differ-known n c u known h,
)

All-append : (P : ℕ × Command → Type 0) (t u : Taken) → All P t → All P u → All P (t ++ u)
All-append P [] u h k = k
All-append P (c ∷ t) u (p, h) k = (p, All-append P t u h k)

OnceEach-append :
    (n : Node) (t u : Taken)
    → OnceEach t
    → OnceEach u
    → All (IsKnown n) t
    → All (IsNew n) u
    → OnceEach (t ++ u)
OnceEach-append n [] u h k known new = k
OnceEach-append n (c ∷ t) u (apart, h) k (known, rest) new = (
  All-append (Differ c) t u apart (Differ-known n c u known new),
  OnceEach-append n t u h k rest new,
)

-- From `n` to `m` the commands `t` were taken: they were new, are known, differ in their origins, and
-- are what the client is told of, if it can be told.
pub record Takes (my_name : Text) (Open : Type 0) (n m : Node) (t : Taken) : Type 0 where
  pub handles : Handled my_name n m
  pub new : All (IsNew n) t
  pub known : All (IsKnown m) t
  pub once : OnceEach t
  pub tells : Open → m.events ≡ n.events ++ messages my_name t

module _ (my_name : Text) (Open : Type 0) where
  pub Takes-refl : (n : Node) → Takes my_name Open n n []
  Takes-refl n = record {
    handles = here n;
    new = tt;
    known = tt;
    once = tt;
    tells = λ h. sym (append-nil n.events);
  }

  pub Takes-append :
      (n m k : Node) (t u : Taken)
      → Takes my_name Open n m t
      → Takes my_name Open m k u
      → Takes my_name Open n k (t ++ u)
  Takes-append n m k t u a b = record {
    handles = Handled-trans my_name a.handles b.handles;
    new = All-append (IsNew n) t u a.new (Handled-IsNew my_name u a.handles b.new);
    known = All-append (IsKnown k) t u (Handled-IsKnown my_name t b.handles a.known) b.known;
    once = OnceEach-append m t u a.once b.once a.known b.new;
    tells = λ h.
        b.tells h
        ∙ ap (λ l. l ++ messages my_name u) (a.tells h)
        ∙ append_assoc n.events (messages my_name t) (messages my_name u)
        ∙ ap (λ l. n.events ++ l) (sym (messages-append my_name t u));
  }
