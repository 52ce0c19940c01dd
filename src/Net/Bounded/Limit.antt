-- ===== src/Net/Bounded/Limit.antt =====
-- A network of servers of core/src/server.rs sends a command boundedly often.
use peer_to_peer_chat_system.Prelude.{ℕ, ◌≤◌, refl, ◌+◌, List, [], ◌∷◌, arith, Bool-cases, inl, inr}
use peer_to_peer_chat_system.Prelude.Text.{Text, text_eq, text_eq_iff, text_eq_refl}
use peer_to_peer_chat_system.Frame.{Frame, frame}
use peer_to_peer_chat_system.PeerMap.Distinct.{Distinct}
use peer_to_peer_chat_system.Node.{Node, Env}
use peer_to_peer_chat_system.Server.{handle_frame}
use peer_to_peer_chat_system.Net.{Network, update, send_next, deliver}
use peer_to_peer_chat_system.Net.Bounded.Weights.{weight}
use peer_to_peer_chat_system.Net.Bounded.Handles.{load, handle_frame-load}
use peer_to_peer_chat_system.Net.Bounded.Moves.{
  Among, Moves, here, speaks, announces, delivers, Lightens, spoken-Lightens, announced-Lightens,
  sent-Lightens,
}

-- The loads of the servers.
abbrev pub total : Text × ℕ → List Text → Network → ℕ
total o [] net = 0
total o (a ∷ names) net = load o (net a) + total o names net

module _ (o : Text × ℕ) where
  module _ (net net' : Network) where
    -- The loads add up.
    total-le :
        (names : List Text)
        → ((d : Text) → load o (net' d) ≤ load o (net d))
        → total o names net' ≤ total o names net
    total-le [] h = omega arith
    total-le (a ∷ names) h = omega (arith, h a, total-le names h)

    total-drops :
        (names : List Text) (a : Text) (w : ℕ)
        → ((d : Text) → load o (net' d) ≤ load o (net d))
        → load o (net' a) + w ≤ load o (net a)
        → Among a names
        → total o names net' + w ≤ total o names net
    total-drops [] a w h drop among = absurd among
    total-drops (b ∷ names) a w h drop (inl e) =
        let here : load o (net' b) + w ≤ load o (net b) = rw e drop in
        omega (arith, total-le names h)
    total-drops (b ∷ names) a w h drop (inr among) =
        omega (arith, h b, total-drops names a w h drop among)

  -- Where only the server `a` changes.
  update-Lightens :
      (a : Text) (n : Node) (net : Network)
      → Lightens o 0 (net a) n
      → (d : Text) → Lightens o 0 (net d) (update a n net d)
  update-Lightens a n net h d = elim (Bool-cases (text_eq d a)) [
    | inl t ↦ rw t (rw ((text_eq_iff d a).0 t) h)
    | inr t ↦ rw t (omega arith, refl)
  ]

  lighter : (w : ℕ) (n n' : Node) → Lightens o w n n' → Lightens o 0 n n'
  lighter w n n' (h, e) = (omega arith, e)

  abbrev AllDistinct : Network → Type 0
  AllDistinct net = (d : Text) → Distinct (net d).peers.entries

  Lightens-AllDistinct :
      (net net' : Network)
      → ((d : Text) → Lightens o 0 (net d) (net' d))
      → AllDistinct net
      → AllDistinct net'
  Lightens-AllDistinct net net' h v d = rw (h d).1 (v d)

  module _ (names : List Text) (start : Network) (valid : AllDistinct start) where
    -- What was sent and what is left to send.
    abbrev InBudget : ℕ → Network → Type 0
    InBudget k net = AllDistinct net × (k + total o names net ≤ total o names start)

    moved-InBudget :
        (k : ℕ) (a : Text) (n : Node) (net : Network)
        → InBudget k net
        → Lightens o 0 (net a) n
        → InBudget k (update a n net)
    moved-InBudget k a n net (v, b) h =
        let lights = update-Lightens a n net h in
        (
          Lightens-AllDistinct net (update a n net) lights v,
          let shrinks = total-le net (update a n net) names (λ d. omega (arith, (lights d).0)) in
              omega (arith, shrinks),
        )

    delivered-InBudget :
        (k w : ℕ) (a b : Text) (n : Node) (g : Frame) (env : Env) (net : Network)
        → InBudget k net
        → Among a names
        → Lightens o w (net a) n
        → let net' = update a n net in
          InBudget (k + w) (update b (handle_frame env b g (net' b)).1 net')
    delivered-InBudget k w a b n g env net (v, h) among light =
        let net' = update a n net in
        let lights = update-Lightens a n net (lighter w (net a) n light) in
        let v' = Lightens-AllDistinct net net' lights v in
        let here : load o (net' a) + w ≤ load o (net a) =
          rw (text_eq_refl a) (omega (arith, light.0)) in
        let shrinks =
          total-drops net net' names a w (λ d. omega (arith, (lights d).0)) here among in
        let (handles, kept) = handle_frame-load o env b g (net' b) (v' b) in
        moved-InBudget (k + w) b (handle_frame env b g (net' b)).1 net' (v', omega (arith, shrinks))
          (omega (arith, handles), kept)

    Moves-InBudget : {k : ℕ} {net : Network} → Moves names o start k net → InBudget k net
    unfolding deliver
    Moves-InBudget here = (valid, omega arith)
    Moves-InBudget (speaks {k} {net} a m n r h other) =
        let b = Moves-InBudget r in
        moved-InBudget k a n net b (spoken-Lightens o m (net a) n (b.0 a) h other)
    Moves-InBudget (announces {k} {net} a ip_address port num max d r other) =
        let b = Moves-InBudget r in
        moved-InBudget k a _ net b
          (announced-Lightens o a ip_address port num max d (net a) (b.0 a) other)
    Moves-InBudget (delivers {k} {net} a d c g rest env r among e q) =
        let b = Moves-InBudget r in
        delivered-InBudget k (weight o (frame g)) a d (send_next d c (net a)) g env net b among
          (sent-Lightens o d c g rest (net a) (b.0 a) e q)

  -- A command that is no pong is sent boundedly often, where each server handles a frame as a whole
  -- before the next: in any such moves of the network in which nobody else speaks or announces under
  -- its source and sequence number and no connection begins or ends and no table entry expires, the
  -- frames of it that servers among `names` send are no more than waited at the start in the
  -- channels to their peers, and the peers of those servers that did not have it in their tables, if
  -- no channel stood twice in a peer map. Two tasks of a server that handle the same command at the
  -- same time are not among these moves.
  pub Moves-bounded :
      (names : List Text) (start : Network) (k : ℕ) (net : Network)
      → ((d : Text) → Distinct (start d).peers.entries)
      → Moves names o start k net
      → k ≤ total o names start
  Moves-bounded names start k net v r = omega (arith, (Moves-InBudget names start v r).1)
