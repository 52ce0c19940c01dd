-- ===== src/Net/Bounded/Weights.antt =====
-- How often a command waits in the channels of core/src/peer_map.rs, and what a broadcast adds.
use peer_to_peer_chat_system.Prelude.{
  ℕ, ◌≡◌, ◌≤◌, refl, ◌+◌, ◌==◌, ◌&&◌, Bool, true, false, Option, none, some, List, [], ◌∷◌, ◌++◌,
  All, arith, if◌then◌else◌, Bool-cases, inl, inr, length,
}
use peer_to_peer_chat_system.Prelude.Text.{Text, text_eq}
use peer_to_peer_chat_system.Prelude.HashMap
use peer_to_peer_chat_system.Prelude.HashMap.{HashMap}
use peer_to_peer_chat_system.Frame.{Frame, PeerControlMessage, shut_down, frame}
use peer_to_peer_chat_system.Result.{Result, ok, err}
use peer_to_peer_chat_system.PeerMap
use peer_to_peer_chat_system.PeerMap.{Channel, Channels, push, update, broadcast_loop}
use peer_to_peer_chat_system.PeerMap.Distinct.{Distinct, Apart}
use peer_to_peer_chat_system.Cmd.{Command, pong, origin, from_frame}

abbrev pub matches : Text × ℕ → Option (Text × ℕ) → Bool
matches o none = false
matches o (some p) = text_eq p.0 o.0 && p.1 == o.1

abbrev pub is_pong : Command → Bool
is_pong (pong c) = true
is_pong c = false

-- The command is no pong and has this source and sequence number.
abbrev pub is_from : Text × ℕ → Command → Bool
is_from o c = if is_pong c then false else matches o (origin c)

abbrev pub carried : Text × ℕ → Result Command → Bool
carried o (ok c) = is_from o c
carried o (err e) = false

abbrev pub one_if : Bool → ℕ
one_if true = 1
one_if false = 0

-- 1 for a frame that is read as such a command.
abbrev pub weight : Text × ℕ → PeerControlMessage → ℕ
weight o (frame f) = one_if (carried o (from_frame f))
weight o shut_down = 0

abbrev pub queued : Text × ℕ → List PeerControlMessage → ℕ
queued o [] = 0
queued o (m ∷ l) = weight o m + queued o l

-- How many such frames wait in the channels of the peers.
abbrev pub waiting : Text × ℕ → HashMap ℕ → Channels → ℕ
waiting o [] channels = 0
waiting o ((k, c) ∷ m) channels = queued o (channels c).queue + waiting o m channels

abbrev pub each : HashMap ℕ → ℕ → ℕ
each [] w = 0
each (e ∷ m) w = w + each m w

pub each_one : (m : HashMap ℕ) → each m 1 ≡ length m
each_one [] = refl
each_one (e ∷ m) = omega (arith, each_one m)

pub each_none : (m : HashMap ℕ) → each m 0 ≡ 0
each_none [] = refl
each_none (e ∷ m) = omega (arith, each_none m)

module _ (o : Text × ℕ) where
  queued-append :
      (l : List PeerControlMessage) (m : PeerControlMessage)
      → queued o (l ++ m ∷ []) ≡ queued o l + weight o m
  queued-append [] m = omega arith
  queued-append (n ∷ l) m = omega (arith, queued-append l m)

  queued-push :
      (m : PeerControlMessage) (ch : Channel)
      → queued o (push m ch).queue ≤ queued o ch.queue + weight o m
  queued-push m ch = elim (Bool-cases ch.receiving) [
    | inl r ↦ rw r (omega (arith, queued-append ch.queue m))
    | inr r ↦ rw r (omega arith)
  ]

  pub waiting-update_absent :
      (d : ℕ) (ch : Channel) (m : HashMap ℕ) (channels : Channels) (k : Text)
      → All (Apart k d) m
      → waiting o m (update d ch channels) ≡ waiting o m channels
  waiting-update_absent d ch [] channels k h = refl
  waiting-update_absent d ch ((j, c) ∷ m) channels k (p, h) =
      let other : (c == d) ≡ false = ground (arith, p.1) in
      rw other (omega (arith, waiting-update_absent d ch m channels k h))

  -- Where a channel that stands in the map changes, only what waits in it changes.
  pub waiting-update :
      (d : ℕ) (ch : Channel) (m : HashMap ℕ) (channels : Channels) (k : Text)
      → Distinct m
      → HashMap.get k m ≡ some d
      → waiting o m (update d ch channels) + queued o (channels d).queue
        ≡ waiting o m channels + queued o ch.queue
  unfolding HashMap.get
  waiting-update d ch [] channels k h g = cc
  waiting-update d ch ((j, c) ∷ m) channels k (a, h) g = elim (Bool-cases (c == d)) [
    | inl q ↦
        let same : c ≡ d = ground arith in
        rw q (rw same (omega (arith, waiting-update_absent d ch m channels j (rw same at a))))
    | inr q ↦ rw q (omega (arith, waiting-update d ch m channels k h (later q)))
  ]
    where
      later : (c == d) ≡ false → HashMap.get k m ≡ some d
      later q = elim (Bool-cases (text_eq j k)) [
        | inl t ↦ let same : some c ≡ some d = rw t at g in absurd (ground arith)
        | inr t ↦ rw t at g
      ]

  waiting-update_le :
      (d : ℕ) (ch : Channel) (w : ℕ) (m : HashMap ℕ) (channels : Channels)
      → Distinct m
      → queued o ch.queue ≤ queued o (channels d).queue + w
      → waiting o m (update d ch channels) ≤ waiting o m channels + w
  waiting-update_le d ch w [] channels h b = omega arith
  waiting-update_le d ch w ((j, c) ∷ m) channels (a, h) b = elim (Bool-cases (c == d)) [
    | inl q ↦
        let same : c ≡ d = ground arith in
        rw q (rw same (omega (arith, b, waiting-update_absent d ch m channels j (rw same at a))))
    | inr q ↦ rw q (omega (arith, waiting-update_le d ch w m channels h b))
  ]

  module _ (m : HashMap ℕ) (v : Distinct m) (s : Text) (f : Frame) where
    waiting-handed :
        (b : Bool) (d : ℕ) (channels : Channels)
        → waiting o m (if b then channels else PeerMap.send d (frame f) channels)
          ≤ waiting o m channels + weight o (frame f)
    unfolding PeerMap.send
    waiting-handed true d channels = omega arith
    waiting-handed false d channels =
        waiting-update_le d (push (frame f) (channels d)) (weight o (frame f)) m channels v
          (queued-push (frame f) (channels d))

    waiting-broadcast_loop :
        (rest : HashMap ℕ) (channels : Channels)
        → waiting o m (broadcast_loop s f rest channels)
          ≤ waiting o m channels + each rest (weight o (frame f))
    unfolding broadcast_loop
    waiting-broadcast_loop [] channels = omega arith
    waiting-broadcast_loop ((k, d) ∷ rest) channels =
        let step = waiting-handed (text_eq k s) d channels in
        omega (arith, step, waiting-broadcast_loop rest _)

  -- A broadcast adds at most one frame for each peer, and none if the frame is another command's.
  pub waiting-broadcast :
      (s : Text) (f : Frame) (p : PeerMap.PeerMap)
      → Distinct p.entries
      → waiting o p.entries (PeerMap.broadcast s f p).channels
        ≤ waiting o p.entries p.channels + each p.entries (weight o (frame f))
  unfolding PeerMap.broadcast
  waiting-broadcast s f p v = waiting-broadcast_loop p.entries v s f p.entries p.channels
