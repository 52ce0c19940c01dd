-- ===== src/Net/Pending.antt =====
-- A frame that waits in a channel of core/src/peer_map.rs goes on waiting while others are sent.
use peer_to_peer_chat_system.Prelude.{
  ℕ, ◌≡◌, ◌⊎◌, inl, inr, refl, ◌==◌, Bool, true, false, some, List, [], ◌∷◌, ◌++◌, arith,
  if◌then◌else◌, Bool-cases,
}
use peer_to_peer_chat_system.Prelude.Text.{Text, text_eq, text_eq_iff}
use peer_to_peer_chat_system.Prelude.HashMap
use peer_to_peer_chat_system.Prelude.HashMap.{HashMap}
use peer_to_peer_chat_system.Frame
use peer_to_peer_chat_system.Frame.{Frame, PeerControlMessage, ClientServerMessage}
use peer_to_peer_chat_system.PeerMap
use peer_to_peer_chat_system.PeerMap.{PeerMap, Channel, Channels, push, broadcast_loop}
use peer_to_peer_chat_system.Net.{InQueue, InEvents}

-- The frame waits in the channel, or nobody receives from it.
abbrev pub Pending : Frame → Channel → Type 0
Pending f ch = (ch.receiving ≡ false) ⊎ InQueue f ch.queue

InQueue-append :
    (f : Frame) (l r : List PeerControlMessage) → InQueue f l ⊎ InQueue f r → InQueue f (l ++ r)
InQueue-append f [] r (inr h) = h
InQueue-append f (m ∷ l) r (inl (inl e)) = inl e
InQueue-append f (m ∷ l) r (inl (inr h)) = inr (InQueue-append f l r (inl h))
InQueue-append f (m ∷ l) r (inr h) = inr (InQueue-append f l r (inr h))
InQueue-append f [] r (inl h) = absurd h

pub InEvents-append :
    (m : ClientServerMessage) (l r : List ClientServerMessage)
    → InEvents m l ⊎ InEvents m r
    → InEvents m (l ++ r)
InEvents-append m [] r (inr h) = h
InEvents-append m (e ∷ l) r (inl (inl p)) = inl p
InEvents-append m (e ∷ l) r (inl (inr h)) = inr (InEvents-append m l r (inl h))
InEvents-append m (e ∷ l) r (inr h) = inr (InEvents-append m l r (inr h))
InEvents-append m [] r (inl h) = absurd h

stays_queued : (f : Frame) (ch : Channel) → ch.receiving ≡ true → Pending f ch → InQueue f ch.queue
stays_queued f ch r (inl q) = cc
stays_queued f ch r (inr q) = q

push-Pending :
    (f : Frame) (m : PeerControlMessage) (ch : Channel) → Pending f ch → Pending f (push m ch)
push-Pending f m ch h = elim (Bool-cases ch.receiving) [
  | inl r ↦ rw r (inr (InQueue-append f ch.queue (m ∷ []) (inl (stays_queued f ch r h))))
  | inr r ↦ rw r (inl refl)
]

pushed-Pending : (f : Frame) (ch : Channel) → Pending f (push (Frame.frame f) ch)
pushed-Pending f ch = elim (Bool-cases ch.receiving) [
  | inl r ↦ rw r (inr (InQueue-append f ch.queue (Frame.frame f ∷ []) (inr (inl refl))))
  | inr r ↦ rw r (inl refl)
]

module _ (f : Frame) (c : ℕ) where
  send-Pending :
      (d : ℕ) (m : PeerControlMessage) (channels : Channels)
      → Pending f (channels c)
      → Pending f (PeerMap.send d m channels c)
  unfolding PeerMap.send
  send-Pending d m channels h = elim (Bool-cases (c == d)) [
    | inl q ↦ let same : c ≡ d = ground arith in rw q (push-Pending f m (channels d) (rw same at h))
    | inr q ↦ rw q h
  ]

  sent-Pending :
      (d : ℕ) (channels : Channels) → c ≡ d → Pending f (PeerMap.send d (Frame.frame f) channels c)
  unfolding PeerMap.send
  sent-Pending d channels e =
      let here : (c == d) ≡ true = ground arith in rw here (pushed-Pending f (channels d))

  handed-Pending :
      (b : Bool) (d : ℕ) (g : Frame) (channels : Channels)
      → Pending f (channels c)
      → Pending f ((if b then channels else PeerMap.send d (Frame.frame g) channels) c)
  handed-Pending true d g channels h = h
  handed-Pending false d g channels h = send-Pending d (Frame.frame g) channels h

  passed-Pending :
      (b : Bool) (d : ℕ) (channels : Channels)
      → b ≡ false
      → c ≡ d
      → Pending f ((if b then channels else PeerMap.send d (Frame.frame f) channels) c)
  passed-Pending true d channels h e = cc
  passed-Pending false d channels h e = sent-Pending d channels e

  pub broadcast_loop-Pending :
      (sender : Text) (g : Frame) (m : HashMap ℕ) (channels : Channels)
      → Pending f (channels c)
      → Pending f (broadcast_loop sender g m channels c)
  unfolding broadcast_loop
  broadcast_loop-Pending sender g [] channels h = h
  broadcast_loop-Pending sender g ((j, d) ∷ m) channels h =
      broadcast_loop-Pending sender g m _ (handed-Pending (text_eq j sender) d g channels h)

  -- A frame that is broadcast waits in the channel of each peer but the sender.
  pub broadcast_loop-here :
      (sender : Text) (m : HashMap ℕ) (channels : Channels) (k : Text)
      → HashMap.get k m ≡ some c
      → text_eq k sender ≡ false
      → Pending f (broadcast_loop sender f m channels c)
  unfolding broadcast_loop HashMap.get
  broadcast_loop-here sender [] channels k h e = cc
  broadcast_loop-here sender ((j, d) ∷ m) channels k h e = elim (Bool-cases (text_eq j k)) [
    | inl t ↦
        let same : j ≡ k = (text_eq_iff j k).0 t in
        let apart : text_eq j sender ≡ false = rw same e in
        broadcast_loop-Pending sender f m _
          (passed-Pending (text_eq j sender) d channels apart (ground arith))
    | inr t ↦ broadcast_loop-here sender m _ k (ground arith) e
  ]
