-- ===== src/Net/Sent.antt =====
-- What a round of an outgoing connection, core/src/peer.rs, takes from the channels of a server.
use peer_to_peer_chat_system.Prelude.{
  ℕ, ◌≡◌, ◌⊎◌, inl, inr, refl, sym, ◌∙◌, ◌==◌, some, List, [], ◌∷◌, All, arith, Bool-cases,
}
use peer_to_peer_chat_system.Prelude.Text.{Text, text_eq, text_eq_iff}
use peer_to_peer_chat_system.Prelude.HashMap
use peer_to_peer_chat_system.Prelude.HashMap.{HashMap}
use peer_to_peer_chat_system.Frame
use peer_to_peer_chat_system.Frame.{Frame, PeerControlMessage, ClientServerMessage}
use peer_to_peer_chat_system.Peer
use peer_to_peer_chat_system.PeerMap
use peer_to_peer_chat_system.PeerMap.Distinct.{Distinct, Apart}
use peer_to_peer_chat_system.Node.{Node}
use peer_to_peer_chat_system.Net.{send_next, InQueue}
use peer_to_peer_chat_system.Net.Pending.{Pending}

get-Apart : (k j : Text) (c : ℕ) (m : HashMap ℕ) → All (Apart k c) m → HashMap.get j m ≡ some c → ⊥
unfolding HashMap.get
get-Apart k j c [] a h = cc
get-Apart k j c ((i, d) ∷ m) (p, a) h = elim (Bool-cases (text_eq i j)) [
  | inl t ↦ p.1 (ground arith)
  | inr t ↦ get-Apart k j c m a (ground arith)
]

-- A channel belongs to one name.
pub get-injective :
    (m : HashMap ℕ) (j k : Text) (c : ℕ)
    → Distinct m
    → HashMap.get j m ≡ some c
    → HashMap.get k m ≡ some c
    → j ≡ k
unfolding HashMap.get
get-injective [] j k c v p q = cc
get-injective ((i, d) ∷ m) j k c (a, v) p q = elim (Bool-cases (text_eq i j)) [
  | inl t ↦ elim (Bool-cases (text_eq i k)) [
    | inl u ↦ sym ((text_eq_iff i j).0 t) ∙ (text_eq_iff i k).0 u
    | inr u ↦ let e : d ≡ c = ground arith in absurd (get-Apart i k c m (rw e at a) (ground arith))
  ]
  | inr t ↦ elim (Bool-cases (text_eq i k)) [
    | inl u ↦ let e : d ≡ c = ground arith in absurd (get-Apart i j c m (rw e at a) (ground arith))
    | inr u ↦ get-injective m j k c v (ground arith) (ground arith)
  ]
]

module _ (f g : Frame) (b : Text) (c : ℕ) (rest : List PeerControlMessage) where
  queue_taken :
      (ch : PeerMap.Channel)
      → InQueue f (Frame.frame g ∷ rest)
      → Pending f (record ch { queue = rest }) ⊎ (g ≡ f)
  queue_taken ch (inl p) = inr cc
  queue_taken ch (inr h) = inl (inr h)

  Pending-taken :
      (ch : PeerMap.Channel)
      → ch.queue ≡ Frame.frame g ∷ rest
      → Pending f ch
      → Pending f (record ch { queue = rest }) ⊎ (g ≡ f)
  Pending-taken ch e (inl r) = inl (inl r)
  Pending-taken ch e (inr h) = queue_taken ch (rw e at h)

  -- Sending the next frame takes at most that frame away.
  pub send_next-Pending :
      (n : Node) (d : ℕ)
      → (n.peers.channels c).queue ≡ Frame.frame g ∷ rest
      → Pending f (n.peers.channels d)
      → Pending f ((send_next b c n).peers.channels d) ⊎ ((d ≡ c) × (g ≡ f))
  unfolding send_next Peer.round Peer.receive
  send_next-Pending n d e h = elim (Bool-cases (d == c)) [
    | inl q ↦
        let same : d ≡ c = ground arith in
        elim (Pending-taken (n.peers.channels c) e (rw same at h)) [
          | inl left ↦ inl (rw (e, q) left)
          | inr taken ↦ inr (same, taken)
        ]
    | inr q ↦ inl (rw (e, q) h)
  ]

  pub send_next-entries :
      (n : Node)
      → (n.peers.channels c).queue ≡ Frame.frame g ∷ rest
      → (send_next b c n).peers.entries ≡ n.peers.entries
  unfolding send_next Peer.round Peer.receive
  send_next-entries n e = rw e refl

  pub send_next-others :
      (n : Node)
      → ((send_next b c n).processed_commands ≡ n.processed_commands)
        × ((send_next b c n).events ≡ n.events)
  unfolding send_next
  send_next-others n = (refl, refl)
