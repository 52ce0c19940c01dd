-- ===== src/PeerMap/Broadcast.antt =====
-- Who receives a broadcast of core/src/peer_map.rs.
use peer_to_peer_chat_system.Prelude.{
  ℕ, ◌≡◌, ◌≢◌, refl, ◌∙◌, some, [], ◌∷◌, arith, false, if◌then◌else◌, All, Bool-cases, inl, inr,
}
use peer_to_peer_chat_system.Prelude.Text.{Text, text_eq, text_eq_iff}
use peer_to_peer_chat_system.Prelude.HashMap
use peer_to_peer_chat_system.Prelude.HashMap.{HashMap}
use peer_to_peer_chat_system.Frame.{Frame, frame}
use peer_to_peer_chat_system.PeerMap.{PeerMap, Channels, push, send, broadcast_loop, broadcast}
use peer_to_peer_chat_system.PeerMap.Distinct.{Apart, Distinct, IsValid}

module _ (sender : Text) (f : Frame) where
  -- A channel that no entry has is left alone.
  broadcast_loop_absent :
      (m : HashMap ℕ) (channels : Channels) (c : ℕ)
      → All (λ e. e.1 ≢ c) m
      → broadcast_loop sender f m channels c ≡ channels c
  unfolding broadcast_loop send
  broadcast_loop_absent [] channels c h = refl
  broadcast_loop_absent ((k, d) ∷ m) channels c (p, h) =
      broadcast_loop_absent m _ c h ∙ ground arith

  Apart-channel : (k : Text) (c : ℕ) (m : HashMap ℕ) → All (Apart k c) m → All (λ e. e.1 ≢ c) m
  Apart-channel k c [] h = tt
  Apart-channel k c (e ∷ m) (p, h) = (p.1, Apart-channel k c m h)

  Apart-get :
      (j : Text) (d : ℕ) (m : HashMap ℕ) (k : Text) (c : ℕ)
      → All (Apart j d) m
      → HashMap.get k m ≡ some c
      → c ≢ d
  unfolding HashMap.get
  Apart-get j d [] k c h g = cc
  Apart-get j d ((i, x) ∷ m) k c (p, h) g = ground (arith, Apart-get j d m k c h)

  -- The channels after the first round.
  abbrev handed : Text → ℕ → Channels → Channels
  handed j d channels = if text_eq j sender then channels else send d (frame f) channels

  broadcast_loop-get :
      (m : HashMap ℕ) (channels : Channels) (k : Text) (c : ℕ)
      → Distinct m
      → HashMap.get k m ≡ some c
      → broadcast_loop sender f m channels c
        ≡ (if text_eq k sender then channels c else push (frame f) (channels c))
  unfolding broadcast_loop send HashMap.get
  broadcast_loop-get [] channels k c h g = cc
  broadcast_loop-get ((j, d) ∷ m) channels k c (a, h) g = elim (Bool-cases (text_eq j k)) [
    | inl t ↦
        let same : j ≡ k = (text_eq_iff j k).0 t in
        let here : d ≡ c = ground arith in
        let rest = broadcast_loop_absent m (handed j d channels) d (Apart-channel j d m a) in
        ground (arith, rest)
    | inr t ↦
        let later : HashMap.get k m ≡ some c = ground arith in
        let apart = Apart-get j d m k c a later in
        let rest = broadcast_loop-get m (handed j d channels) k c h later in ground (arith, rest)
  ]

-- On a valid map each peer's channel gets the frame once at its end, if its receiver is alive; the
-- channel of the peer with the sender's name gets nothing.
pub broadcast-get :
    (sender : Text) (f : Frame) (p : PeerMap) (k : Text) (c : ℕ)
    → IsValid p
    → HashMap.get k p.entries ≡ some c
    → (broadcast sender f p).channels c
      ≡ (if text_eq k sender then p.channels c else push (frame f) (p.channels c))
unfolding broadcast
broadcast-get sender f p k c h g = broadcast_loop-get sender f p.entries p.channels k c h.distinct g

-- A channel whose receiver is gone stays as it is.
pub broadcast_closed :
    (sender : Text) (f : Frame) (p : PeerMap) (k : Text) (c : ℕ)
    → IsValid p
    → HashMap.get k p.entries ≡ some c
    → (p.channels c).receiving ≡ false
    → (broadcast sender f p).channels c ≡ p.channels c
broadcast_closed sender f p k c h g closed = broadcast-get sender f p k c h g ∙ ground arith
