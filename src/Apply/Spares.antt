-- ===== src/Apply/Spares.antt =====
-- What `Announce::apply`, core/src/cmd/announce.rs, leaves alone while it decides whether to connect
-- to the peer that announces itself.
use peer_to_peer_chat_system.Prelude.{ℕ, zero, suc, ◌≡◌, refl, Bool, true, false, arith}
use peer_to_peer_chat_system.Cmd.Announce.{Announce}
use peer_to_peer_chat_system.Apply.{consider, roll_for}
use peer_to_peer_chat_system.Node.{Node, Env, connect_to_peer}

module _ (env : Env) where
  peers-roll_for : (c : Announce) (k : ℕ) (n : Node) → (roll_for env c k n).1.peers ≡ n.peers
  unfolding roll_for connect_to_peer
  peers-roll_for c zero n = refl
  peers-roll_for c (suc k) n = ground arith

  pub peers-consider :
      (c : Announce) (known empty : Bool) (n : Node)
      → (consider env c known empty n).1.peers ≡ n.peers
  unfolding consider
  peers-consider c true empty n = refl
  peers-consider c false true n = peers-roll_for c 10 n
  peers-consider c false false n = peers-roll_for c c.available_incoming n
