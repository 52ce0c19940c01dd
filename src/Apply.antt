-- ===== src/Apply.antt =====
-- The methods `apply` in core/src/cmd/*.rs: what a peer does with a command that is not for itself.
pub mod Extensions
pub mod Stable
pub mod Spares
use peer_to_peer_chat_system.Prelude.{
  ℕ, zero, suc, ◌==◌, Bool, true, false, Option, none, some, if◌then◌else◌,
}
use peer_to_peer_chat_system.Prelude.Decimal.{to_decimal}
use peer_to_peer_chat_system.Prelude.Text.{Text}
use peer_to_peer_chat_system.Util.TtlMap
use peer_to_peer_chat_system.PeerMap
use peer_to_peer_chat_system.Peer
use peer_to_peer_chat_system.Peer.{PeerData}
use peer_to_peer_chat_system.Cmd
use peer_to_peer_chat_system.Cmd.{lifetime}
use peer_to_peer_chat_system.Cmd.Ping
use peer_to_peer_chat_system.Cmd.Ping.{Ping}
use peer_to_peer_chat_system.Cmd.Pong
use peer_to_peer_chat_system.Cmd.Pong.{Pong}
use peer_to_peer_chat_system.Cmd.Say
use peer_to_peer_chat_system.Cmd.Say.{Say}
use peer_to_peer_chat_system.Cmd.Whisper
use peer_to_peer_chat_system.Cmd.Whisper.{Whisper}
use peer_to_peer_chat_system.Cmd.Broadcast
use peer_to_peer_chat_system.Cmd.Broadcast.{Broadcast}
use peer_to_peer_chat_system.Cmd.Deliver
use peer_to_peer_chat_system.Cmd.Deliver.{Deliver}
use peer_to_peer_chat_system.Cmd.Announce
use peer_to_peer_chat_system.Cmd.Announce.{Announce}
use peer_to_peer_chat_system.Node.{
  Node, Env, Exec, ◌>>=◌, ◌>>◌, pure, gets, broadcast, write_frame, set_adjacent, connect_to_peer,
}

unfoldable pub apply_ping : Ping → Exec (Unit {0})
apply_ping c = broadcast c.source (Ping.into_frame c)

unfoldable pub apply_pong : Pong → Exec (Unit {0})
apply_pong c = broadcast c.source (Pong.into_frame c)

unfoldable pub apply_say : Say → Exec (Unit {0})
apply_say c = broadcast c.source (Say.into_frame c)

unfoldable pub apply_broadcast : Broadcast → Exec (Unit {0})
apply_broadcast c = broadcast c.source (Broadcast.into_frame c)

unfoldable pub apply_deliver : Deliver → Exec (Unit {0})
apply_deliver c = broadcast c.source (Deliver.into_frame c)

unfoldable pub forward : Env → Whisper → Option PeerData → Exec (Unit {0})
forward env c none = pure tt
forward env c (some next_hop) = write_frame env (Whisper.into_frame c)

-- The frame goes back over the connection that it came by, if the destination is known.
unfoldable pub apply_whisper : Env → Whisper → Exec (Unit {0})
unfolding forward
apply_whisper env c = do
  next_hop ← gets (λ n. TtlMap.get c.destination n.adjacency_list)
  forward env c next_hop

-- The roll over `0..available_incoming`, which is not made over an empty range.
unfoldable pub roll_for : Env → Announce → ℕ → Exec (Unit {0})
roll_for env c zero = pure tt
roll_for env c (suc n) =
    if env.gen_range (suc n) == 0
    then connect_to_peer c.source c.ip_address (to_decimal c.port)
    else pure tt

unfoldable pub consider : Env → Announce → Bool → Bool → Exec (Unit {0})
unfolding roll_for
consider env c true empty = pure tt
consider env c false true = roll_for env c 10
consider env c false false = roll_for env c c.available_incoming

unfoldable pub apply_announce : Env → Announce → Exec (Unit {0})
unfolding consider
apply_announce env c = do
  set_adjacent env c.source (Peer.new c.city c.lat c.lng c.peers) lifetime
  broadcast c.source (Announce.into_frame c)
  contains ← gets (λ n. PeerMap.contains_peer c.source n.peers)
  empty ← gets (λ n. PeerMap.is_empty n.peers)
  consider env c contains empty
