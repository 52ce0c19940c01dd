-- ===== src/Net/Speaks.antt =====
-- What other clients speak, the messages of core/src/server.rs, does not keep a command from
-- spreading.
use peer_to_peer_chat_system.Prelude.{ℕ, ◌≡◌, inl, inr, refl, some, Bool-cases}
use peer_to_peer_chat_system.Prelude.Text.{Text, text_eq, text_eq_iff, text_eq_refl}
use peer_to_peer_chat_system.Frame
use peer_to_peer_chat_system.Frame.{Frame, PeerControlMessage, ClientServerMessage}
use peer_to_peer_chat_system.Cmd.{Command}
use peer_to_peer_chat_system.Cmd.Ping
use peer_to_peer_chat_system.Cmd.Whisper
use peer_to_peer_chat_system.Cmd.Say
use peer_to_peer_chat_system.Cmd.Extension
use peer_to_peer_chat_system.Cmd.Deliver
use peer_to_peer_chat_system.Cmd.Broadcast
use peer_to_peer_chat_system.PeerMap
use peer_to_peer_chat_system.Node.{Node}
use peer_to_peer_chat_system.Server.Messages.{
  handle_message, numbered, send_say, send_ping, send_whisper, send_extension, send_deliver,
  send_broadcast,
}
use peer_to_peer_chat_system.Net.{Network, update}
use peer_to_peer_chat_system.Net.Pending.{broadcast_loop-Pending}
use peer_to_peer_chat_system.Net.Handle.{Follows, Follows-refl}
use peer_to_peer_chat_system.Net.Spreads.{Spreads, Nobody, Follows-Spreads}

module _ (m : ClientServerMessage) (x : Command) (o : Text × ℕ) (f : Frame) where
  numbered-Follows :
      (s : Text) (g : ℕ → Frame) (n : Node)
      → Follows m x o f n (numbered (λ k. PeerMap.broadcast s (g k)) n)
  unfolding PeerMap.broadcast
  numbered-Follows s g n = record {
    entries = refl;
    waits = λ c h. broadcast_loop-Pending f c s _ n.peers.entries n.peers.channels h;
    known = λ h. h;
    passed = λ h. inl h;
    events = λ h. h;
  }

  some-Follows :
      (n n' : Node) {after : Node}
      → some after ≡ some n'
      → Follows m x o f n after
      → Follows m x o f n n'
  some-Follows n n' {after} h follows = let e : n' ≡ after = cc in rw e follows

  handle_message-Follows :
      (other : ClientServerMessage) (n n' : Node)
      → handle_message other n ≡ some n'
      → Follows m x o f n n'
  unfolding handle_message send_say send_ping send_whisper send_extension send_deliver
      send_broadcast
  handle_message-Follows (Frame.ping from to sent_at) n n' h =
      some-Follows n n' h
        (numbered-Follows from (λ k. Ping.into_frame (Ping.new from to k sent_at)) n)
  handle_message-Follows (Frame.pong from sent_at) n n' h = cc
  handle_message-Follows (Frame.whisper from to message) n n' h =
      some-Follows n n' h
        (numbered-Follows from (λ k. Whisper.into_frame (Whisper.new from k to message)) n)
  handle_message-Follows (Frame.say from message) n n' h =
      some-Follows n n' h (numbered-Follows from (λ k. Say.into_frame (Say.new from k message)) n)
  handle_message-Follows (Frame.extension from id payload) n n' h =
      some-Follows n n' h
        (numbered-Follows from (λ k. Extension.into_frame (Extension.new from k id payload)) n)
  handle_message-Follows (Frame.deliver from to bytes) n n' h =
      some-Follows n n' h
        (numbered-Follows from (λ k. Deliver.into_frame (Deliver.new from k to bytes)) n)
  handle_message-Follows (Frame.broadcast from bytes) n n' h =
      some-Follows n n' h
        (numbered-Follows from (λ k. Broadcast.into_frame (Broadcast.new from k bytes)) n)

  update-Follows :
      (a : Text) (n : Node) (net : Network)
      → Follows m x o f (net a) n
      → (d : Text) → Follows m x o f (net d) (update a n net d)
  update-Follows a n net h d = elim (Bool-cases (text_eq d a)) [
    | inl t ↦ rw ((text_eq_iff d a).0 t) (rw (text_eq_refl a) h)
    | inr t ↦ rw t (Follows-refl m x o f (net d))
  ]

  pub speaks_too-Spreads :
      (a : Text) (other : ClientServerMessage) (n : Node) (net : Network)
      → handle_message other (net a) ≡ some n
      → Spreads m x o f Nobody net
      → Spreads m x o f Nobody (update a n net)
  speaks_too-Spreads a other n net spoken h =
      Follows-Spreads m x o f Nobody net (update a n net)
        (update-Follows a n net (handle_message-Follows other (net a) n spoken))
        (λ b nobody. absurd nobody) h
