-- ===== src/Net/Bounded/Moves.antt =====
-- The moves of a network of servers of core/src/server.rs, with the count of the frames of a command
-- that were sent.
use peer_to_peer_chat_system.Prelude.{
  ℕ, ◌≡◌, ◌≤◌, refl, sym, ap, ◌∙◌, ◌+◌, false, some, List, [], ◌∷◌, ◌⊎◌, arith,
}
use peer_to_peer_chat_system.Prelude.Text.{Text}
use peer_to_peer_chat_system.Prelude.HashMap
use peer_to_peer_chat_system.Prelude.HashMap.{HashMap}
use peer_to_peer_chat_system.Frame
use peer_to_peer_chat_system.Frame.{Frame, PeerControlMessage, ClientServerMessage, frame}
use peer_to_peer_chat_system.Util.Counters
use peer_to_peer_chat_system.Peer
use peer_to_peer_chat_system.Peer.{PeerData}
use peer_to_peer_chat_system.PeerMap
use peer_to_peer_chat_system.PeerMap.Distinct.{Distinct}
use peer_to_peer_chat_system.Cmd
use peer_to_peer_chat_system.Cmd.{Command, to_frame}
use peer_to_peer_chat_system.Cmd.Announce
use peer_to_peer_chat_system.Node.{Node, Env}
use peer_to_peer_chat_system.Server.Start.{announce}
use peer_to_peer_chat_system.Server.Messages.{
  handle_message, handle_message-eq_some, command_of, sender, numbered,
}
use peer_to_peer_chat_system.Net.{Network, update, send_next, deliver}
use peer_to_peer_chat_system.Net.Sent.{send_next-entries}
use peer_to_peer_chat_system.Net.Bounded.Weights.{
  is_from, matches, one_if, weight, waiting-update, waiting-broadcast,
}
use peer_to_peer_chat_system.Net.Bounded.Handles.{load, weight-passed, each-zero}

abbrev pub Among : Text → List Text → Type 0
Among a [] = ⊥
Among a (b ∷ l) = (b ≡ a) ⊎ Among a l

-- The moves from `start` in which servers among `names` send and servers handle what they are sent,
-- and clients speak and servers announce themselves under other sources or sequence numbers than
-- `o`. The number counts the frames sent that are read as a command of `o` which is no pong.
pub data Moves (names : List Text) (o : Text × ℕ) (start : Network) : ℕ → Network → Type 0 where
  here : Moves names o start 0 start
  speaks :
      {k : ℕ} {net : Network} (a : Text) (m : ClientServerMessage) (n : Node)
      → Moves names o start k net
      → handle_message m (net a) ≡ some n
      → ((x : Command)
          → command_of m (Counters.next (net a).sequence_numbers).0 ≡ some x
          → is_from o x ≡ false)
      → Moves names o start k (update a n net)
  announces :
      {k : ℕ} {net : Network} (a ip_address : Text) (port num max : ℕ) (d : PeerData)
      → Moves names o start k net
      → matches o (some (a, (Counters.next (net a).sequence_numbers).0)) ≡ false
      → Moves names o start k (update a (announce a ip_address port num max d (net a)) net)
  delivers :
      {k : ℕ} {net : Network} (a b : Text) (c : ℕ) (g : Frame) (rest : List PeerControlMessage)
      (env : Env)
      → Moves names o start k net
      → Among a names
      → HashMap.get b (net a).peers.entries ≡ some c
      → ((net a).peers.channels c).queue ≡ frame g ∷ rest
      → Moves names o start (k + weight o (frame g)) (deliver a b c g env net)

module _ (o : Text × ℕ) where
  -- A node that comes after another, with the same peers, and with so much less load.
  abbrev pub Lightens : ℕ → Node → Node → Type 0
  Lightens w n n' = (load o n' + w ≤ load o n) × (n'.peers.entries ≡ n.peers.entries)

  broadcast-Lightens :
      (s : Text) (f : Frame) (n : Node) (k : ℕ)
      → Distinct n.peers.entries
      → weight o (frame f) ≡ 0
      → Lightens 0 n (record n { sequence_numbers = k; peers = PeerMap.broadcast s f n.peers })
  broadcast-Lightens s f n k v h = (
    let added = waiting-broadcast o s f n.peers v in
        let nothing = each-zero o n.peers.entries (weight o (frame f)) h in
        unfold PeerMap.broadcast in omega (arith, added, nothing),
    unfold PeerMap.broadcast in refl,
  )

  command_spoken :
      (m : ClientServerMessage) (n n' : Node)
      → handle_message m n ≡ some n'
      → (x : Command) × (g : Frame) × (command_of m (Counters.next n.sequence_numbers).0 ≡ some x)
        × (to_frame x ≡ some g)
  unfolding handle_message to_frame
  command_spoken (Frame.ping from to sent_at) n n' h = (_, _, refl, refl)
  command_spoken (Frame.pong from sent_at) n n' h = cc
  command_spoken (Frame.whisper from to message) n n' h = (_, _, refl, refl)
  command_spoken (Frame.say from message) n n' h = (_, _, refl, refl)
  command_spoken (Frame.extension from id payload) n n' h = (_, _, refl, refl)
  command_spoken (Frame.deliver from to bytes) n n' h = (_, _, refl, refl)
  command_spoken (Frame.broadcast from bytes) n n' h = (_, _, refl, refl)

  pub spoken-Lightens :
      (m : ClientServerMessage) (n n' : Node)
      → Distinct n.peers.entries
      → handle_message m n ≡ some n'
      → ((x : Command)
          → command_of m (Counters.next n.sequence_numbers).0 ≡ some x
          → is_from o x ≡ false)
      → Lightens 0 n n'
  spoken-Lightens m n n' v h other =
      let (x, g, hx, hg) = command_spoken m n n' h in
      let same : some n' ≡ some (numbered (λ k. PeerMap.broadcast (sender m) g) n) =
        sym h ∙ handle_message-eq_some m n x g hx hg in
      let e : n' ≡ numbered (λ k. PeerMap.broadcast (sender m) g) n = cc in
      rw e (
        broadcast-Lightens (sender m) g n (Counters.next n.sequence_numbers).1 v
          (weight-passed o x g hg ∙ ap one_if (other x hx)))

  pub announced-Lightens :
      (a ip_address : Text) (port num max : ℕ) (d : PeerData) (n : Node)
      → Distinct n.peers.entries
      → matches o (some (a, (Counters.next n.sequence_numbers).0)) ≡ false
      → Lightens 0 n (announce a ip_address port num max d n)
  unfolding announce Cmd.origin to_frame Announce.new
  announced-Lightens a ip_address port num max d n v h =
      broadcast-Lightens a _ n (Counters.next n.sequence_numbers).1 v
        (weight-passed o (Cmd.announce _) _ refl ∙ ap one_if h)

  -- A server that sends a frame has it no more.
  pub sent-Lightens :
      (b : Text) (c : ℕ) (g : Frame) (rest : List PeerControlMessage) (n : Node)
      → Distinct n.peers.entries
      → HashMap.get b n.peers.entries ≡ some c
      → (n.peers.channels c).queue ≡ frame g ∷ rest
      → Lightens (weight o (frame g)) n (send_next b c n)
  unfolding send_next Peer.round Peer.receive
  sent-Lightens b c g rest n v e q =
      let ch = record (n.peers.channels c) { queue = rest } in
      let left = rw q at (waiting-update o c ch n.peers.entries n.peers.channels b v e) in
      (rw q (omega (arith, left)), send_next-entries g g b c rest n q)
