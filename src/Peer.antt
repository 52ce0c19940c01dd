-- ===== src/Peer.antt =====
-- core/src/peer.rs, and the task that `Server::connect_to_peer` of core/src/server.rs spawns: one
-- outgoing connection, from its insertion into the peer map to its removal. What the network does
-- is an argument of each step.
pub mod Lifecycle
use peer_to_peer_chat_system.Prelude.{
  ℕ, ◌+◌, ◌==◌, ◌||◌, Bool, true, false, List, [], ◌∷◌, ◌++◌, if◌then◌else◌,
}
use peer_to_peer_chat_system.Prelude.Text.{Text, codes}
use peer_to_peer_chat_system.Prelude.HashMap.{HashMap}
use peer_to_peer_chat_system.Frame.{Frame, F64, PeerControlMessage, shut_down, frame}
use peer_to_peer_chat_system.PeerMap
use peer_to_peer_chat_system.PeerMap.{PeerMap, Channel, update, fresh_channel}

-- What an announce says of a peer.
pub record PeerData : Type 0 where
  pub city : Text
  pub lat : F64
  pub lng : F64
  pub peers : List Text

unfoldable pub new : Text → F64 → F64 → List Text → PeerData
new city lat lng peers = record { city = city; lat = lat; lng = lng; peers = peers }

-- `PeerData::default` with the two numbers that `gen_range` drew.
unfoldable pub default : F64 → F64 → PeerData
unfolding new
default lat lng = new (codes "???") lat lng []

-- Where the task stands: before its connection, in its loop, at its end, or after a panic.
pub data Phase : Type 0 where
  connecting serving finished panicked : Phase

-- `sent` holds the frames written to the network so far.
pub record Task : Type 0 where
  pub name : Text
  pub channel : ℕ
  pub phase : Phase
  pub sent : List Frame

-- The receiver of a channel is dropped.
unfoldable pub close : ℕ → PeerMap → PeerMap
close c p = record p {
  channels = update c (record (p.channels c) { receiving = false }) p.channels;
}

-- The task up to `peer.start()`. `Peer::new` panics if the address does not parse, before the
-- insertion.
unfoldable pub begin : Bool → Text → PeerMap → PeerMap × Task
unfolding close
begin address_ok name p =
    let c = p.next_channel in
    let opened = record p { channels = update c fresh_channel p.channels; next_channel = c + 1 } in
    if address_ok
    then (
      (PeerMap.insert name c opened).0,
      record { name = name; channel = c; phase = connecting; sent = [] },
    )
    else (close c opened, record { name = name; channel = c; phase = panicked; sent = [] })

-- `TcpStream::connect(self.info.addr).await.unwrap()`
unfoldable pub connect : Bool → Task → PeerMap → PeerMap × Task
unfolding close
connect connected t p =
    if connected
    then (p, record t { phase = serving })
    else (close t.channel p, record t { phase = panicked })

-- Whether a sender of the channel is left in the map.
abbrev pub has_sender : ℕ → HashMap ℕ → Bool
has_sender c [] = false
has_sender c (e ∷ m) = e.1 == c || has_sender c m

-- The end of the task, after `peer.start()` has returned.
unfoldable pub finish : Task → PeerMap → PeerMap × Task
unfolding close
finish t p = ((PeerMap.remove t.name (close t.channel p)).0, record t { phase = finished })

-- One round of the loop of `Peer::start` on what is in its channel. With nothing there the round
-- waits while a sender is left; without one the only branch of `select!` is disabled, a panic.
unfoldable pub receive : Bool → List PeerControlMessage → Task → PeerMap → PeerMap × Task
unfolding finish
receive write_ok [] t p =
    if has_sender t.channel p.entries
    then (p, t)
    else (close t.channel p, record t { phase = panicked })
receive write_ok (shut_down ∷ rest) t p = finish t p
receive write_ok (frame f ∷ rest) t p =
    if write_ok
    then (
      record p {
        channels = update t.channel (record (p.channels t.channel) { queue = rest }) p.channels;
      },
      record t { sent = t.sent ++ f ∷ [] },
    )
    else finish t p

abbrev pub round_in : Phase → Bool → Task → PeerMap → PeerMap × Task
round_in serving write_ok t p = receive write_ok (p.channels t.channel).queue t p
round_in phase write_ok t p = (p, t)

-- A round of the task, which does nothing outside its loop.
unfoldable pub round : Bool → Task → PeerMap → PeerMap × Task
unfolding receive
round write_ok t p = round_in t.phase write_ok t p
