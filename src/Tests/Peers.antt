-- ===== src/Tests/Peers.antt =====
-- core/src/peer_map.rs and core/src/peer.rs on concrete inputs.
use peer_to_peer_chat_system.Prelude.{◌≡◌, refl, true, false, if◌then◌else◌, [], ◌∷◌, ◌++◌}
use peer_to_peer_chat_system.Prelude.Text.{codes, text_eq}
use peer_to_peer_chat_system.Prelude.HashMap
use peer_to_peer_chat_system.Frame
use peer_to_peer_chat_system.Frame.{Frame, null, number}
use peer_to_peer_chat_system.PeerMap
use peer_to_peer_chat_system.PeerMap.{PeerMap, push, broadcast, insert, remove, contains_peer}
use peer_to_peer_chat_system.PeerMap.Distinct.{IsValid, new-IsValid, insert-IsValid, remove-IsValid}
use peer_to_peer_chat_system.PeerMap.Broadcast.{broadcast-get}
use peer_to_peer_chat_system.Peer.{Task, serving, panicked, begin, connect, receive, round}
use peer_to_peer_chat_system.Peer.Lifecycle.{connect-begin_failed, round-order, pending}

-- The map after `ann` and `bob` were inserted.
abbrev two : PeerMap
two = record {
  entries = (codes "ann", 0) ∷ (codes "bob", 1) ∷ [];
  channels = λ c. PeerMap.fresh_channel;
  next_channel = 2;
}

abbrev one : PeerMap
one = record {
  entries = (codes "ann", 0) ∷ [];
  channels = λ c. PeerMap.fresh_channel;
  next_channel = 1;
}

one-IsValid : IsValid one
unfolding insert HashMap.insert PeerMap.new
one-IsValid = insert-IsValid (codes "ann") PeerMap.new new-IsValid

two-IsValid : IsValid two
unfolding insert HashMap.insert text_eq
two-IsValid = insert-IsValid (codes "bob") one one-IsValid

remove-IsValid_example : IsValid (remove (codes "ann") two).0
remove-IsValid_example = remove-IsValid (codes "ann") two two-IsValid

broadcast-get_example : (broadcast (codes "ann") null two).channels 1 ≡ (
    if text_eq (codes "bob") (codes "ann")
    then two.channels 1
    else push (Frame.frame null) (two.channels 1))
unfolding HashMap.get text_eq
broadcast-get_example = broadcast-get (codes "ann") null two (codes "bob") 1 two-IsValid refl

connect-begin_failed_example :
    let (p1, t) = begin true (codes "eve") two in
    let (p2, t2) = connect false t p1 in
    (t2.phase ≡ panicked)
    × (contains_peer (codes "eve") p2 ≡ true)
    × ((broadcast (codes "ann") null p2).channels t.channel ≡ p2.channels t.channel)
connect-begin_failed_example = connect-begin_failed (codes "eve") (codes "ann") null two two-IsValid

-- The task that serves `bob`.
abbrev task : Task
task = record { name = codes "bob"; channel = 1; phase = serving; sent = null ∷ [] }

abbrev waiting : PeerMap
waiting = record {
  entries = (codes "ann", 0) ∷ (codes "bob", 1) ∷ [];
  channels = λ c. record {
    queue = Frame.frame (number 1) ∷ Frame.frame (number 2) ∷ [];
    receiving = true;
  };
  next_channel = 2;
}

round-order_example :
    (round true task waiting).1.sent ++ pending ((round true task waiting).0.channels 1).queue
    ≡ null ∷ number 1 ∷ number 2 ∷ []
unfolding round receive
round-order_example = round-order true task waiting refl refl
