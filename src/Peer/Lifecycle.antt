-- ===== src/Peer/Lifecycle.antt =====
-- What the task of an outgoing connection does to the peer map.
use mathlib.Core.List.{append_assoc}
use peer_to_peer_chat_system.Prelude.{
  ◌≡◌, refl, ap, ◌∙◌, some, List, [], ◌∷◌, ◌++◌, arith, Bool, true, false, Bool-cases, inl, inr,
}
use peer_to_peer_chat_system.Prelude.Text.{Text, text_eq_iff}
use peer_to_peer_chat_system.Prelude.HashMap
use peer_to_peer_chat_system.Prelude.HashMap.{HashMap, get-insert, get-remove}
use peer_to_peer_chat_system.Frame.{Frame, PeerControlMessage, frame, shut_down}
use peer_to_peer_chat_system.PeerMap
use peer_to_peer_chat_system.PeerMap.{PeerMap, contains_peer, broadcast}
use peer_to_peer_chat_system.PeerMap.Distinct.{
  IsValid, insert-IsValid, remove-IsValid, fresh-IsValid,
}
use peer_to_peer_chat_system.PeerMap.Broadcast.{broadcast_closed}
use peer_to_peer_chat_system.Peer.{
  Task, Phase, has_sender, serving, panicked, begin, connect, close, finish, receive, round,
  round_in,
}

begin-IsValid : (ok : Bool) (name : Text) (p : PeerMap) → IsValid p → IsValid (begin ok name p).0
unfolding begin PeerMap.insert
begin-IsValid true name p h =
    let v = insert-IsValid name p h in record { distinct = v.distinct; created = v.created }
begin-IsValid false name p h =
    let v = fresh-IsValid p h in record { distinct = v.distinct; created = v.created }

connect-IsValid : (ok : Bool) (t : Task) (p : PeerMap) → IsValid p → IsValid (connect ok t p).0
unfolding connect
connect-IsValid true t p h = h
connect-IsValid false t p h = record { distinct = h.distinct; created = h.created }

finish-IsValid : (t : Task) (p : PeerMap) → IsValid p → IsValid (finish t p).0
unfolding finish
finish-IsValid t p h =
    remove-IsValid t.name (close t.channel p)
      (unfold close in record { distinct = h.distinct; created = h.created })

receive-IsValid :
    (ok : Bool) (l : List PeerControlMessage) (t : Task) (p : PeerMap)
    → IsValid p
    → IsValid (receive ok l t p).0
unfolding receive
receive-IsValid ok [] t p h = elim (Bool-cases (has_sender t.channel p.entries)) [
  | inl s ↦ rw s h
  | inr s ↦ rw s (record { distinct = h.distinct; created = h.created })
]
receive-IsValid ok (shut_down ∷ rest) t p h = finish-IsValid t p h
receive-IsValid true (frame f ∷ rest) t p h = record { distinct = h.distinct; created = h.created }
receive-IsValid false (frame f ∷ rest) t p h = finish-IsValid t p h

-- After a connection that fails the peer stays in the map: its name is taken, and no broadcast
-- reaches its channel.
pub connect-begin_failed :
    (name sender : Text) (f : Frame) (p : PeerMap)
    → IsValid p
    → let (p1, t) = begin true name p in
      let (p2, t2) = connect false t p1 in
      (t2.phase ≡ panicked)
      × (contains_peer name p2 ≡ true)
      × ((broadcast sender f p2).channels t.channel ≡ p2.channels t.channel)
unfolding begin connect close contains_peer PeerMap.insert
connect-begin_failed name sender f p h =
    let (p1, t) = begin true name p in
    let p2 = (connect false t p1).0 in
    let valid = connect-IsValid false t p1 (begin-IsValid true name p h) in
    let here : HashMap.get name p2.entries ≡ some p.next_channel =
      ground (arith, get-insert name name p.next_channel p.entries, text_eq_iff name name) in
    (refl, rw here, broadcast_closed sender f p2 name p.next_channel valid here (ground arith))

-- When the task ends, by a failed write or by a message, its name leaves the map.
contains_peer-finish : (t : Task) (p : PeerMap) → contains_peer t.name (finish t p).0 ≡ false
unfolding finish close contains_peer PeerMap.remove
contains_peer-finish t p = rw get-remove (ground (arith, text_eq_iff t.name t.name))

-- The frames that wait in a channel.
abbrev pub pending : List PeerControlMessage → List Frame
pending [] = []
pending (shut_down ∷ rest) = pending rest
pending (frame f ∷ rest) = f ∷ pending rest

receive-order :
    (ok : Bool) (l : List PeerControlMessage) (t : Task) (p : PeerMap)
    → (p.channels t.channel).queue ≡ l
    → t.phase ≡ serving
    → (receive ok l t p).1.phase ≡ serving
    → (receive ok l t p).1.sent ++ pending ((receive ok l t p).0.channels t.channel).queue
      ≡ t.sent ++ pending l
unfolding receive finish
receive-order ok [] t p q h g = elim (Bool-cases (has_sender t.channel p.entries)) [
  | inl s ↦ rw s (ap (λ m. t.sent ++ pending m) q)
  | inr s ↦ let stopped = rw s at g in cc
]
receive-order ok (shut_down ∷ rest) t p q h g = cc
receive-order true (frame f ∷ rest) t p q h g =
    let e : ((receive true (frame f ∷ rest) t p).0.channels t.channel).queue ≡ rest =
      ground arith in
    ap (λ m. (t.sent ++ f ∷ []) ++ pending m) e ∙ append_assoc t.sent (f ∷ []) (pending rest)
receive-order false (frame f ∷ rest) t p q h g = cc

round_in-serving :
    (phase : Phase) (ok : Bool) (t : Task) (p : PeerMap)
    → phase ≡ serving
    → round_in phase ok t p ≡ receive ok (p.channels t.channel).queue t p
round_in-serving serving ok t p h = refl
round_in-serving phase ok t p h = cc

-- Frames leave in the order in which they were broadcast: while the task goes on, what it has sent
-- followed by what waits in its channel does not change.
pub round-order :
    (ok : Bool) (t : Task) (p : PeerMap)
    → t.phase ≡ serving
    → (round ok t p).1.phase ≡ serving
    → (round ok t p).1.sent ++ pending ((round ok t p).0.channels t.channel).queue
      ≡ t.sent ++ pending (p.channels t.channel).queue
unfolding round
round-order ok t p h g =
    let e = round_in-serving t.phase ok t p h in
    rw e (receive-order ok (p.channels t.channel).queue t p refl h (rw e at g))
