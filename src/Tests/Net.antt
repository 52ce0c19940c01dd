-- ===== src/Tests/Net.antt =====
-- A network of two servers of core/src/server.rs: `me` is connected to `ann` and says something.
use peer_to_peer_chat_system.Prelude.{
  ℕ, ◌+◌, ◌≤◌, ◌≡◌, refl, false, some, [], ◌∷◌, if◌then◌else◌, arith, Bool-cases, inl, inr,
}
use peer_to_peer_chat_system.Prelude.Text.{Text, codes, text_eq, text_eq_iff}
use peer_to_peer_chat_system.Prelude.HashMap
use peer_to_peer_chat_system.Frame.{ClientServerMessage, frame}
use peer_to_peer_chat_system.Util.TtlMap
use peer_to_peer_chat_system.Util.Counters
use peer_to_peer_chat_system.PeerMap
use peer_to_peer_chat_system.PeerMap.Distinct.{IsValid, new-IsValid}
use peer_to_peer_chat_system.Peer
use peer_to_peer_chat_system.Cmd
use peer_to_peer_chat_system.Cmd.{Command, from_frame, origin, check_duplicate}
use peer_to_peer_chat_system.Cmd.Say
use peer_to_peer_chat_system.Cmd.Say.{Say}
use peer_to_peer_chat_system.Cmd.RoundTrip.{from_frame-to_frame}
use peer_to_peer_chat_system.Node.{Node}
use peer_to_peer_chat_system.Server.Messages.{handle_message, numbered, send_say}
use peer_to_peer_chat_system.Net.{
  Network, update, deliver, send_next, Runs, speaks, delivers, Quiet, self, link, InEvents, InQueue,
}
use peer_to_peer_chat_system.Net.Handle.{say-IsPublic, handle_frame-Follows}
use peer_to_peer_chat_system.Net.Spreads.{Knows}
use peer_to_peer_chat_system.Net.Flooding.{floods}
use peer_to_peer_chat_system.Net.Bounded.Weights.{weight}
use peer_to_peer_chat_system.Net.Bounded.Moves
use peer_to_peer_chat_system.Net.Bounded.Limit.{total, Moves-bounded}
use peer_to_peer_chat_system.PeerMap.Distinct.{Distinct}
use peer_to_peer_chat_system.Tests.Server.{env, node, one, one-IsValid}

abbrev hi : Say
hi = record { source = codes "me"; sequence_number = 9; message = codes "hi" }

abbrev m : ClientServerMessage
m = ClientServerMessage.say (codes "me") (codes "hi")

-- Everybody but `me` is connected to nobody.
abbrev before : Network
before a =
    if text_eq a (codes "me")
    then record node { peers = one }
    else record node { peers = PeerMap.new }

before-IsValid : (a : Text) → IsValid (before a).peers
before-IsValid a = elim (Bool-cases (text_eq a (codes "me"))) [
  | inl t ↦ rw t one-IsValid
  | inr t ↦ rw t new-IsValid
]

before_fresh : (a : Text) → check_duplicate (Cmd.say hi) (before a).processed_commands ≡ false
unfolding check_duplicate Cmd.check_duplicate_of origin TtlMap.new TtlMap.get HashMap.get
before_fresh a = elim (Bool-cases (text_eq a (codes "me"))) [
  | inl t ↦ rw t refl
  | inr t ↦ rw t refl
]

abbrev speaker : Node
speaker = numbered (send_say (codes "me") (codes "hi")) (before (codes "me"))

abbrev spoken : Network
spoken = update (codes "me") speaker before

abbrev after : Network
after = deliver (codes "me") (codes "ann") 0 (Say.into_frame hi) env spoken

after-Runs : Runs m (Cmd.say hi) (codes "me", 9) after
unfolding Counters.next handle_message send_say Say.new HashMap.get text_eq PeerMap.broadcast
    PeerMap.broadcast_loop PeerMap.send Cmd.to_frame
after-Runs =
    delivers (codes "me") (codes "ann") 0 (Say.into_frame hi) [] env
      (speaks before speaker before_fresh before-IsValid refl refl) refl refl refl
      (λ y p q. let read = from_frame-to_frame (Cmd.say hi) (Say.into_frame hi) refl in cc)

lone_get : (b : Text) (c : ℕ) → HashMap.get b [] ≡ some c → ⊥
unfolding HashMap.get
lone_get b c e = cc

one_get : (b : Text) (c : ℕ) → HashMap.get b one.entries ≡ some c → c ≡ 0
unfolding HashMap.get
one_get b c e = ground arith

me_Quiet :
    (b : Text) (c : ℕ)
    → HashMap.get b (after (codes "me")).peers.entries ≡ some c
    → InQueue (Say.into_frame hi) ((after (codes "me")).peers.channels c).queue
    → ⊥
unfolding text_eq deliver send_next Peer.round Peer.receive PeerMap.broadcast PeerMap.broadcast_loop
    PeerMap.send send_say
me_Quiet b c e q = rw (one_get b c e) at q

ann_entries : (after (codes "ann")).peers.entries ≡ []
unfolding text_eq deliver PeerMap.new Cmd.to_frame
ann_entries =
    (handle_frame-Follows m (Cmd.say hi) (codes "me", 9) (Say.into_frame hi) env (codes "ann") refl
      (say-IsPublic hi) (before (codes "ann")) (Say.into_frame hi)
      (λ y p q. let read = from_frame-to_frame (Cmd.say hi) (Say.into_frame hi) refl in cc)).entries

after-Quiet : Quiet (Say.into_frame hi) after
unfolding deliver PeerMap.new
after-Quiet a b c e q = elim (Bool-cases (text_eq a (codes "ann"))) [
  | inl t ↦ lone_get b c (rw ann_entries at (rw ((text_eq_iff a (codes "ann")).0 t) at e))
  | inr t ↦ elim (Bool-cases (text_eq a (codes "me"))) [
    | inl u ↦ let me = (text_eq_iff a (codes "me")).0 u in me_Quiet b c (rw me at e) (rw me at q)
    | inr u ↦ lone_get b c (rw (t, u) at e)
  ]
]

floods_example : Knows (Cmd.say hi) (after (codes "ann")) × InEvents m (after (codes "ann")).events
unfolding deliver send_next Peer.round Peer.receive HashMap.get text_eq PeerMap.broadcast
    PeerMap.broadcast_loop PeerMap.send send_say
floods_example =
    floods m (Cmd.say hi) (codes "me", 9) (Say.into_frame hi) (codes "ann") (say-IsPublic hi)
      after-Runs after-Quiet (link (codes "ann") 0 self refl refl) (λ e. cc)

spoken-Distinct : (d : Text) → Distinct (spoken d).peers.entries
unfolding send_say PeerMap.broadcast text_eq PeerMap.new
spoken-Distinct d = elim (Bool-cases (text_eq d (codes "me"))) [
  | inl t ↦ rw t one-IsValid.distinct
  | inr t ↦ rw t tt
]

-- `me` sends what it said to `ann`.
Moves-bounded_example :
    0 + weight (codes "me", 9) (frame (Say.into_frame hi))
    ≤ total (codes "me", 9) (codes "me" ∷ []) spoken
unfolding HashMap.get text_eq send_say PeerMap.broadcast PeerMap.broadcast_loop PeerMap.send Say.new
    Counters.next
Moves-bounded_example =
    Moves-bounded (codes "me", 9) (codes "me" ∷ []) spoken
      (0 + weight (codes "me", 9) (frame (Say.into_frame hi)))
      (deliver (codes "me") (codes "ann") 0 (Say.into_frame hi) env spoken) spoken-Distinct
      (Moves.delivers (codes "me") (codes "ann") 0 (Say.into_frame hi) [] env Moves.here (inl refl)
        refl refl)
