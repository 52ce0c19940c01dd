-- ===== src/Net/Flooding.antt =====
-- A command for everybody floods the servers of core/src/server.rs.
use peer_to_peer_chat_system.Prelude.{
  ℕ, ◌≡◌, ◌≢◌, ◌⊎◌, inl, inr, refl, ap, false, some, arith, Bool-cases,
}
use peer_to_peer_chat_system.Prelude.Text.{Text, text_eq, text_eq_iff, text_eq_refl}
use peer_to_peer_chat_system.Prelude.HashMap
use peer_to_peer_chat_system.Prelude.HashMap.{HashMap}
use peer_to_peer_chat_system.Frame.{Frame, ClientServerMessage}
use peer_to_peer_chat_system.Cmd.{Command, check_duplicate}
use peer_to_peer_chat_system.Util.Counters
use peer_to_peer_chat_system.PeerMap
use peer_to_peer_chat_system.PeerMap.Distinct.{IsValid}
use peer_to_peer_chat_system.Node.{Node}
use peer_to_peer_chat_system.Server.Messages.{
  handle_message, handle_message-eq_some, command_of, numbered,
}
use peer_to_peer_chat_system.Net.{
  Network, update, Runs, speaks, speaks_too, delivers, Quiet, Connected, self, link, InEvents,
}
use peer_to_peer_chat_system.Net.Pending.{Pending}
use peer_to_peer_chat_system.Net.Handle.{IsPublic, broadcast_waits}
use peer_to_peer_chat_system.Net.Speaks.{speaks_too-Spreads}
use peer_to_peer_chat_system.Net.Spreads.{Knows, Has, Spreads, Nobody, deliver-Spreads}

module _ (m : ClientServerMessage) (x : Command) (o : Text × ℕ) (f : Frame) where
  -- The start of a run: the source has the command waiting for its peers, and nobody knows it.
  module _ (net : Network) where
    abbrev speaker : Node
    speaker = numbered (λ k. PeerMap.broadcast o.0 f) (net o.0)

    abbrev spoken_in : Network
    spoken_in = update o.0 speaker net

    spoken_in-others :
        (d : Text)
        → ((spoken_in d).processed_commands ≡ (net d).processed_commands)
          × ((spoken_in d).peers.entries ≡ (net d).peers.entries)
    unfolding PeerMap.broadcast
    spoken_in-others d = elim (Bool-cases (text_eq d o.0)) [
      | inl t ↦ rw ((text_eq_iff d o.0).0 t) (rw (text_eq_refl o.0) (refl, refl))
      | inr t ↦ rw t (refl, refl)
    ]

    module _ (fresh : (a : Text) → check_duplicate x (net a).processed_commands ≡ false) where
      nobody_yet : (d : Text) → Knows x (spoken_in d) → ⊥
      nobody_yet d h =
          let same = ap (check_duplicate x) (spoken_in-others d).0 in let new = fresh d in cc

      spoken_in-waits :
          (a b : Text) (c : ℕ)
          → Has x o spoken_in a
          → HashMap.get b (spoken_in a).peers.entries ≡ some c
          → text_eq b o.0 ≡ false
          → Knows x (spoken_in b) ⊎ (Pending f ((spoken_in a).peers.channels c) ⊎ Nobody b)
      spoken_in-waits a b c (inr known) e apart = absurd (nobody_yet a known)
      spoken_in-waits a b c (inl source) e apart = inr (
          inl (
            rw source (
              rw (text_eq_refl o.0) (
                broadcast_waits m x o f (net o.0).peers b c
                  (rw (text_eq_refl o.0) at (rw source at e)) apart))))

      spoken_in-Spreads : ((a : Text) → IsValid (net a).peers) → Spreads m x o f Nobody spoken_in
      spoken_in-Spreads valid = record {
        valid = λ d. rw (spoken_in-others d).1 ((valid d).distinct);
        waits = spoken_in-waits;
        told = λ d h. absurd (nobody_yet d h);
      }

  speaks-Spreads :
      (pub_x : IsPublic m x o f) (net : Network) (n : Node)
      → ((a : Text) → check_duplicate x (net a).processed_commands ≡ false)
      → ((a : Text) → IsValid (net a).peers)
      → command_of m (Counters.next (net o.0).sequence_numbers).0 ≡ some x
      → handle_message m (net o.0) ≡ some n
      → Spreads m x o f Nobody (update o.0 n net)
  speaks-Spreads pub_x net n fresh valid is_x spoken =
      let p = handle_message-eq_some m (net o.0) x f is_x pub_x.has_frame in
      let e : n ≡ speaker net = ground (arith, rw pub_x.spoken at p) in
      rw e (spoken_in-Spreads net fresh valid)

  Runs-Spreads : IsPublic m x o f → {net : Network} → Runs m x o net → Spreads m x o f Nobody net
  Runs-Spreads pub_x (speaks net n fresh valid is_x spoken) =
      speaks-Spreads pub_x net n fresh valid is_x spoken
  Runs-Spreads pub_x (speaks_too {net = net} a other n r spoken) =
      speaks_too-Spreads m x o f a other n net spoken (Runs-Spreads pub_x r)
  Runs-Spreads pub_x (delivers {net = net} a b c g rest env r e q open_client only) =
      deliver-Spreads m x o f pub_x a b c g rest env net e q open_client only (Runs-Spreads pub_x r)

  Connected-Has :
      {net : Network} {b : Text}
      → Spreads m x o f Nobody net
      → Quiet f net
      → Connected net o.0 b
      → Has x o net b
  Connected-Has h quiet self = inl refl
  Connected-Has {net} h quiet (link {b = b} d c path e alive) = elim (Bool-cases (text_eq d o.0)) [
    | inl t ↦ inl ((text_eq_iff d o.0).0 t)
    | inr apart ↦ elim (h.waits b d c (Connected-Has h quiet path) e apart) [
      | inl known ↦ inr known
      | inr (inl (inl dead)) ↦ cc
      | inr (inl (inr waiting)) ↦ absurd (quiet b d c e waiting)
      | inr (inr nobody) ↦ absurd nobody
    ]
  ]

  -- A command for everybody floods the network: in a run in which the client of the source speaks,
  -- the command being new everywhere and the peer maps valid, and then clients speak and servers
  -- send and handle frames in any order, while the channels to the clients are open, no other
  -- command with its source and number arrives, no connection begins or ends and no table entry
  -- expires, once the frame is in no channel any more every server but the source that the source
  -- is connected to, over any number of others, has the command in its table and has told its
  -- client the message that was spoken.
  pub floods :
      {net : Network} (b : Text)
      → IsPublic m x o f
      → Runs m x o net
      → Quiet f net
      → Connected net o.0 b
      → b ≢ o.0
      → Knows x (net b) × InEvents m (net b).events
  floods b pub_x r quiet path apart =
      let h = Runs-Spreads pub_x r in
      elim (Connected-Has h quiet path) [
        | inl source ↦ absurd (apart source)
        | inr known ↦ (known, h.told b known)
      ]
