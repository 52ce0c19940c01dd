-- ===== src/Server/Flood.antt =====
-- Who is sent what when a command is dispatched by core/src/server.rs.
use peer_to_peer_chat_system.Prelude.{ℕ, ◌≡◌, refl, ap, ◌∙◌, Bool, true, false, some, arith}
use peer_to_peer_chat_system.Prelude.Text.{Text, text_eq_iff}
use peer_to_peer_chat_system.Prelude.HashMap
use peer_to_peer_chat_system.Frame.{Frame}
use peer_to_peer_chat_system.PeerMap
use peer_to_peer_chat_system.PeerMap.{PeerMap, Channel, push}
use peer_to_peer_chat_system.PeerMap.Distinct.{IsValid}
use peer_to_peer_chat_system.PeerMap.Broadcast.{broadcast-get}
use peer_to_peer_chat_system.Cmd.{Command, origin}
use peer_to_peer_chat_system.Node.{Node, Env}
use peer_to_peer_chat_system.Node.Peers.{
  OfPeers, broadcast-OfPeers, send_client-OfPeers, write_frame-OfPeers, append_to_file-OfPeers,
  set_adjacent-OfPeers, connect_to_peer-OfPeers, next_sequence_number-OfPeers,
}
use peer_to_peer_chat_system.Server.Stable.{
  is_own_ping, source_of, source_of-origin, dispatch-Serves,
}
use peer_to_peer_chat_system.Server.{dispatch}

-- The channel `c` of the peer `s` holds what it held, in a valid map.
abbrev Spared : PeerMap → Text → ℕ → PeerMap → Type 0
Spared p s c q = (q.channels c ≡ p.channels c) × (HashMap.get s q.entries ≡ some c) × IsValid q

broadcast-Spared :
    (p : PeerMap) (s : Text) (c : ℕ) (f : Frame) (q : PeerMap)
    → Spared p s c q
    → Spared p s c (PeerMap.broadcast s f q)
unfolding PeerMap.broadcast
broadcast-Spared p s c f q (e, g, v) = (
  broadcast-get s f q s c v g ∙ ground (arith, text_eq_iff s s),
  g,
  record { distinct = v.distinct; created = v.created },
)

true≢false : {b : Bool} → b ≡ true → b ≡ false → ⊥
true≢false p q = cc

-- No command but a ping for this peer puts anything into the channel to the peer that it is from,
-- whatever the command and the extension, in a valid peer map, and the map stays valid. What is
-- written back over the connection on which the command came is not meant.
pub dispatch_spares_source :
    (env : Env) (my_name : Text) (x : Command) (o : Text × ℕ) (c : ℕ) (n : Node)
    → origin x ≡ some o
    → is_own_ping my_name x ≡ false
    → IsValid n.peers
    → HashMap.get o.0 n.peers.entries ≡ some c
    → ((dispatch env my_name x n).1.peers.channels c ≡ n.peers.channels c)
      × IsValid (dispatch env my_name x n).1.peers
dispatch_spares_source env my_name x o c n h k v g =
    let Q = Spared n.peers (source_of x) c in
    let here = ap (λ s. HashMap.get s n.peers.entries) (source_of-origin x o h) ∙ g in
    let keeps = dispatch-Serves (OfPeers Q) env my_name x (record {
      applies = record {
        broadcasts = λ f. broadcast-OfPeers Q _ f (broadcast-Spared n.peers (source_of x) c f);
        writes = write_frame-OfPeers Q env;
        appends = append_to_file-OfPeers Q env;
        adjacent = set_adjacent-OfPeers Q env _;
        connects = connect_to_peer-OfPeers Q _;
      };
      sends = send_client-OfPeers Q env;
      numbers = next_sequence_number-OfPeers Q;
      answers = λ own f. absurd (true≢false own k);
    }) in
    let (e, _, w) = keeps.after n (refl, here, v) in (e, w)
