-- ===== src/Tracker/Answer.antt =====
-- What a tracker answers to a register command, and what a peer reads in it.
use peer_to_peer_chat_system.Prelude.{
  ℕ, ◌≡◌, refl, true, Option, none, some, [], ◌∷◌, ◌++◌, map, arith,
}
use peer_to_peer_chat_system.Prelude.Text.{Text, text_eq_iff}
use peer_to_peer_chat_system.Frame.{Frame, vec}
use peer_to_peer_chat_system.Result.{Result, ok}
use peer_to_peer_chat_system.Parser
use peer_to_peer_chat_system.Util.TtlMap
use peer_to_peer_chat_system.Util.TtlMap.Lookup.{get-set}
use peer_to_peer_chat_system.Connection
use peer_to_peer_chat_system.Cmd.Register.{Register}
use peer_to_peer_chat_system.Server.Start.{Place, parse_peer, parse_peers, parse_register_response}
use peer_to_peer_chat_system.Tracker.{
  SocketAddr, Tracker, Known, peer_info_frame, answer, reply, apply_known, apply_at, apply_register,
}

module _ (addrs : SocketAddr) where
  abbrev pub place : Text × addrs.Addr → Place
  place (peer_name, addr) = (peer_name, addrs.ip addr, addrs.port addr)

  parse_peers-answer :
      (l : Known addrs) → parse_peers (vec (map (peer_info_frame addrs) l)) ≡ ok (map place l)
  unfolding parse_peers parse_peer peer_info_frame Parser.next_text Parser.finish
  parse_peers-answer [] = refl
  parse_peers-answer ((n, a) ∷ l) = rw (parse_peers-answer l)

  parse_register_response-answer :
      (l : Known addrs) → parse_register_response (answer addrs l) ≡ ok (map place l)
  unfolding parse_register_response answer Parser.new
  parse_register_response-answer l = parse_peers-answer l

  -- What a register command that is accepted leaves behind: a return without an error, the name with
  -- an address that is the same as the given one, and a frame in which the places of the chosen
  -- peers are read.
  abbrev pub Accepts :
      (TtlMap.State addrs.Addr → Known addrs)
      → Text
      → addrs.Addr
      → Tracker addrs
      → Result (Unit {0}) × Tracker addrs
      → Type 0
  Accepts choose peer_name a t (r, t') =
      (r ≡ ok tt)
      × ((k : addrs.Addr) × (TtlMap.get peer_name t'.peers ≡ some k) × (addrs.same k a ≡ true))
      × ((f : Frame) × (t'.connection.written ≡ t.connection.written ++ f ∷ [])
          × (parse_register_response f ≡ ok (map place (choose t'.peers))))

  module _ (choose : TtlMap.State addrs.Addr → Known addrs) (now : ℕ) (name : Text)
      (a : addrs.Addr) where
    apply_known-Accepts :
        (o : Option addrs.Addr) (t : Tracker addrs)
        → addrs.same a a ≡ true
        → TtlMap.get name t.peers ≡ o
        → ((k : addrs.Addr) → o ≡ some k → addrs.same k a ≡ true)
        → Accepts choose name a t (apply_known addrs choose true now name a o t)
    unfolding apply_known reply Connection.write_frame
    apply_known-Accepts none t s e h = (
      refl,
      (a, rw get-set (ground (arith, text_eq_iff name name)), s),
      (_, refl, parse_register_response-answer _),
    )
    apply_known-Accepts (some k) t s e h =
        rw (h k refl) (refl, (k, e, h k refl), (_, refl, parse_register_response-answer _))

  -- A peer that registers a name which is new, or known under the same address, with an address that
  -- can be read and over a connection that takes the answer, is known under that name afterwards
  -- with an address that is the same; the one frame written is read by the peer as the names,
  -- addresses and ports of the peers that were chosen from those then known.
  pub apply_register-Accepts :
      (choose : TtlMap.State addrs.Addr → Known addrs) (now : ℕ) (c : Register) (t : Tracker addrs)
      (a : addrs.Addr)
      → addrs.parse (c.ip_address ++ b':' ∷ c.port) ≡ some a
      → addrs.same a a ≡ true
      → ((k : addrs.Addr) → TtlMap.get c.peer_name t.peers ≡ some k → addrs.same k a ≡ true)
      → Accepts choose c.peer_name a t (apply_register addrs choose true now c t)
  unfolding apply_register apply_at
  apply_register-Accepts choose now c t a p s h =
      rw p
        (apply_known-Accepts choose now c.peer_name a (TtlMap.get c.peer_name t.peers) t s refl h)
