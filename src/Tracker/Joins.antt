-- ===== src/Tracker/Joins.antt =====
-- A peer that starts, core/src/server.rs, against the tracker, core/src/tracker.rs.
use peer_to_peer_chat_system.Prelude.{ℕ, ◌≡◌, refl, true, false, some, List, [], ◌∷◌, ◌++◌, map}
use peer_to_peer_chat_system.Prelude.Decimal.{to_decimal}
use peer_to_peer_chat_system.Frame.{Frame}
use peer_to_peer_chat_system.Result.{ok, expected, array_kind}
use peer_to_peer_chat_system.Util.Counters
use peer_to_peer_chat_system.Util.TtlMap
use peer_to_peer_chat_system.Connection
use peer_to_peer_chat_system.Connection.{frame}
use peer_to_peer_chat_system.Cmd
use peer_to_peer_chat_system.Cmd.Register
use peer_to_peer_chat_system.Cmd.RoundTrip.{from_frame-to_frame}
use peer_to_peer_chat_system.Server.Start.{Place, parse_register_response}
use peer_to_peer_chat_system.Parser
use peer_to_peer_chat_system.Server.Joining.{
  registers, reads_response, Server, listening, refused, start, registration, joins, listens_with,
  others, connect_to_peers-others,
}
use peer_to_peer_chat_system.Tracker.{
  SocketAddr, Tracker, Known, process_frame, register_of, apply_register, apply_known, apply_at,
  reply,
}
use peer_to_peer_chat_system.Tracker.Answer.{place, apply_register-Accepts}

process_frame-registration :
    (s : Server) (k : ℕ)
    → process_frame (Register.into_frame (registration s k)) ≡ ok (registration s k)
unfolding process_frame Cmd.to_frame register_of
process_frame-registration s k =
    rw (from_frame-to_frame (Cmd.register (registration s k)) _ refl) refl

module _ (addrs : SocketAddr) (choose : TtlMap.State addrs.Addr → Known addrs) where
  -- Of a peer and a tracker, and of what each does: what the peer writes is read by the tracker as
  -- the registration, which it takes without an error, writing one frame; with this frame as the
  -- response the peer listens and connects to those that the tracker chose, but not to itself.
  abbrev pub JoinsBy : ℕ → Server → Tracker addrs → Type 0
  JoinsBy now s t =
      let k = (Counters.next s.sequence_numbers).0 in
      let (r, t') = apply_register addrs choose true now (registration s k) t in
      (r ≡ ok tt)
      × (process_frame (Register.into_frame (registration s k)) ≡ ok (registration s k))
      × (f : Frame) × (t'.connection.written ≡ t.connection.written ++ f ∷ [])
      × ((start true true (frame f ∷ []) s).1.written ≡ Register.into_frame (registration s k) ∷ [])
      × ((start true true (frame f ∷ []) s).0
          ≡ listening (record (listens_with (Counters.next s.sequence_numbers).1) {
            spawned = others s.name (map (place addrs) (choose t'.peers));
          }))

  -- What a server makes of a response in which it reads places.
  start-listening :
      (s : Server) (f : Frame) (places : List Place)
      → parse_register_response f ≡ ok places
      → ((start true true (frame f ∷ []) s).1.written
          ≡ Register.into_frame (registration s (Counters.next s.sequence_numbers).0) ∷ [])
        × ((start true true (frame f ∷ []) s).0
            ≡ listening (record (listens_with (Counters.next s.sequence_numbers).1) {
              spawned = others s.name places;
            }))
  unfolding start registers Connection.write_frame Connection.read_frame Connection.take_frame
      reads_response joins
  start-listening s f places h =
      (refl, rw (h, connect_to_peers-others s.name places) (unfold listens_with in refl))

  -- A peer whose address can be read, and whose name is new to the tracker or known there under the
  -- same address, joins over connections that take what is written: what it writes is read by the
  -- tracker as its registration, which is taken without an error; with the one frame that the
  -- tracker then writes as the response the peer listens, and connects to the peers that the
  -- tracker chose, but not to itself.
  pub start-JoinsBy :
      (now : ℕ) (s : Server) (t : Tracker addrs) (a : addrs.Addr)
      → addrs.parse (s.ip_address ++ b':' ∷ to_decimal s.port) ≡ some a
      → addrs.same a a ≡ true
      → ((k : addrs.Addr) → TtlMap.get s.name t.peers ≡ some k → addrs.same k a ≡ true)
      → JoinsBy now s t
  unfolding registration Register.new
  start-JoinsBy now s t a p same known =
      let k = (Counters.next s.sequence_numbers).0 in
      let (taken, _, (f, written, read)) =
        apply_register-Accepts addrs choose now (registration s k) t a p same known in
      let (sent, joined) = start-listening s f _ read in
      (taken, process_frame-registration s k, f, written, sent, joined)

  -- A peer whose name the tracker knows under another address is refused: the tracker keeps the
  -- addresses it had, and with its one frame as the response the start of the peer returns an error
  -- and does not listen.
  pub start-refused :
      (now : ℕ) (s : Server) (t : Tracker addrs) (a k : addrs.Addr)
      → addrs.parse (s.ip_address ++ b':' ∷ to_decimal s.port) ≡ some a
      → TtlMap.get s.name t.peers ≡ some k
      → addrs.same k a ≡ false
      → let t' =
          (apply_register addrs choose true now
            (registration s (Counters.next s.sequence_numbers).0)
            t).1 in
        (t'.peers ≡ t.peers)
        × (f : Frame) × (t'.connection.written ≡ t.connection.written ++ f ∷ [])
        × ((start true true (frame f ∷ []) s).0 ≡ refused (expected array_kind f))
  unfolding registration Register.new apply_register apply_at apply_known reply start registers
      Connection.write_frame Connection.read_frame Connection.take_frame reads_response joins
      parse_register_response Parser.new
  start-refused now s t a k p known other = rw (p, known, other) (refl, _, refl, refl)
