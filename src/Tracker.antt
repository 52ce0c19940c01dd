-- ===== src/Tracker.antt =====
-- core/src/tracker.rs with `Register::apply` of core/src/cmd/register.rs: the tracker, which knows
-- the peers that are registered and tells each that registers of some of them.
pub mod Answer
pub mod Joins
pub mod Connections
pub mod Listen
pub mod Binary
use peer_to_peer_chat_system.Prelude.{
  ℕ, zero, suc, ◌≡◌, Bool, true, false, Option, none, some, List, [], ◌∷◌, map, if◌then◌else◌, ◌++◌,
}
use peer_to_peer_chat_system.Prelude.Text.{Text, codes}
use peer_to_peer_chat_system.Frame.{Frame, Frames, text, array, vec, error}
use peer_to_peer_chat_system.Result
use peer_to_peer_chat_system.Result.{Result, ok, err, bad_address, not_a_register}
use peer_to_peer_chat_system.Util.TtlMap
use peer_to_peer_chat_system.Connection
use peer_to_peer_chat_system.Connection.{Connection}
use peer_to_peer_chat_system.Cmd.{
  Command, broadcast, ping, pong, register, say, deliver, announce, whisper, extension, unknown,
  from_frame,
}
use peer_to_peer_chat_system.Cmd.Register.{Register}

-- What the code uses of `std::net::SocketAddr`: reading one from `ip:port`, its two parts as texts,
-- and its equality.
pub record SocketAddr : Type 1 where
  pub Addr : Type 0
  pub parse : Text → Option Addr
  pub ip : Addr → Text
  pub port : Addr → Text
  pub same : Addr → Addr → Bool

module _ (addrs : SocketAddr) where
  -- A connection's view of the tracker.
  pub record Tracker : Type 0 where
    pub peers : TtlMap.State addrs.Addr
    pub connection : Connection

-- `process_frame`
unfoldable pub register_of : Command → Result Register
register_of (register c) = ok c
register_of c = err not_a_register

unfoldable pub process_frame : Frame → Result Register
unfolding register_of
process_frame f = Result.◌>>=◌ (from_frame f) register_of

module _ (addrs : SocketAddr) where
  abbrev pub Known : Type 0
  Known = List (Text × addrs.Addr)

  -- The frame of a peer in the answer, and the answer.
  unfoldable pub peer_info_frame : Text × addrs.Addr → Frame
  peer_info_frame (peer_name, addr) =
      array (vec (text peer_name ∷ text (addrs.ip addr) ∷ text (addrs.port addr) ∷ []))

  unfoldable pub answer : Known → Frame
  unfolding peer_info_frame
  answer random_peers = array (vec (map peer_info_frame random_peers))

  -- `dst.write_frame(frame).await?`, `write_ok` telling whether the network takes the frame.
  unfoldable pub reply : Bool → Frame → Tracker addrs → Result (Unit {0}) × Tracker addrs
  reply write_ok f t =
      let (r, c) = Connection.write_frame write_ok f t.connection in
      (r, record t { connection = c })

  -- `apply` on an address that was read, by what was found under the name, which is set here only
  -- after that lookup has given the lock back. `choose` is what `random_keys_vals(5)` makes of the
  -- peers, whose expiry is not its concern.
  unfoldable pub apply_known :
      (TtlMap.State addrs.Addr → Known)
      → Bool
      → ℕ
      → Text
      → addrs.Addr
      → Option addrs.Addr
      → Tracker addrs
      → Result (Unit {0}) × Tracker addrs
  unfolding answer reply
  apply_known choose write_ok now peer_name socket_addr (some addr) t =
      if addrs.same addr socket_addr
      then reply write_ok (answer (choose t.peers)) t
      else reply write_ok (error (codes "Peer name already registered under a different ip:port!"))
          t
  apply_known choose write_ok now peer_name socket_addr none t =
      let known = (TtlMap.set now peer_name socket_addr none t.peers).0 in
      reply write_ok (answer (choose known)) (record t { peers = known })

  unfoldable pub apply_at :
      (TtlMap.State addrs.Addr → Known)
      → Bool
      → ℕ
      → Register
      → Option addrs.Addr
      → Tracker addrs
      → Result (Unit {0}) × Tracker addrs
  unfolding apply_known
  apply_at choose write_ok now c none t = (err bad_address, t)
  apply_at choose write_ok now c (some socket_addr) t =
      apply_known choose write_ok now c.peer_name socket_addr (TtlMap.get c.peer_name t.peers) t

  -- `Register::apply`, where no other task comes between the lookup and what follows from it;
  -- Tracker.Listen has the two apart.
  unfoldable pub apply_register :
      (TtlMap.State addrs.Addr → Known)
      → Bool
      → ℕ
      → Register
      → Tracker addrs
      → Result (Unit {0}) × Tracker addrs
  unfolding apply_at
  apply_register choose write_ok now c t =
      apply_at choose write_ok now c (addrs.parse (c.ip_address ++ b':' ∷ c.port)) t
