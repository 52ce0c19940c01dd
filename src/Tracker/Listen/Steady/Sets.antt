-- ===== src/Tracker/Listen/Steady/Sets.antt =====
-- `Register::apply`, core/src/cmd/register.rs, from what was found under the name on, and one name
-- that is known.
use peer_to_peer_chat_system.Prelude.{
  ℕ, ◌≡◌, ◌∙◌, Bool, true, false, Option, none, some, if◌then◌else◌, Bool-cases, inl, inr,
}
use peer_to_peer_chat_system.Prelude.Text.{Text, text_eq, text_eq_iff}
use peer_to_peer_chat_system.Frame.{Frame}
use peer_to_peer_chat_system.Util.TtlMap
use peer_to_peer_chat_system.Util.TtlMap.Lookup.{get-set}
use peer_to_peer_chat_system.Connection.{Connection}
use peer_to_peer_chat_system.Cmd.Register.{Register}
use peer_to_peer_chat_system.Tracker.{SocketAddr, Tracker, Known, reply, answer, apply_known}
use peer_to_peer_chat_system.Tracker.Listen.{Phase, registering}

module _ (addrs : SocketAddr) where
  -- The task has looked the name up when it was not known, and has not set it yet.
  abbrev pub MaySet : Text → Phase addrs → Type 0
  MaySet name (registering peer_name c socket_addr none connection) = c.peer_name ≡ name
  MaySet name p = ⊥

  module _ (name : Text) (a : addrs.Addr) where
    abbrev pub Knows : TtlMap.State addrs.Addr → Type 0
    Knows peers = TtlMap.get name peers ≡ some a

    reply-Knows :
        (b : Bool) (f : Frame) (t : Tracker addrs)
        → Knows t.peers
        → Knows (reply addrs b f t).1.peers
    unfolding reply
    reply-Knows b f t h = h

    if_replied :
        (b c : Bool) (f g : Frame) (t : Tracker addrs)
        → Knows t.peers
        → Knows (if b then reply addrs c f t else reply addrs c g t).1.peers
    if_replied true c f g t h = reply-Knows c f t h
    if_replied false c f g t h = reply-Knows c g t h

    -- Only a name that was not found is set.
    pub apply_known-Knows :
        (choose : TtlMap.State addrs.Addr → Known addrs) (b : Bool) (now : ℕ) (peer_name : Text)
        (c : Register) (x : addrs.Addr) (o : Option addrs.Addr) (k : Connection) (t : Tracker addrs)
        → (MaySet name (registering peer_name c x o k) → ⊥)
        → Knows t.peers
        → Knows (apply_known addrs choose b now c.peer_name x o t).1.peers
    unfolding apply_known
    apply_known-Knows choose b now peer_name c x (some y) k t other h = if_replied _ b _ _ t h
    apply_known-Knows choose b now peer_name c x none k t other h =
        let known = (TtlMap.set now c.peer_name x none t.peers).0 in
        reply-Knows b (answer addrs (choose known)) (record t { peers = known })
          (get-set now c.peer_name name x none t.peers
            ∙ elim (Bool-cases (text_eq c.peer_name name)) [
              | inl q ↦ absurd (other ((text_eq_iff c.peer_name name).0 q))
              | inr q ↦ rw q h
            ])
