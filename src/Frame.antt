-- ===== src/Frame.antt =====
-- core/src/lib.rs: the frames of the protocol and the messages between a client and its server.
use peer_to_peer_chat_system.Prelude.{ℕ, Bool, List, [], ◌∷◌}
use peer_to_peer_chat_system.Prelude.Text.{Text}

-- An `f64` is its 64 bits: the code moves floats and computes nothing with them.
abbrev pub F64 : Type 0
F64 = ℕ

abbrev pub Bytes : Type 0
Bytes = List ℕ

-- `Bing2BingFrame`; `Frames` is the `Vec` in `Array`.
mutual
  pub data Frame : Type 0 where
    text : Text → Frame
    error : Text → Frame
    number : ℕ → Frame
    bulk : Bytes → Frame
    bool : Bool → Frame
    null : Frame
    array : Frames → Frame
    float : F64 → Frame

  pub data Frames : Type 0 where
    nil : Frames
    cons : Frame → Frames → Frames

-- `vec![ … ]`
abbrev pub vec : List Frame → Frames
vec [] = nil
vec (f ∷ fs) = cons f (vec fs)

-- `ClientServerMessage`
pub data ClientServerMessage : Type 0 where
  say : Text → Text → ClientServerMessage
  whisper : Text → Text → Text → ClientServerMessage
  ping : Text → Text → ℕ → ClientServerMessage
  pong : Text → ℕ → ClientServerMessage
  extension : Text → ℕ → Frame → ClientServerMessage
  deliver : Text → Text → Bytes → ClientServerMessage
  broadcast : Text → Bytes → ClientServerMessage

-- `PeerControlMessage`
pub data PeerControlMessage : Type 0 where
  shut_down : PeerControlMessage
  frame : Frame → PeerControlMessage
