-- ===== src/Connection.antt =====
-- core/src/connection.rs: `Connection`. The codec, the framing and JSON are not of this repository;
-- a connection is what its stream still yields and what was written to it.
use peer_to_peer_chat_system.Prelude.{Bool, true, false, Option, none, some, List, [], ◌∷◌, ◌++◌}
use peer_to_peer_chat_system.Frame.{Frame}
use peer_to_peer_chat_system.Result.{Result, ok, err, io}

-- What the stream yields next: a frame, or an error of the codec.
pub data Read : Type 0 where
  frame : Frame → Read
  failed : Read

pub record Connection : Type 0 where
  pub incoming : List Read
  pub written : List Frame

-- `none` where the stream has ended.
unfoldable pub take_frame : List Read → Result (Option Frame) × List Read
take_frame [] = (ok none, [])
take_frame (frame f ∷ rest) = (ok (some f), rest)
take_frame (failed ∷ rest) = (err io, rest)

unfoldable pub read_frame : Connection → Result (Option Frame) × Connection
unfolding take_frame
read_frame c = let (r, rest) = take_frame c.incoming in (r, record c { incoming = rest })

-- `write_ok` tells whether the network takes the frame.
unfoldable pub write_frame : Bool → Frame → Connection → Result (Unit {0}) × Connection
write_frame true f c = (ok tt, record c { written = c.written ++ f ∷ [] })
write_frame false f c = (err io, c)
