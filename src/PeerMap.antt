-- ===== src/PeerMap.antt =====
-- core/src/peer_map.rs: `PeerMap`, the senders to the peers that this peer has connected to, with
-- the channels that they reach. An unbounded channel is a queue and whether its receiver is alive.
pub mod Distinct
pub mod Broadcast
use mathlib.Core.Option
use peer_to_peer_chat_system.Prelude.{
  ℕ, ◌+◌, ◌==◌, Bool, true, false, Option, none, some, List, [], ◌∷◌, ◌++◌, length, if◌then◌else◌,
}
use peer_to_peer_chat_system.Prelude.Text.{Text, text_eq}
use peer_to_peer_chat_system.Prelude.HashMap
use peer_to_peer_chat_system.Prelude.HashMap.{HashMap}
use peer_to_peer_chat_system.Frame.{Frame, PeerControlMessage, frame}

pub record Channel : Type 0 where
  pub queue : List PeerControlMessage
  pub receiving : Bool

-- The channels of the program, by their numbers in the order of creation.
abbrev pub Channels : Type 0
Channels = ℕ → Channel

pub record PeerMap : Type 0 where
  pub entries : HashMap ℕ
  pub channels : Channels
  pub next_channel : ℕ

abbrev pub update : ℕ → Channel → Channels → Channels
update c v channels d = if d == c then v else channels d

abbrev pub fresh_channel : Channel
fresh_channel = record { queue = []; receiving = true }

unfoldable pub new : PeerMap
new = record { entries = []; channels = λ c. fresh_channel; next_channel = 0 }

abbrev is_some : Option ℕ → Bool
is_some none = false
is_some (some c) = true

unfoldable pub contains_peer : Text → PeerMap → Bool
contains_peer name p = is_some (HashMap.get name p.entries)

unfoldable pub len : PeerMap → ℕ
len p = length p.entries

abbrev none_in : HashMap ℕ → Bool
none_in [] = true
none_in (e ∷ m) = false

unfoldable pub is_empty : PeerMap → Bool
is_empty p = none_in p.entries

unfoldable pub peer_names : PeerMap → List Text
peer_names p = HashMap.keys p.entries

-- The new map, and the sender that the name had.
unfoldable pub insert : Text → ℕ → PeerMap → PeerMap × Option ℕ
insert peer_name peer_tx p = (
  record p { entries = HashMap.insert peer_name peer_tx p.entries },
  HashMap.get peer_name p.entries,
)

unfoldable pub remove : Text → PeerMap → PeerMap × Option ℕ
remove peer_name p =
    (record p { entries = HashMap.remove peer_name p.entries }, HashMap.get peer_name p.entries)

-- What a channel holds after a `send`, which fails if the receiver is gone.
abbrev pub push : PeerControlMessage → Channel → Channel
push m ch = if ch.receiving then record ch { queue = ch.queue ++ m ∷ [] } else ch

unfoldable pub send : ℕ → PeerControlMessage → Channels → Channels
send c m channels = update c (push m (channels c)) channels

-- The loop of `broadcast`; a failed `send` is logged and the loop goes on.
unfoldable pub broadcast_loop : Text → Frame → HashMap ℕ → Channels → Channels
broadcast_loop sender f [] channels = channels
broadcast_loop sender f ((peer_name, peer_tx) ∷ m) channels =
    broadcast_loop sender f m
      (if text_eq peer_name sender then channels else send peer_tx (frame f) channels)

unfoldable pub broadcast : Text → Frame → PeerMap → PeerMap
broadcast sender f p = record p { channels = broadcast_loop sender f p.entries p.channels }
