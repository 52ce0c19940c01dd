-- ===== src/Init.antt =====
-- core/src/lib.rs: `init`, the client and the server of a new peer.
use peer_to_peer_chat_system.Prelude.{ℕ, ◌≡◌, refl, ◌<◌, ◌^◌, Bool, true, Option, none, some, arith}
use peer_to_peer_chat_system.Prelude.Text.{Text}
use peer_to_peer_chat_system.Prelude.Decimal.{to_decimal}
use peer_to_peer_chat_system.Prelude.Number.{parse_u64-to_decimal}
use peer_to_peer_chat_system.Result.{Result, ok, err}
use peer_to_peer_chat_system.Peer.{PeerData}
use peer_to_peer_chat_system.Client
use peer_to_peer_chat_system.Client.{Client}
use peer_to_peer_chat_system.Server.Joining
use peer_to_peer_chat_system.Server.Joining.{Server}

-- `Server::new(…).await.unwrap()`, where `none` is a panic.
unfoldable pub pair : Text → Option (Result Server) → Option (Client × Server)
pair name none = none
pair name (some (err e)) = none
pair name (some (ok server)) = some (Client.new name, server)

-- `init`, where `bind_ok` tells whether the address can be bound.
unfoldable pub init : Bool → Text → Text → ℕ → PeerData → Option (Client × Server)
unfolding pair
init bind_ok name ip_address port peer_data =
    pair name (Joining.new bind_ok name ip_address (to_decimal port) peer_data)

-- The server of a peer that is new.
abbrev pub fresh_server : Text → Text → ℕ → PeerData → Server
fresh_server name ip_address port peer_data = record {
  sequence_numbers = 0;
  name = name;
  ip_address = ip_address;
  port = port;
  num_incoming_conns = 0;
  my_peer_data = peer_data;
}

-- Where the address of a port of 16 bits can be bound, `init` does not panic: the client and the
-- server have the name, and the server the address and the port.
pub init-some :
    (name ip_address : Text) (port : ℕ) (peer_data : PeerData)
    → port < 2 ^ 16
    → init true name ip_address port peer_data
      ≡ some (Client.new name, fresh_server name ip_address port peer_data)
unfolding init pair Joining.new Joining.new_at
init-some name ip_address port peer_data h = rw (parse_u64-to_decimal port (omega arith)) refl
