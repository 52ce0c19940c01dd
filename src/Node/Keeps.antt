-- ===== src/Node/Keeps.antt =====
-- Properties of a node that an action keeps, and the parts of a node that no action of Node touches.
use peer_to_peer_chat_system.Prelude.{ℕ, ◌≡◌, refl, Bool, true, false, if◌then◌else◌}
use peer_to_peer_chat_system.Prelude.Text.{Text}
use peer_to_peer_chat_system.Frame.{Frame, ClientServerMessage}
use peer_to_peer_chat_system.Result.{Result, ok, err}
use peer_to_peer_chat_system.Connection
use peer_to_peer_chat_system.Peer.{PeerData}
use peer_to_peer_chat_system.PeerMap
use peer_to_peer_chat_system.Node.{
  Node, Env, Exec, ◌>>=◌, continue, pure, lift, gets, broadcast, send_client, write_frame,
  next_sequence_number, append_to_file, set_adjacent, connect_to_peer, append_if, send_client_if,
}

-- Whether it returns or fails, the action leaves a node with the property.
pub record Keeps {A : Type 0} (P : Node → Type 0) (m : Exec A) : Type 0 where
  pub after : (n : Node) → P n → P (m n).1

module _ {A : Type 0} {P : Node → Type 0} where
  pub Keeps-pure : (a : A) → Keeps P (pure a)
  Keeps-pure a = record { after = λ n h. h }

  pub Keeps-lift : (r : Result A) → Keeps P (lift r)
  Keeps-lift r = record { after = λ n h. h }

  pub Keeps-gets : (f : Node → A) → Keeps P (gets f)
  Keeps-gets f = record { after = λ n h. h }

  pub Keeps-if : (b : Bool) (m k : Exec A) → Keeps P m → Keeps P k → Keeps P (if b then m else k)
  Keeps-if true m k hm hk = hm
  Keeps-if false m k hm hk = hk

module _ {A B : Type 0} {P : Node → Type 0} where
  continue-keeps :
      (r : Result A) (f : A → Exec B) (n : Node)
      → ((a : A) → Keeps P (f a))
      → P n
      → P (continue r f n).1
  continue-keeps (ok a) f n k h = (k a).after n h
  continue-keeps (err e) f n k h = h

  pub Keeps-bind :
      (m : Exec A) (f : A → Exec B) → Keeps P m → ((a : A) → Keeps P (f a)) → Keeps P (m >>= f)
  Keeps-bind m f hm hf = record {
    after = λ n h. continue-keeps (m n).0 f (m n).1 hf (hm.after n h);
  }

pub ruleset keeps_rules = (Keeps-pure, Keeps-lift, Keeps-gets, Keeps-if, Keeps-bind)

-- The table of processed commands, the names and channels of the peer map and the frames still to
-- be read are those of `m`.
pub record Unchanged (m n : Node) : Type 0 where
  pub processed : n.processed_commands ≡ m.processed_commands
  pub entries : n.peers.entries ≡ m.peers.entries
  pub created : n.peers.next_channel ≡ m.peers.next_channel
  pub incoming : n.connection.incoming ≡ m.connection.incoming

pub Unchanged-refl : (n : Node) → Unchanged n n
Unchanged-refl n = record { processed = refl; entries = refl; created = refl; incoming = refl }

module _ (m : Node) where
  pub broadcast-Unchanged : (s : Text) (f : Frame) → Keeps (Unchanged m) (broadcast s f)
  unfolding broadcast PeerMap.broadcast
  broadcast-Unchanged s f = record {
    after = λ n h. record {
      processed = h.processed;
      entries = h.entries;
      created = h.created;
      incoming = h.incoming;
    };
  }

  send_client_if-Unchanged :
      (b : Bool) (x : ClientServerMessage) (n : Node)
      → Unchanged m n
      → Unchanged m (send_client_if b x n).1
  unfolding send_client_if
  send_client_if-Unchanged true x n h = record {
    processed = h.processed;
    entries = h.entries;
    created = h.created;
    incoming = h.incoming;
  }
  send_client_if-Unchanged false x n h = h

  pub send_client-Unchanged :
      (env : Env) (x : ClientServerMessage) → Keeps (Unchanged m) (send_client env x)
  unfolding send_client
  send_client-Unchanged env x = record { after = send_client_if-Unchanged env.client_open x }

  incoming-write_frame :
      (b : Bool) (f : Frame) (c : Connection.Connection)
      → (Connection.write_frame b f c).1.incoming ≡ c.incoming
  unfolding Connection.write_frame
  incoming-write_frame true f c = refl
  incoming-write_frame false f c = refl

  pub write_frame-Unchanged : (env : Env) (f : Frame) → Keeps (Unchanged m) (write_frame env f)
  unfolding write_frame
  write_frame-Unchanged env f = record {
    after = λ n h. record {
      processed = h.processed;
      entries = h.entries;
      created = h.created;
      incoming = rw incoming-write_frame h.incoming;
    };
  }

  pub next_sequence_number-Unchanged : Keeps (Unchanged m) next_sequence_number
  unfolding next_sequence_number
  next_sequence_number-Unchanged = record {
    after = λ n h. record {
      processed = h.processed;
      entries = h.entries;
      created = h.created;
      incoming = h.incoming;
    };
  }

  append_if-Unchanged :
      (a b : Bool) (file line : Text) (n : Node)
      → Unchanged m n
      → Unchanged m (append_if a b file line n).1
  unfolding append_if
  append_if-Unchanged true true file line n h = record {
    processed = h.processed;
    entries = h.entries;
    created = h.created;
    incoming = h.incoming;
  }
  append_if-Unchanged true false file line n h = h
  append_if-Unchanged false b file line n h = h

  pub append_to_file-Unchanged :
      (env : Env) (file line : Text) → Keeps (Unchanged m) (append_to_file env file line)
  unfolding append_to_file
  append_to_file-Unchanged env file line = record {
    after = append_if-Unchanged env.open_ok env.append_ok file line;
  }

  pub set_adjacent-Unchanged :
      (env : Env) (s : Text) (d : PeerData) (t : ℕ) → Keeps (Unchanged m) (set_adjacent env s d t)
  unfolding set_adjacent
  set_adjacent-Unchanged env s d t = record {
    after = λ n h. record {
      processed = h.processed;
      entries = h.entries;
      created = h.created;
      incoming = h.incoming;
    };
  }

  pub connect_to_peer-Unchanged :
      (name ip_address port : Text) → Keeps (Unchanged m) (connect_to_peer name ip_address port)
  unfolding connect_to_peer
  connect_to_peer-Unchanged name ip_address port = record {
    after = λ n h. record {
      processed = h.processed;
      entries = h.entries;
      created = h.created;
      incoming = h.incoming;
    };
  }
