-- ===== src/Server/Emits.antt =====
-- What the dispatch of a command by core/src/server.rs puts into the channels of the peers.
use peer_to_peer_chat_system.Prelude.{ℕ, ◌≡◌, refl, Bool, true, false, some, if◌then◌else◌}
use peer_to_peer_chat_system.Prelude.Text.{Text}
use peer_to_peer_chat_system.Frame.{Frame, text, ClientServerMessage}
use peer_to_peer_chat_system.Util.Counters
use peer_to_peer_chat_system.PeerMap
use peer_to_peer_chat_system.PeerMap.{PeerMap}
use peer_to_peer_chat_system.Cmd.Pong
use peer_to_peer_chat_system.Cmd.Pong.{Pong}
use peer_to_peer_chat_system.Cmd.Announce.{Announce}
use peer_to_peer_chat_system.Cmd.Whisper.{Whisper}
use peer_to_peer_chat_system.Util.TtlMap
use peer_to_peer_chat_system.Cmd.Extension.{Extension}
use peer_to_peer_chat_system.Cmd.{
  Command, broadcast, ping, pong, register, say, deliver, announce, whisper, extension, unknown,
  to_frame,
}
use peer_to_peer_chat_system.Apply.Spares.{peers-consider}
use peer_to_peer_chat_system.Apply.{
  apply_ping, apply_pong, apply_say, apply_broadcast, apply_deliver, apply_whisper, apply_announce,
  forward,
}
use peer_to_peer_chat_system.Apply.Extensions.{
  apply_extension, log_system_statistics, validate_and_broadcast_message, validate_text,
  count_connected_peers, broadcast_system_time, filter_and_forward, filter_text, save_to_file,
  save_text,
}
use peer_to_peer_chat_system.Node
use peer_to_peer_chat_system.Node.{
  Node, Env, Exec, ◌>>=◌, ◌>>◌, pure, send_client, send_client_if, set_adjacent, connect_to_peer,
  append_to_file, append_if, write_frame, next_sequence_number,
}
use peer_to_peer_chat_system.Peer.{PeerData}
use peer_to_peer_chat_system.Prelude.{Option, none}
use peer_to_peer_chat_system.Server.{dispatch}

-- At most one frame goes to the peers: the frame of the command, a pong or a text, which is no
-- command.
pub data Emits (x : Command) (p q : PeerMap) : Type 0 where
  nothing : q ≡ p → Emits x p q
  passes_on :
      (s : Text) (f : Frame) → to_frame x ≡ some f → q ≡ PeerMap.broadcast s f p → Emits x p q
  answers : (s : Text) (c : Pong) → q ≡ PeerMap.broadcast s (Pong.into_frame c) p → Emits x p q
  texts : (s message : Text) → q ≡ PeerMap.broadcast s (text message) p → Emits x p q

-- Whether it returns or fails, the action puts at most that into the channels.
pub record Puts (x : Command) (m : Exec (Unit {0})) : Type 0 where
  pub puts : (n : Node) → Emits x n.peers (m n).1.peers

module _ (x : Command) where
  Puts-pure : Puts x (pure tt)
  Puts-pure = record { puts = λ n. nothing refl }

  Puts-if : (b : Bool) (m k : Exec (Unit {0})) → Puts x m → Puts x k → Puts x (if b then m else k)
  Puts-if true m k hm hk = hm
  Puts-if false m k hm hk = hk

  sent : (b : Bool) (m : ClientServerMessage) (n : Node) → (send_client_if b m n).1.peers ≡ n.peers
  unfolding send_client_if
  sent true m n = refl
  sent false m n = refl

  send_client-Puts : (env : Env) (m : ClientServerMessage) → Puts x (send_client env m)
  unfolding send_client
  send_client-Puts env m = record { puts = λ n. nothing (sent env.client_open m n) }

  broadcast-Puts : (s : Text) (f : Frame) → to_frame x ≡ some f → Puts x (Node.broadcast s f)
  unfolding Node.broadcast
  broadcast-Puts s f h = record { puts = λ n. passes_on s f h refl }

  told_then :
      (b : Bool) (m : ClientServerMessage) (s : Text) (f : Frame) (n : Node)
      → to_frame x ≡ some f
      → Emits x n.peers ((send_client_if b m >> Node.broadcast s f) n).1.peers
  unfolding send_client_if Node.broadcast
  told_then true m s f n h = passes_on s f h refl
  told_then false m s f n h = nothing refl

  -- The client is told, and then the command is passed on.
  told-Puts :
      (env : Env) (m : ClientServerMessage) (s : Text) (f : Frame)
      → to_frame x ≡ some f
      → Puts x (send_client env m >> Node.broadcast s f)
  unfolding send_client
  told-Puts env m s f h = record { puts = λ n. told_then env.client_open m s f n h }

  appended :
      (a b : Bool) (file line : Text) (n : Node) → (append_if a b file line n).1.peers ≡ n.peers
  unfolding append_if
  appended true true file line n = refl
  appended true false file line n = refl
  appended false b file line n = refl

  append-Puts : (env : Env) (file line : Text) → Puts x (append_to_file env file line)
  unfolding append_to_file
  append-Puts env file line = record {
    puts = λ n. nothing (appended env.open_ok env.append_ok file line n);
  }

  text-Puts :
      (env : Env) (s message file line : Text)
      → Puts x (Node.broadcast s (text message) >> append_to_file env file line)
  unfolding append_to_file Node.broadcast
  text-Puts env s message file line = record {
    puts = λ n. texts s message (
        appended env.open_ok env.append_ok file line
          (record n { peers = PeerMap.broadcast s (text message) n.peers }));
  }

  logged_then :
      (a b : Bool) (file line s : Text) (f : Frame) (n : Node)
      → to_frame x ≡ some f
      → Emits x n.peers ((append_if a b file line >> Node.broadcast s f) n).1.peers
  unfolding append_if Node.broadcast
  logged_then true true file line s f n h = passes_on s f h refl
  logged_then true false file line s f n h = nothing refl
  logged_then false b file line s f n h = nothing refl

  logged-Puts :
      (env : Env) (file line s : Text) (f : Frame)
      → to_frame x ≡ some f
      → Puts x (append_to_file env file line >> Node.broadcast s f)
  unfolding append_to_file
  logged-Puts env file line s f h = record {
    puts = λ n. logged_then env.open_ok env.append_ok file line s f n h;
  }

  module _ (env : Env) (s : Text) where
    validate-Puts : (f : Frame) → Puts x (validate_text env s f)
    unfolding validate_text
    validate-Puts (text message) = search (Puts-if, Puts-pure, text-Puts)
    validate-Puts f = Puts-pure

    filter-Puts : (f : Frame) → Puts x (filter_text env s f)
    unfolding filter_text
    filter-Puts (text message) = search (Puts-if, Puts-pure, text-Puts)
    filter-Puts f = Puts-pure

    save-Puts : (f : Frame) → Puts x (save_text env f)
    unfolding save_text
    save-Puts (text message) = search (Puts-if, Puts-pure, append-Puts)
    save-Puts f = Puts-pure

module _ (env : Env) where
  count-Puts : (x : Command) (e : Extension) → Puts x (count_connected_peers env e)
  unfolding count_connected_peers
  count-Puts x e = record { puts = λ n. (append-Puts x env _ _).puts n }

  extension-Puts : (e : Extension) → Puts (extension e) (apply_extension env e)
  unfolding apply_extension log_system_statistics validate_and_broadcast_message
      broadcast_system_time filter_and_forward save_to_file to_frame
  extension-Puts e =
      let x = extension e in
      Puts-if x _ _ _ (logged-Puts x env _ _ _ _ refl) (
        Puts-if x _ _ _ (validate-Puts x env e.source e.payload) (
          Puts-if x _ _ _ (count-Puts x e) (
            Puts-if x _ _ _ (text-Puts x env e.source _ _ _) (
              Puts-if x _ _ _ (filter-Puts x env e.source e.payload) (
                Puts-if x _ _ _ (save-Puts x env e.source e.payload)
                  (broadcast-Puts x e.source _ refl))))))

  announce-Puts : (c : Announce) → Puts (announce c) (apply_announce env c)
  unfolding apply_announce set_adjacent Node.broadcast to_frame
  announce-Puts c = record { puts = λ n. passes_on c.source _ refl (peers-consider env c _ _ _) }

  forward-Puts : (x : Command) (c : Whisper) (o : Option PeerData) → Puts x (forward env c o)
  unfolding forward write_frame
  forward-Puts x c none = Puts-pure x
  forward-Puts x c (some d) = record { puts = λ n. nothing refl }

  whisper-Puts : (c : Whisper) → Puts (whisper c) (apply_whisper env c)
  unfolding apply_whisper
  whisper-Puts c = record {
    puts = λ n. (forward-Puts (whisper c) c (TtlMap.get c.destination n.adjacency_list)).puts n;
  }

  numbered-Puts :
      (x : Command) (f : ℕ → Exec (Unit {0}))
      → ((k : ℕ) → Puts x (f k))
      → Puts x (next_sequence_number >>= f)
  unfolding next_sequence_number
  numbered-Puts x f h = record {
    puts = λ n.
        let (k, c) = Counters.next n.sequence_numbers in
        (h k).puts (record n { sequence_numbers = c });
  }

  answer-Puts : (x : Command) (c : Pong) → Puts x (apply_pong c)
  unfolding apply_pong Node.broadcast
  answer-Puts x c = record { puts = λ n. answers c.source c refl }

  -- The dispatch of a command puts at most one frame into the channels of the peers.
  pub dispatch-Puts : (my_name : Text) (x : Command) → Puts x (dispatch env my_name x)
  unfolding dispatch apply_ping apply_say apply_broadcast apply_deliver to_frame
  dispatch-Puts my_name (say c) = told-Puts (say c) env _ _ _ refl
  dispatch-Puts my_name (broadcast c) = told-Puts (broadcast c) env _ _ _ refl
  dispatch-Puts my_name (pong c) =
      Puts-if (pong c) _ _ _ (send_client-Puts (pong c) env _) (answer-Puts (pong c) c)
  dispatch-Puts my_name (ping c) =
      Puts-if (ping c) _ _ _ (numbered-Puts (ping c) _ (λ k. answer-Puts (ping c) _))
        (broadcast-Puts (ping c) _ _ refl)
  dispatch-Puts my_name (deliver c) =
      Puts-if (deliver c) _ _ _ (send_client-Puts (deliver c) env _)
        (broadcast-Puts (deliver c) _ _ refl)
  dispatch-Puts my_name (whisper c) =
      Puts-if (whisper c) _ _ _ (send_client-Puts (whisper c) env _) (whisper-Puts c)
  dispatch-Puts my_name (extension c) =
      numbered-Puts (extension c) _
        (λ k. Puts-if (extension c) _ _ _ (send_client-Puts (extension c) env _) (extension-Puts c))
  dispatch-Puts my_name (announce c) = announce-Puts c
  dispatch-Puts my_name (register c) = Puts-pure (register c)
  dispatch-Puts my_name unknown = Puts-pure unknown
