-- ===== src/Net/Handle.antt =====
-- What one server does, core/src/server.rs, when it handles a frame, as far as it matters to a
-- command that spreads.
use peer_to_peer_chat_system.Prelude.{
  ℕ, ◌≡◌, ◌⊎◌, inl, inr, refl, sym, ap, ◌∙◌, ◌==◌, ◌&&◌, true, false, some, [], ◌∷◌, arith,
  Bool-cases, Option-cases,
}
use peer_to_peer_chat_system.Prelude.Text.{Text, text_eq, text_eq_iff}
use peer_to_peer_chat_system.Prelude.HashMap
use peer_to_peer_chat_system.Prelude.HashMap.{HashMap}
use peer_to_peer_chat_system.Frame.{Frame, ClientServerMessage}
use peer_to_peer_chat_system.PeerMap
use peer_to_peer_chat_system.PeerMap.{PeerMap, Channel, Channels, push, broadcast_loop}
use peer_to_peer_chat_system.Cmd.{
  Command, origin, to_frame, from_frame, check_duplicate, set_processed,
}
use peer_to_peer_chat_system.Cmd
use peer_to_peer_chat_system.Cmd.Say
use peer_to_peer_chat_system.Cmd.Say.{Say}
use peer_to_peer_chat_system.Cmd.Broadcast
use peer_to_peer_chat_system.Cmd.Broadcast.{Broadcast}
use peer_to_peer_chat_system.Cmd.Duplicates.{set_processed-none}
use peer_to_peer_chat_system.Cmd.RoundTrip.{from_frame-to_frame}
use peer_to_peer_chat_system.Result.{Result, ok, err}
use peer_to_peer_chat_system.Node.{Node, Env, continue}
use peer_to_peer_chat_system.Node.Peers.{
  OfPeers, broadcast-OfPeers, send_client-OfPeers, write_frame-OfPeers, append_to_file-OfPeers,
  set_adjacent-OfPeers, connect_to_peer-OfPeers, next_sequence_number-OfPeers,
}
use peer_to_peer_chat_system.Node.Keeps.{Unchanged-refl}
use peer_to_peer_chat_system.Server.{dispatch, mark_processed, handle_command, handle_frame}
use peer_to_peer_chat_system.Server.Stable.{dispatch-Serves}
use peer_to_peer_chat_system.Server.Once.{
  dispatch-Unchanged, check_duplicate-handle_command, handle_command_old, handle_command_new,
  Handled-check_duplicate, here, handled,
}
use peer_to_peer_chat_system.Server.Messages.{sender}
use peer_to_peer_chat_system.Server.Local.{local_message, dispatch_tells}
use peer_to_peer_chat_system.Server.Relay.{is_relayed, peers-dispatch, peers-handle_command}
use peer_to_peer_chat_system.Net.{InEvents}
use peer_to_peer_chat_system.Net.Pending.{
  Pending, InEvents-append, broadcast_loop-Pending, broadcast_loop-here,
}

pub same_origin : (p q : Text × ℕ) → (text_eq p.0 q.0 && p.1 == q.1) ≡ true → p ≡ q
same_origin (s, i) (t, j) h =
    let es : s ≡ t = ground (arith, text_eq_iff s t) in
    let ei : i ≡ j = ground arith in rw (es, ei) refl

-- What handling a frame on the server `my_name` does for the command `x` with the frame `f`, if it
-- is the only one with its source and number.
module _ (m : ClientServerMessage) (x : Command) (o : Text × ℕ) (f : Frame) where
  -- The command is for everybody: it is relayed by everyone, and what everyone's client is told of it is `m`.
  pub record IsPublic : Type 0 where
    pub has_origin : origin x ≡ some o
    pub has_frame : to_frame x ≡ some f
    pub relayed : (my_name : Text) → is_relayed my_name x ≡ true
    pub spoken : sender m ≡ o.0
    pub told : (my_name : Text) (number : ℕ) → local_message my_name number x ≡ m ∷ []

  -- A server to which the command is a duplicate has it waiting for each of its peers but the
  -- source, or sent.
  abbrev pub Waits : Node → Type 0
  Waits n =
      (k : Text) (c : ℕ)
      → HashMap.get k n.peers.entries ≡ some c
      → text_eq k o.0 ≡ false
      → Pending f (n.peers.channels c)

  -- `n'` comes after `n`: nothing that waits is lost, and where the command is new it waits for all.
  pub record Follows (n n' : Node) : Type 0 where
    pub entries : n'.peers.entries ≡ n.peers.entries
    pub waits : (c : ℕ) → Pending f (n.peers.channels c) → Pending f (n'.peers.channels c)
    pub known :
        check_duplicate x n.processed_commands ≡ true
        → check_duplicate x n'.processed_commands ≡ true
    pub passed :
        check_duplicate x n'.processed_commands ≡ true
        → (check_duplicate x n.processed_commands ≡ true) ⊎ (Waits n' × InEvents m n'.events)
    pub events : InEvents m n.events → InEvents m n'.events

  pub Follows-refl : (n : Node) → Follows n n
  Follows-refl n = record {
    entries = refl;
    waits = λ c h. h;
    known = λ h. h;
    passed = λ h. inl h;
    events = λ h. h;
  }

  pub broadcast_waits :
      (p : PeerMap) (k : Text) (c : ℕ)
      → HashMap.get k (PeerMap.broadcast o.0 f p).entries ≡ some c
      → text_eq k o.0 ≡ false
      → Pending f ((PeerMap.broadcast o.0 f p).channels c)
  unfolding PeerMap.broadcast
  broadcast_waits p k c e apart = broadcast_loop-here f c o.0 p.entries p.channels k e apart

  module _ (env : Env) (my_name : Text) where
    keeps_waiting :
        (y : Command) (c : ℕ) (n : Node)
        → Pending f (n.peers.channels c)
        → Pending f ((dispatch env my_name y n).1.peers.channels c)
    unfolding PeerMap.broadcast
    keeps_waiting y c n =
        let Q : PeerMap → Type 0 = λ p. Pending f (p.channels c) in
        let keeps = dispatch-Serves (OfPeers Q) env my_name y (record {
          applies = record {
            broadcasts = λ g.
                broadcast-OfPeers Q _ g
                  (λ p h. broadcast_loop-Pending f c _ g p.entries p.channels h);
            writes = write_frame-OfPeers Q env;
            appends = append_to_file-OfPeers Q env;
            adjacent = set_adjacent-OfPeers Q env _;
            connects = connect_to_peer-OfPeers Q _;
          };
          sends = send_client-OfPeers Q env;
          numbers = next_sequence_number-OfPeers Q;
          answers = λ own g.
              broadcast-OfPeers Q _ g
                (λ p h. broadcast_loop-Pending f c _ g p.entries p.channels h);
        }) in
        keeps.after n

    module _ (open_client : env.client_open ≡ true) (pub_x : IsPublic) (n : Node) where
      -- Where the command itself is new, it is passed on and told.
      passes_on :
          check_duplicate x n.processed_commands ≡ false
          → Waits (handle_command env my_name x n).1
            × InEvents m (handle_command env my_name x n).1.events
      unfolding mark_processed
      passes_on new =
          let marked = (mark_processed env x n).1 in
          let peers =
            peers-dispatch env my_name marked open_client x o f (pub_x.relayed my_name)
              pub_x.has_origin pub_x.has_frame in
          rw (peers-handle_command env my_name x n new) (
            rw peers (broadcast_waits marked.peers),
            rw (dispatch_tells env my_name x marked open_client)
                (InEvents-append m n.events _ (inr (rw pub_x.told (inl refl)))),
          )

      passed_by :
          (y : Command)
          → (origin y ≡ some o → y ≡ x)
          → check_duplicate y n.processed_commands ≡ false
          → check_duplicate x (handle_command env my_name y n).1.processed_commands ≡ true
          → (check_duplicate x n.processed_commands ≡ true)
            ⊎ (Waits (handle_command env my_name y n).1
                × InEvents m (handle_command env my_name y n).1.events)
      passed_by y only new h = elim (Option-cases (origin y)) [
        | inl none_y ↦ inl (
            sym (ap (check_duplicate x) (set_processed-none env.now y n.processed_commands none_y))
            ∙ sym (ap (check_duplicate x) (handle_command_new env my_name y n new))
            ∙ h)
        | inr (q, e) ↦
            let after = check_duplicate-handle_command env my_name y x q o n e pub_x.has_origin in
            elim (Bool-cases (text_eq q.0 o.0 && q.1 == o.1)) [
              | inl same ↦
                  let the_same : y ≡ x = only (e ∙ ap some (same_origin q o same)) in
                  rw the_same (inr (passes_on (rw the_same at new)))
              | inr apart ↦ inl (sym (rw apart at after) ∙ h)
            ]
      ]

      handle_command-Follows :
          (y : Command) → (origin y ≡ some o → y ≡ x) → Follows n (handle_command env my_name y n).1
      unfolding mark_processed
      handle_command-Follows y only = elim (Bool-cases (check_duplicate y n.processed_commands)) [
        | inl old ↦ rw (handle_command_old env my_name y n old) (Follows-refl n)
        | inr new ↦
            let marked = (mark_processed env y n).1 in
            record {
              entries =
                  rw (peers-handle_command env my_name y n new)
                    ((dispatch-Unchanged marked env my_name y).after marked
                      (Unchanged-refl marked)).entries;
              waits =
                  λ c h. rw (peers-handle_command env my_name y n new) (keeps_waiting y c marked h);
              known = λ h.
                  Handled-check_duplicate my_name x o pub_x.has_origin h (handled env y (here n));
              passed = passed_by y only new;
              events = λ h. rw (peers-handle_command env my_name y n new) (
                  rw (dispatch_tells env my_name y marked open_client)
                    (InEvents-append m n.events _ (inl h)));
            }
      ]

      result-Follows :
          (r : Result Command)
          → ((y : Command) → r ≡ ok y → origin y ≡ some o → y ≡ x)
          → Follows n (continue r (handle_command env my_name) n).1
      result-Follows (ok y) only = handle_command-Follows y (only y refl)
      result-Follows (err e) only = Follows-refl n

      pub handle_frame-Follows :
          (g : Frame)
          → ((y : Command) → from_frame g ≡ ok y → origin y ≡ some o → y ≡ x)
          → Follows n (handle_frame env my_name g n).1
      unfolding handle_frame
      handle_frame-Follows g only = result-Follows (from_frame g) only

      -- The server that handles the frame of the command knows it.
      pub handle_frame_knows :
          check_duplicate x (handle_frame env my_name f n).1.processed_commands ≡ true
      unfolding handle_frame
      handle_frame_knows = rw (from_frame-to_frame x f pub_x.has_frame) (
          check_duplicate-handle_command env my_name x x o o n pub_x.has_origin pub_x.has_origin
          ∙ ground (arith, text_eq_iff o.0 o.0))

-- What is said, and what is broadcast, is for everybody.
pub say-IsPublic :
    (c : Say)
    → IsPublic
        (ClientServerMessage.say c.source c.message)
        (Cmd.say c)
        (c.source, c.sequence_number)
        (Say.into_frame c)
unfolding origin to_frame
say-IsPublic c = record {
  has_origin = refl;
  has_frame = refl;
  relayed = λ my_name. refl;
  spoken = refl;
  told = λ my_name number. refl;
}

pub broadcast-IsPublic :
    (c : Broadcast)
    → IsPublic
        (ClientServerMessage.broadcast c.source c.bytes)
        (Cmd.broadcast c)
        (c.source, c.sequence_number)
        (Broadcast.into_frame c)
unfolding origin to_frame
broadcast-IsPublic c = record {
  has_origin = refl;
  has_frame = refl;
  relayed = λ my_name. refl;
  spoken = refl;
  told = λ my_name number. refl;
}
