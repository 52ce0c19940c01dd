-- ===== src/Server/Whispers.antt =====
-- How far a whisper goes: core/src/cmd/whisper.rs under the dispatch of core/src/server.rs.
use peer_to_peer_chat_system.Prelude.{
  ◌≡◌, refl, Bool, true, false, Option, none, some, [], ◌∷◌, ◌++◌, ◌⊎◌, inl, inr,
}
use peer_to_peer_chat_system.Prelude.Text.{Text, text_eq}
use peer_to_peer_chat_system.Peer.{PeerData}
use peer_to_peer_chat_system.Connection
use peer_to_peer_chat_system.Cmd.{whisper, check_duplicate}
use peer_to_peer_chat_system.Cmd.Whisper
use peer_to_peer_chat_system.Cmd.Whisper.{Whisper}
use peer_to_peer_chat_system.Apply.{forward, apply_whisper}
use peer_to_peer_chat_system.Node.{Node, Env, write_frame}
use peer_to_peer_chat_system.Server.{dispatch, mark_processed, handle_unless, handle_command}

-- Only the stream of the connection may have changed, by the frame of the whisper at its end.
abbrev pub Returned : Whisper → Node → Node → Type 0
Returned c n n' =
    (n'.peers ≡ n.peers)
    × (n'.events ≡ n.events)
    × ((n'.connection.written ≡ n.connection.written)
        ⊎ (n'.connection.written ≡ n.connection.written ++ Whisper.into_frame c ∷ []))

write_frame-Returned :
    (env : Env) (c : Whisper) (ok : Bool) (n : Node)
    → let k = (Connection.write_frame ok (Whisper.into_frame c) n.connection).1 in
      Returned c n (record n { connection = k })
unfolding Connection.write_frame
write_frame-Returned env c true n = (refl, refl, inr refl)
write_frame-Returned env c false n = (refl, refl, inl refl)

forward-Returned :
    (env : Env) (c : Whisper) (o : Option PeerData) (n : Node) → Returned c n (forward env c o n).1
unfolding forward write_frame
forward-Returned env c none n = (refl, refl, inl refl)
forward-Returned env c (some d) n = write_frame-Returned env c env.write_ok n

handle_unless-Returned :
    (seen : Bool) (env : Env) (my_name : Text) (c : Whisper) (n : Node)
    → text_eq c.destination my_name ≡ false
    → Returned c n (handle_unless seen env my_name (whisper c) n).1
unfolding handle_unless mark_processed dispatch apply_whisper
handle_unless-Returned true env my_name c n h = (refl, refl, inl refl)
handle_unless-Returned false env my_name c n h =
    rw h (forward-Returned env c _ (mark_processed env (whisper c) n).1)

-- A whisper for another peer is passed on to no peer and told to no client: at most it goes back,
-- once, over the connection that it came by.
pub handle_command-Returned :
    (env : Env) (my_name : Text) (c : Whisper) (n : Node)
    → text_eq c.destination my_name ≡ false
    → Returned c n (handle_command env my_name (whisper c) n).1
unfolding handle_command
handle_command-Returned env my_name c n h =
    handle_unless-Returned (check_duplicate (whisper c) n.processed_commands) env my_name c n h
