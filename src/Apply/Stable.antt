-- ===== src/Apply/Stable.antt =====
-- What the effects of a command from one source keep is kept by each `apply` of such a command.
use peer_to_peer_chat_system.Prelude.{zero, suc, Option, none, some, Bool, true, false, ℕ}
use peer_to_peer_chat_system.Prelude.Text.{Text}
use peer_to_peer_chat_system.Frame.{Frame, text}
use peer_to_peer_chat_system.Peer.{PeerData}
use peer_to_peer_chat_system.Cmd.Whisper.{Whisper}
use peer_to_peer_chat_system.Cmd.Announce.{Announce}
use peer_to_peer_chat_system.Cmd.Extension.{Extension}
use peer_to_peer_chat_system.Apply.{forward, apply_whisper, roll_for, consider, apply_announce}
use peer_to_peer_chat_system.Apply.Extensions.{
  log_system_statistics, validate_text, validate_and_broadcast_message, count_connected_peers,
  broadcast_system_time, filter_text, filter_and_forward, save_text, save_to_file, apply_extension,
}
use peer_to_peer_chat_system.Node.{
  Node, Env, broadcast, write_frame, append_to_file, set_adjacent, connect_to_peer,
}
use peer_to_peer_chat_system.Node.Keeps.{Keeps, Keeps-gets, Keeps-if, Keeps-bind, keeps_rules}

-- The effects of the methods `apply` of a command from `s`, each of which keeps `P`.
pub record Stable (P : Node → Type 0) (env : Env) (s : Text) : Type 0 where
  pub broadcasts : (f : Frame) → Keeps P (broadcast s f)
  pub writes : (f : Frame) → Keeps P (write_frame env f)
  pub appends : (file line : Text) → Keeps P (append_to_file env file line)
  pub adjacent : (d : PeerData) (t : ℕ) → Keeps P (set_adjacent env s d t)
  pub connects : (ip_address port : Text) → Keeps P (connect_to_peer s ip_address port)

module _ (P : Node → Type 0) (env : Env) where
  forward-Stable :
      (c : Whisper) (o : Option PeerData) → Stable P env c.source → Keeps P (forward env c o)
  unfolding forward
  forward-Stable c none h = search keeps_rules
  forward-Stable c (some d) h = h.writes _

  pub apply_whisper-Stable : (c : Whisper) → Stable P env c.source → Keeps P (apply_whisper env c)
  unfolding apply_whisper
  apply_whisper-Stable c h = Keeps-bind _ _ (Keeps-gets _) (λ o. forward-Stable c o h)

  roll_for-Stable : (c : Announce) (k : ℕ) → Stable P env c.source → Keeps P (roll_for env c k)
  unfolding roll_for
  roll_for-Stable c zero h = search keeps_rules
  roll_for-Stable c (suc k) h = search (keeps_rules, h.connects)

  pub consider-Stable :
      (c : Announce) (known empty : Bool)
      → Stable P env c.source
      → Keeps P (consider env c known empty)
  unfolding consider
  consider-Stable c true empty h = search keeps_rules
  consider-Stable c false true h = roll_for-Stable c 10 h
  consider-Stable c false false h = roll_for-Stable c c.available_incoming h

  pub apply_announce-Stable :
      (c : Announce) → Stable P env c.source → Keeps P (apply_announce env c)
  unfolding apply_announce
  apply_announce-Stable c h =
      let rest = λ (known empty : Bool). consider-Stable c known empty h in
      search (keeps_rules, h.adjacent, h.broadcasts, rest) depth 8

  module _ (s : Text) (h : Stable P env s) where
    validate_text-Stable : (f : Frame) → Keeps P (validate_text env s f)
    unfolding validate_text
    validate_text-Stable (text msg) = search (keeps_rules, h.broadcasts, h.appends)
    validate_text-Stable f = search keeps_rules

    filter_text-Stable : (f : Frame) → Keeps P (filter_text env s f)
    unfolding filter_text
    filter_text-Stable (text msg) = search (keeps_rules, h.broadcasts, h.appends)
    filter_text-Stable f = search keeps_rules

    save_text-Stable : (f : Frame) → Keeps P (save_text env f)
    unfolding save_text
    save_text-Stable (text msg) = search (keeps_rules, h.appends)
    save_text-Stable f = search keeps_rules

  module _ (e : Extension) (h : Stable P env e.source) where
    log-Stable : Keeps P (log_system_statistics env e)
    unfolding log_system_statistics
    log-Stable = search (keeps_rules, h.broadcasts, h.appends)

    count-Stable : Keeps P (count_connected_peers env e)
    unfolding count_connected_peers
    count-Stable = search (keeps_rules, h.appends)

    time-Stable : Keeps P (broadcast_system_time env e)
    unfolding broadcast_system_time
    time-Stable = search (keeps_rules, h.broadcasts, h.appends)

    validate-Stable : Keeps P (validate_and_broadcast_message env e)
    unfolding validate_and_broadcast_message
    validate-Stable = validate_text-Stable e.source h e.payload

    filter-Stable : Keeps P (filter_and_forward env e)
    unfolding filter_and_forward
    filter-Stable = filter_text-Stable e.source h e.payload

    save-Stable : Keeps P (save_to_file env e)
    unfolding save_to_file
    save-Stable = save_text-Stable e.source h e.payload

    unknown-Stable : (f : Frame) → Keeps P (broadcast e.source f)
    unknown-Stable = h.broadcasts

    pub apply_extension-Stable : Keeps P (apply_extension env e)
    unfolding apply_extension
    apply_extension-Stable =
        search
          (
            Keeps-if, log-Stable, validate-Stable, count-Stable, time-Stable, filter-Stable,
            save-Stable, unknown-Stable,
          )
          depth 12
