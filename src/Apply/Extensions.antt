-- ===== src/Apply/Extensions.antt =====
-- core/src/cmd/extension.rs: the six extensions, and what is done with any other.
use peer_to_peer_chat_system.Prelude.{◌==◌, [], ◌∷◌, ◌++◌, if◌then◌else◌}
use peer_to_peer_chat_system.Prelude.Decimal.{to_decimal}
use peer_to_peer_chat_system.Prelude.Search.{starts_with, contains}
use peer_to_peer_chat_system.Prelude.Text.{Text, codes}
use peer_to_peer_chat_system.PeerMap
use peer_to_peer_chat_system.Frame.{Frame, text}
use peer_to_peer_chat_system.Cmd.Extension
use peer_to_peer_chat_system.Cmd.Extension.{Extension}
use peer_to_peer_chat_system.Node.{Env, Exec, ◌>>=◌, ◌>>◌, pure, gets, broadcast, append_to_file}

abbrev newline : Text
newline = 10 ∷ []

unfoldable pub log_system_statistics : Env → Extension → Exec (Unit {0})
log_system_statistics env e = do
  append_to_file env (codes "system_stats.log")
      (codes "Stats at " ++ (e.source ++ (codes ": " ++ (env.debug e.payload ++ newline))))
  broadcast e.source (Extension.into_frame e)

abbrev echo_message : Text → Text → Text
echo_message source msg = codes "Echo from " ++ (source ++ (codes ": " ++ msg))

unfoldable pub validate_text : Env → Text → Frame → Exec (Unit {0})
validate_text env source (text msg) =
    if starts_with (codes "Valid:") msg
    then (do
      broadcast source (text (echo_message source msg))
      append_to_file env (codes "validated_messages.log")
          (codes "Broadcasting a valid message: " ++ (echo_message source msg ++ newline)))
    else pure tt
validate_text env source payload = pure tt

unfoldable pub validate_and_broadcast_message : Env → Extension → Exec (Unit {0})
unfolding validate_text
validate_and_broadcast_message env e = validate_text env e.source e.payload

unfoldable pub count_connected_peers : Env → Extension → Exec (Unit {0})
count_connected_peers env e = do
  num_peers ← gets (λ n. PeerMap.len n.peers)
  append_to_file env (codes "peer_count.log") (
      codes "Number of connected peers as reported by "
      ++ (e.source ++ (codes ": " ++ (to_decimal num_peers ++ newline))))

abbrev time_message : Env → Text → Text
time_message env source =
    codes "System time from " ++ (source ++ (codes ": " ++ to_decimal env.system_time))

unfoldable pub broadcast_system_time : Env → Extension → Exec (Unit {0})
broadcast_system_time env e = do
  broadcast e.source (text (time_message env e.source))
  append_to_file env (codes "broadcast_times.log")
      (codes "Broadcasting System Time: " ++ (time_message env e.source ++ newline))

unfoldable pub filter_text : Env → Text → Frame → Exec (Unit {0})
filter_text env source (text msg) =
    if contains (codes "Important") msg
    then (do
      broadcast source (text msg)
      append_to_file env (codes "important_messages.log")
          (codes "Forwarding important message: " ++ (msg ++ newline)))
    else pure tt
filter_text env source payload = pure tt

unfoldable pub filter_and_forward : Env → Extension → Exec (Unit {0})
unfolding filter_text
filter_and_forward env e = filter_text env e.source e.payload

unfoldable pub save_text : Env → Frame → Exec (Unit {0})
save_text env (text msg) =
    if contains (codes "Save") msg
    then append_to_file env (codes "saved_messages.log") msg
    else pure tt
save_text env payload = pure tt

unfoldable pub save_to_file : Env → Extension → Exec (Unit {0})
unfolding save_text
save_to_file env e = save_text env e.payload

-- `my_apply`
unfoldable pub apply_extension : Env → Extension → Exec (Unit {0})
apply_extension env e =
    if e.extension_id == 1
    then log_system_statistics env e
    else if e.extension_id == 2
    then validate_and_broadcast_message env e
    else if e.extension_id == 3
    then count_connected_peers env e
    else if e.extension_id == 4
    then broadcast_system_time env e
    else if e.extension_id == 5
    then filter_and_forward env e
    else if e.extension_id == 6
    then save_to_file env e
    else broadcast e.source (Extension.into_frame e)
