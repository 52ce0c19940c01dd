-- ===== src/Server/Stable.antt =====
-- What the effects of a dispatch in core/src/server.rs keep is kept by the dispatch.
use peer_to_peer_chat_system.Prelude.{◌≡◌, refl, Bool, true, false, some, [], arith, if◌then◌else◌}
use peer_to_peer_chat_system.Prelude.Text.{Text, text_eq}
use peer_to_peer_chat_system.Prelude.{ℕ}
use peer_to_peer_chat_system.Frame.{Frame, ClientServerMessage}
use peer_to_peer_chat_system.Cmd.Pong
use peer_to_peer_chat_system.Cmd.{
  Command, broadcast, ping, pong, register, say, deliver, announce, whisper, extension, unknown,
  origin,
}
use peer_to_peer_chat_system.Apply.{
  apply_ping, apply_pong, apply_say, apply_broadcast, apply_deliver,
}
use peer_to_peer_chat_system.Apply.Stable.{
  Stable, apply_whisper-Stable, apply_announce-Stable, apply_extension-Stable,
}
use peer_to_peer_chat_system.Node
use peer_to_peer_chat_system.Node.{Node, Env, Exec, send_client, next_sequence_number}
use peer_to_peer_chat_system.Node.Keeps.{Keeps, Keeps-if, Keeps-bind, keeps_rules}
use peer_to_peer_chat_system.Server.{dispatch}

-- Whether the command is a ping for this peer, which is answered in this peer's own name.
abbrev pub is_own_ping : Text → Command → Bool
is_own_ping my_name (ping c) = text_eq c.destination my_name
is_own_ping my_name c = false

-- The source that `origin` gives; `Unknown` has none.
abbrev pub source_of : Command → Text
source_of (broadcast c) = c.source
source_of (ping c) = c.source
source_of (pong c) = c.source
source_of (register c) = c.peer_name
source_of (say c) = c.source
source_of (deliver c) = c.source
source_of (announce c) = c.source
source_of (whisper c) = c.source
source_of (extension c) = c.source
source_of unknown = []

pub source_of-origin : (x : Command) (o : Text × ℕ) → origin x ≡ some o → source_of x ≡ o.0
unfolding origin
source_of-origin (ping c) o h = ground arith
source_of-origin x o h = ground arith

-- The effects of the dispatch of `x`, each of which keeps `P`.
pub record Serves (P : Node → Type 0) (env : Env) (my_name : Text) (x : Command) : Type 0 where
  pub applies : Stable P env (source_of x)
  pub sends : (m : ClientServerMessage) → Keeps P (send_client env m)
  pub numbers : Keeps P next_sequence_number
  pub answers : is_own_ping my_name x ≡ true → (f : Frame) → Keeps P (Node.broadcast my_name f)

module _ (P : Node → Type 0) (env : Env) (my_name : Text) where
  either :
      (b : Bool) (m k : Exec (Unit {0}))
      → (b ≡ true → Keeps P m)
      → Keeps P k
      → Keeps P (if b then m else k)
  either true m k hm hk = hm refl
  either false m k hm hk = hk

  pub dispatch-Serves : (x : Command) → Serves P env my_name x → Keeps P (dispatch env my_name x)
  unfolding dispatch Pong.new apply_ping apply_pong apply_say apply_broadcast apply_deliver
  dispatch-Serves (whisper x) h =
      Keeps-if _ _ _ (h.sends _) (apply_whisper-Stable P env x h.applies)
  dispatch-Serves (announce x) h = apply_announce-Stable P env x h.applies
  dispatch-Serves (extension x) h =
      Keeps-bind _ _ h.numbers
        λ _. Keeps-if _ _ _ (h.sends _) (apply_extension-Stable P env x h.applies)
  dispatch-Serves (ping x) h =
      either (text_eq x.destination my_name) _ _
        (λ own. Keeps-bind _ _ h.numbers (λ _. h.answers own _)) (h.applies.broadcasts _)
  dispatch-Serves (register x) h = search keeps_rules
  dispatch-Serves unknown h = search keeps_rules
  dispatch-Serves x h = search (keeps_rules, h.sends, h.applies.broadcasts)
