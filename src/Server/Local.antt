-- ===== src/Server/Local.antt =====
-- What core/src/server.rs tells the client when it dispatches a command.
use peer_to_peer_chat_system.Prelude.{
  ℕ, ◌≡◌, refl, sym, ◌∙◌, ◌==◌, Bool, true, false, List, [], ◌∷◌, ◌++◌, if◌then◌else◌, Bool-cases,
  inl, inr,
}
use mathlib.Core.List.{append-nil}
use peer_to_peer_chat_system.Prelude.Text.{Text, text_eq}
use peer_to_peer_chat_system.Frame.{ClientServerMessage}
use peer_to_peer_chat_system.Cmd.{
  Command, broadcast, ping, pong, register, say, deliver, announce, whisper, extension, unknown,
}
use peer_to_peer_chat_system.Apply.{
  apply_ping, apply_pong, apply_say, apply_broadcast, apply_deliver,
}
use peer_to_peer_chat_system.Apply.Stable.{
  Stable, apply_whisper-Stable, apply_announce-Stable, apply_extension-Stable,
}
use peer_to_peer_chat_system.Apply.{apply_whisper}
use peer_to_peer_chat_system.Apply.Extensions.{apply_extension}
use peer_to_peer_chat_system.Util.Counters
use peer_to_peer_chat_system.Node
use peer_to_peer_chat_system.Node.{
  Node, Env, Exec, send_client, send_client_if, set_adjacent, connect_to_peer, next_sequence_number,
  append_if, append_to_file, write_frame,
}
use peer_to_peer_chat_system.Server.{dispatch}

-- What the client is told of a command, if the next sequence number is `number`.
abbrev pub local_message : Text → ℕ → Command → List ClientServerMessage
local_message my_name number (say c) = ClientServerMessage.say c.source c.message ∷ []
local_message my_name number (broadcast c) = ClientServerMessage.broadcast c.source c.bytes ∷ []
local_message my_name number (pong c) =
    if text_eq c.destination my_name then ClientServerMessage.pong c.source c.sent_at ∷ [] else []
local_message my_name number (deliver c) =
    if text_eq c.destination my_name
    then ClientServerMessage.deliver c.source c.destination c.bytes ∷ []
    else []
local_message my_name number (whisper c) =
    if text_eq c.destination my_name
    then ClientServerMessage.whisper c.source c.destination c.message ∷ []
    else []
local_message my_name number (extension c) =
    if c.sequence_number == number
    then ClientServerMessage.extension c.source c.extension_id c.payload ∷ []
    else []
local_message my_name number (ping c) = []
local_message my_name number (announce c) = []
local_message my_name number (register c) = []
local_message my_name number unknown = []

module _ (events : List ClientServerMessage) where
  abbrev Told : Node → Type 0
  Told n = n.events ≡ events

  append_if-Told :
      (a b : Bool) (file line : Text) (n : Node) → Told n → Told (append_if a b file line n).1
  unfolding append_if
  append_if-Told true true file line n h = h
  append_if-Told true false file line n h = h
  append_if-Told false b file line n h = h

  -- The methods `apply` tell the client nothing.
  Told-Stable : (env : Env) (s : Text) → Stable Told env s
  unfolding Node.broadcast write_frame append_to_file set_adjacent connect_to_peer
  Told-Stable env s = record {
    broadcasts = λ f. record { after = λ n h. h };
    writes = λ f. record { after = λ n h. h };
    appends = λ file line. record { after = append_if-Told env.open_ok env.append_ok file line };
    adjacent = λ d t. record { after = λ n h. h };
    connects = λ a p. record { after = λ n h. h };
  }

if-tells :
    (b : Bool) (m k : Exec (Unit {0})) (n : Node) (l : List ClientServerMessage)
    → (m n).1.events ≡ n.events ++ l
    → (k n).1.events ≡ n.events
    → ((if b then m else k) n).1.events ≡ n.events ++ (if b then l else [])
if-tells true m k n l p q = p
if-tells false m k n l p q = q ∙ sym (append-nil _)

events-send_client :
    (env : Env) (m : ClientServerMessage) (n : Node)
    → env.client_open ≡ true
    → (send_client env m n).1.events ≡ n.events ++ m ∷ []
unfolding send_client send_client_if
events-send_client env m n h = rw h refl

-- While the client's channel is open, the dispatch of a command tells the client exactly: a
-- message said or broadcast by anyone; a pong, a delivery or a whisper for this peer; and an
-- extension whose sequence number is this peer's next one.
pub dispatch_tells :
    (env : Env) (my_name : Text) (x : Command) (n : Node)
    → env.client_open ≡ true
    → (dispatch env my_name x n).1.events
      ≡ n.events ++ local_message my_name (Counters.next n.sequence_numbers).0 x
unfolding dispatch send_client send_client_if next_sequence_number Node.broadcast apply_ping
    apply_pong apply_say apply_broadcast apply_deliver
dispatch_tells env my_name (say x) n h = rw h refl
dispatch_tells env my_name (broadcast x) n h = rw h refl
dispatch_tells env my_name (pong x) n h =
    if-tells _ _ (apply_pong x) n _ (events-send_client env _ n h) refl
dispatch_tells env my_name (ping x) n h = elim (Bool-cases (text_eq x.destination my_name)) [
  | inl t ↦ rw t (sym (append-nil _))
  | inr t ↦ rw t (sym (append-nil _))
]
dispatch_tells env my_name (deliver x) n h =
    if-tells _ _ (apply_deliver x) n _ (events-send_client env _ n h) refl
dispatch_tells env my_name (whisper x) n h =
    let silent = apply_whisper-Stable (Told n.events) env x (Told-Stable _ env _) in
    if-tells _ _ (apply_whisper env x) n _ (events-send_client env _ n h) (silent.after n refl)
dispatch_tells env my_name (extension x) n h =
    let numbered = record n { sequence_numbers = (Counters.next n.sequence_numbers).1 } in
    let silent = apply_extension-Stable (Told n.events) env x (Told-Stable _ env _) in
    if-tells _ _ (apply_extension env x) numbered _ (events-send_client env _ numbered h)
      (silent.after numbered refl)
dispatch_tells env my_name (announce x) n h =
    let silent = apply_announce-Stable (Told n.events) env x (Told-Stable _ env _) in
    silent.after n refl ∙ sym (append-nil _)
dispatch_tells env my_name (register x) n h = sym (append-nil _)
dispatch_tells env my_name unknown n h = sym (append-nil _)
