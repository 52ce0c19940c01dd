-- ===== src/Cli/Told.antt =====
-- What the interfaces do with the messages that core/src/server.rs tells the client.
use peer_to_peer_chat_system.Prelude.{
  ℕ, ◌≡◌, ◌≢◌, ◌≤◌, ◌^◌, refl, Bool, true, false, none, List, [], ◌∷◌, ◌++◌, if◌then◌else◌, ltb,
  ltb→lt, Bool-cases, inl, inr, All, arith,
}
use peer_to_peer_chat_system.Prelude.Text.{Text, text_eq_refl}
use peer_to_peer_chat_system.Frame.{ClientServerMessage}
use peer_to_peer_chat_system.Cmd.{
  Command, broadcast, ping, pong, register, say, deliver, announce, whisper, extension, unknown,
}
use peer_to_peer_chat_system.Cmd.Pong.{Pong}
use peer_to_peer_chat_system.Util.Counters
use peer_to_peer_chat_system.Node.{Node, Env}
use peer_to_peer_chat_system.Server.{dispatch}
use peer_to_peer_chat_system.Server.Local.{local_message, dispatch_tells}
use peer_to_peer_chat_system.Cli.{Display, is_instant}
use peer_to_peer_chat_system.Cli.Simple
use peer_to_peer_chat_system.Cli.Fancy

-- Neither interface panics on the message.
abbrev pub IsShown : Display → ClientServerMessage → Type 0
IsShown d m = (Simple.print d m ≢ none) × ((st : Fancy.State) → Fancy.show d m st ≢ none)

-- A pong has an instant that chrono takes.
abbrev pub HasInstant : Display → Command → Type 0
HasInstant d (pong c) = is_instant d c.sent_at ≡ true
HasInstant d x = Unit

All-if :
    (d : Display) (b : Bool) (m : ClientServerMessage)
    → IsShown d m
    → All (IsShown d) (if b then m ∷ [] else [])
All-if d true m h = (h, tt)
All-if d false m h = tt

pong-IsShown :
    (d : Display) (from : Text) (sent_at : ℕ)
    → is_instant d sent_at ≡ true
    → IsShown d (ClientServerMessage.pong from sent_at)
unfolding Simple.print Fancy.show Fancy.format Fancy.show_text
pong-IsShown d from sent_at h = rw h (λ e. cc, λ st e. cc)

local_message-IsShown :
    (d : Display) (my_name : Text) (number : ℕ) (x : Command)
    → HasInstant d x
    → All (IsShown d) (local_message my_name number x)
unfolding Simple.print Fancy.show Fancy.format Fancy.show_text
local_message-IsShown d my_name number (say c) h = ((λ e. cc, λ st e. cc), tt)
local_message-IsShown d my_name number (broadcast c) h = ((λ e. cc, λ st e. cc), tt)
local_message-IsShown d my_name number (pong c) h =
    All-if d _ _ (pong-IsShown d c.source c.sent_at h)
local_message-IsShown d my_name number (deliver c) h =
    All-if d _ (ClientServerMessage.deliver c.source c.destination c.bytes) (λ e. cc, λ st e. cc)
local_message-IsShown d my_name number (whisper c) h =
    All-if d _ (ClientServerMessage.whisper c.source c.destination c.message) (λ e. cc, λ st e. cc)
local_message-IsShown d my_name number (extension c) h =
    All-if d _ (ClientServerMessage.extension c.source c.extension_id c.payload)
      (λ e. cc, λ st e. cc)
local_message-IsShown d my_name number (ping c) h = tt
local_message-IsShown d my_name number (announce c) h = tt
local_message-IsShown d my_name number (register c) h = tt
local_message-IsShown d my_name number unknown h = tt

-- While the channel to the client is open, and unless the command is a pong whose instant chrono
-- does not take, neither interface panics on a message that the dispatch of the command tells the
-- client.
pub dispatch-IsShown :
    (d : Display) (env : Env) (my_name : Text) (x : Command) (n : Node)
    → env.client_open ≡ true
    → HasInstant d x
    → (told : List ClientServerMessage) × ((dispatch env my_name x n).1.events ≡ n.events ++ told)
      × All (IsShown d) told
dispatch-IsShown d env my_name x n h i =
    let number = (Counters.next n.sequence_numbers).0 in
    (
      local_message my_name number x,
      dispatch_tells env my_name x n h,
      local_message-IsShown d my_name number x i,
    )

late_not_instant : (d : Display) (sent_at : ℕ) → 2 ^ 63 ≤ sent_at → is_instant d sent_at ≡ false
late_not_instant d sent_at late = elim (Bool-cases (ltb sent_at (2 ^ 63))) [
  | inl early ↦ let lt = ltb→lt sent_at (2 ^ 63) early in absurd (omega arith)
  | inr e ↦ rw e refl
]

-- While the channel to the client is open, a pong for this peer with an instant from 2 ^ 63 on is
-- told to the client, and both interfaces panic on it.
pub late_pong_panics :
    (d : Display) (env : Env) (n : Node) (st : Fancy.State) (c : Pong)
    → env.client_open ≡ true
    → 2 ^ 63 ≤ c.sent_at
    → ((dispatch env c.destination (pong c) n).1.events
        ≡ n.events ++ ClientServerMessage.pong c.source c.sent_at ∷ [])
      × (Simple.print d (ClientServerMessage.pong c.source c.sent_at) ≡ none)
      × (Fancy.show d (ClientServerMessage.pong c.source c.sent_at) st ≡ none)
unfolding Simple.print Fancy.show Fancy.format Fancy.show_text
late_pong_panics d env n st c h late =
    let tells = dispatch_tells env c.destination (pong c) n h in
    (
      rw (text_eq_refl c.destination) at tells,
      rw (late_not_instant d c.sent_at late) refl,
      rw (late_not_instant d c.sent_at late) refl,
    )
