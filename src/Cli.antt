-- ===== src/Cli.antt =====
-- cli/src: the two terminal interfaces. A line that the user types becomes a message to the client,
-- and a message from the client becomes a line of text.
pub mod Simple
pub mod Fancy
pub mod Lines
pub mod Session
pub mod Agree
pub mod Keys
pub mod Told
pub mod Screen
pub mod Startup
pub mod Ticks
use peer_to_peer_chat_system.Prelude.{
  ℕ, ◌^◌, Bool, true, false, Option, none, some, [], ◌∷◌, ◌++◌, ltb, if◌then◌else◌, ◌&&◌,
}
use peer_to_peer_chat_system.Prelude.Text.{Text, codes}
use peer_to_peer_chat_system.Prelude.Search.{strip_prefix}
use peer_to_peer_chat_system.Frame
use peer_to_peer_chat_system.Frame.{Frame, Bytes, ClientServerMessage}

-- `UiClientMessage` of cli/src/main.rs, which the fancy interface uses.
pub data UiClientMessage : Type 0 where
  say : Text → UiClientMessage
  whisper : Text → Text → UiClientMessage
  ping : Text → ℕ → UiClientMessage
  extension : ℕ → Text → UiClientMessage
  deliver : Text → Bytes → UiClientMessage

-- `if line.starts_with(prefix) { … line.strip_prefix(prefix).unwrap() … } else { … }`
unfoldable pub on_rest : {A : Type 0} → Option Text → (Text → A) → A → A
on_rest none f otherwise = otherwise
on_rest (some rest) f otherwise = f rest

abbrev pub on_prefix : {A : Type 0} → Text → Text → (Text → A) → A → A
on_prefix prefix line = on_rest (strip_prefix prefix line)

-- What the interfaces print with: the time of day, how long ago an instant was and whether chrono
-- takes it for one, and `{:?}` of a frame, a `Vec<u8>` and a `Bytes`.
pub record Display : Type 0 where
  pub local_time : Text
  pub latency : ℕ → Text
  pub timestamp_ok : ℕ → Bool
  pub debug_frame : Frame → Text
  pub debug_vec : Bytes → Text
  pub debug_bytes : Bytes → Text

-- `[` and the time and `] `
abbrev pub stamp : Display → Text
stamp d = codes "[" ++ d.local_time ++ codes "] "

-- `sent_at.try_into()` to an `i64`, and `timestamp_millis_opt(millis).single()`; each is unwrapped.
abbrev pub is_instant : Display → ℕ → Bool
is_instant d sent_at = ltb sent_at (2 ^ 63) && d.timestamp_ok sent_at

abbrev pub newline : Text
newline = 10 ∷ []
