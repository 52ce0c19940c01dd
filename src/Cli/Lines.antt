-- ===== src/Cli/Lines.antt =====
-- The lines that a user can type for each command of cli/src/simple_tui.rs.
use peer_to_peer_chat_system.Prelude.{
  ℕ, ◌≡◌, ◌≢◌, ◌↔◌, ◌⊎◌, inl, inr, refl, ◌<◌, Bool, true, false, Option, none, some, [], ◌∷◌, ◌++◌,
  arith, All, u64_mod, if◌then◌else◌, suc,
}
use peer_to_peer_chat_system.Prelude.Text.{Text, codes, text_eq}
use peer_to_peer_chat_system.Prelude.Decimal.{digits, to_decimal, IsDigit, digits-IsDigit}
use peer_to_peer_chat_system.Prelude.Number.{as_bytes, parse_u64-to_decimal}
use peer_to_peer_chat_system.Prelude.Search.{
  strip_prefix, split_once, strip_prefix-eq_some, split_once-append, split_once-eq_none,
}
use peer_to_peer_chat_system.Cli.{on_rest}
use peer_to_peer_chat_system.Cli.Simple.{
  UiClientMessage, say, whisper, ping, extension, deliver, broadcast, Input, quit, send, panic,
  unwrap_pair, extension_of, parse_line,
}

-- What a user may ask for, with the texts as they are typed.
pub data Request : Type 0 where
  to_say to_ping to_broadcast : Text → Request
  to_whisper to_deliver : Text → Text → Request
  to_extend : ℕ → Text → Request

abbrev pub written : Request → Text
written (to_say message) = codes "/say " ++ message
written (to_whisper to message) = codes "/whisper " ++ to ++ b' ' ∷ message
written (to_ping to) = codes "/ping " ++ to
written (to_extend id payload) = codes "/extension " ++ to_decimal id ++ b' ' ∷ payload
written (to_deliver to bytes) = codes "/deliver " ++ to ++ b' ' ∷ bytes
written (to_broadcast bytes) = codes "/broadcast " ++ bytes

abbrev pub message_of : ℕ → Request → UiClientMessage
message_of now (to_say message) = say message
message_of now (to_whisper to message) = whisper to message
message_of now (to_ping to) = ping to now
message_of now (to_extend id payload) = extension id payload
message_of now (to_deliver to bytes) = deliver to (as_bytes bytes)
message_of now (to_broadcast bytes) = broadcast [] (as_bytes bytes)

abbrev pub Spaceless : Text → Type 0
Spaceless = All (λ c. c ≢ b' ')

-- Names are without spaces, and the number of an extension is a `u64`.
abbrev pub IsWritable : Request → Type 0
IsWritable (to_whisper to message) = Spaceless to
IsWritable (to_deliver to bytes) = Spaceless to
IsWritable (to_extend id payload) = id < u64_mod
IsWritable r = Unit

All-IsDigit-Spaceless : (s : Text) → All IsDigit s → Spaceless s
All-IsDigit-Spaceless [] h = tt
All-IsDigit-Spaceless (c ∷ s) (h, hs) = (λ e. omega arith, All-IsDigit-Spaceless s hs)

to_decimal-Spaceless : (n : ℕ) → Spaceless (to_decimal n)
unfolding to_decimal
to_decimal-Spaceless n = All-IsDigit-Spaceless (digits (suc n) n) (digits-IsDigit (suc n) n)

-- Each request of a user is read by the simple interface from the line that is written for it, if a
-- name in front of another text is without spaces and the number of an extension is a u64.
pub parse_line-written :
    (now : ℕ) (r : Request) → IsWritable r → parse_line now (written r) ≡ send (message_of now r)
unfolding parse_line strip_prefix text_eq on_rest
parse_line-written now (to_say message) h = refl
parse_line-written now (to_whisper to message) h = rw (split_once-append b' ' to message h)
parse_line-written now (to_ping to) h = refl
parse_line-written now (to_extend id payload) h = rw (
  split_once-append b' ' (to_decimal id) payload (to_decimal-Spaceless id),
  parse_u64-to_decimal id h,
)
parse_line-written now (to_deliver to bytes) h = rw (split_once-append b' ' to bytes h)
parse_line-written now (to_broadcast bytes) h = refl

send-panic : (m : UiClientMessage) → send m ≢ panic
send-panic m h = cc

unwrap_pair-panic :
    (o : Option (Text × Text)) (f : Text → Text → UiClientMessage)
    → unwrap_pair o f ≡ panic
    → o ≡ none
unfolding unwrap_pair
unwrap_pair-panic none f h = refl
unwrap_pair-panic (some p) f h = cc

-- A command whose two arguments are not parted by a space.
abbrev pub IsUnparted : Text → Type 0
IsUnparted line =
    (rest : Text) × ((line ≡ codes "/whisper " ++ rest) ⊎ (line ≡ codes "/deliver " ++ rest))
    × Spaceless rest

pub unparted_panics : (now : ℕ) (line : Text) → IsUnparted line → parse_line now line ≡ panic
unfolding parse_line strip_prefix text_eq on_rest unwrap_pair
unparted_panics now line (rest, inl e, h) =
    let q = (split_once-eq_none b' ' rest).1 h in rw (e, q) refl
unparted_panics now line (rest, inr e, h) =
    let q = (split_once-eq_none b' ' rest).1 h in rw (e, q) refl

-- A rung of the ladder of prefixes is taken, or the rest of the ladder is.
on_rest-panic :
    (o : Option Text) (f : Text → Input) (otherwise : Input)
    → on_rest o f otherwise ≡ panic
    → ((rest : Text) × (o ≡ some rest) × (f rest ≡ panic)) ⊎ (otherwise ≡ panic)
unfolding on_rest
on_rest-panic none f x h = inr h
on_rest-panic (some rest) f x h = inl (rest, refl, h)

on_rest_sends :
    (o : Option Text) (f : Text → UiClientMessage) (otherwise : Input)
    → on_rest o (λ rest. send (f rest)) otherwise ≡ panic
    → otherwise ≡ panic
unfolding on_rest
on_rest_sends none f x h = h
on_rest_sends (some rest) f x h = cc

unless_quit_panics :
    (b : Bool) (otherwise : Input) → (if b then quit else otherwise) ≡ panic → otherwise ≡ panic
unless_quit_panics true x h = cc
unless_quit_panics false x h = h

pair_panics :
    (p line : Text) (f : Text → Text → UiClientMessage)
    → (rest : Text) × (strip_prefix p line ≡ some rest)
      × (unwrap_pair (split_once b' ' rest) f ≡ panic)
    → (rest : Text) × (line ≡ p ++ rest) × Spaceless rest
pair_panics p line f (rest, e, h) = (
  rest,
  strip_prefix-eq_some p line rest e,
  (split_once-eq_none b' ' rest).0 (unwrap_pair-panic (split_once b' ' rest) f h),
)

panics-IsUnparted : (now : ℕ) (line : Text) → parse_line now line ≡ panic → IsUnparted line
unfolding parse_line
panics-IsUnparted now line h =
    let whispered : Text → Input = λ rest. unwrap_pair (split_once b' ' rest) whisper in
    let delivered : Text → Input =
      λ rest. unwrap_pair (split_once b' ' rest) (λ to bytes. deliver to (as_bytes bytes)) in
    let h1 = on_rest_sends _ say _ (unless_quit_panics _ _ h) in
    elim (on_rest-panic (strip_prefix (codes "/whisper ") line) whispered _ h1) [
      | inl taken ↦ let (rest, e, s) = pair_panics _ line whisper taken in (rest, inl e, s)
      | inr h2 ↦
          let h3 =
            on_rest_sends _ (λ rest. extension_of (split_once b' ' rest)) _
              (on_rest_sends _ (λ rest. ping rest now) _ h2) in
          elim (on_rest-panic (strip_prefix (codes "/deliver ") line) delivered _ h3) [
            | inl taken ↦ let (rest, e, s) = pair_panics _ line _ taken in (rest, inr e, s)
            | inr h4 ↦
                let h5 = on_rest_sends _ (λ rest. broadcast [] (as_bytes rest)) _ h4 in
                absurd (send-panic (say line) h5)
          ]
    ]

-- A line panics the simple interface exactly when it is a `/whisper ` or a `/deliver ` with no
-- space behind the name.
pub parse_line-panics : (now : ℕ) (line : Text) → (parse_line now line ≡ panic) ↔ IsUnparted line
parse_line-panics now line = (panics-IsUnparted now line, unparted_panics now line)
