-- ===== src/Cli/Agree.antt =====
-- The lines that cli/src/simple_tui.rs and cli/src/fancy_tui.rs both know, and what each makes of
-- them.
use peer_to_peer_chat_system.Prelude.{
  ℕ, ◌≡◌, ◌≢◌, ◌⊎◌, inl, inr, refl, false, Option, none, some, ◌++◌, Bool-cases, [],
}
use peer_to_peer_chat_system.Prelude.Text.{Text, codes, text_eq, text_eq_iff}
use peer_to_peer_chat_system.Prelude.Number.{as_bytes, parse_u64}
use peer_to_peer_chat_system.Prelude.Search
use peer_to_peer_chat_system.Prelude.Search.{
  strip_prefix, starts_with, split_once, strip_prefix-eq_some,
}
use peer_to_peer_chat_system.Cli
use peer_to_peer_chat_system.Cli.{on_rest}
use peer_to_peer_chat_system.Cli.Simple
use peer_to_peer_chat_system.Cli.Simple.{Input, quit, send, panic, unwrap_pair}
use peer_to_peer_chat_system.Cli.Fancy
use peer_to_peer_chat_system.Cli.Fancy.{with_pair}

-- The messages of the fancy interface are those of the simple one, less the broadcast.
abbrev pub embed : Cli.UiClientMessage → Simple.UiClientMessage
embed (Cli.say message) = Simple.say message
embed (Cli.whisper to message) = Simple.whisper to message
embed (Cli.ping to sent_at) = Simple.ping to sent_at
embed (Cli.extension id payload) = Simple.extension id payload
embed (Cli.deliver to bytes) = Simple.deliver to bytes

abbrev pub input_of : Option Cli.UiClientMessage → Input
input_of none = panic
input_of (some m) = send (embed m)

-- A line that is none of the commands of the simple interface only.
abbrev pub IsShared : Text → Type 0
IsShared line =
    (line ≢ codes "/quit")
    × (starts_with (codes "/say ") line ≡ false)
    × (starts_with (codes "/broadcast ") line ≡ false)

-- The two interfaces do the same, or the line is an `/extension ` whose number or payload the fancy
-- interface cannot read: it panics there, where the simple one sends with defaults.
abbrev pub Agree : Text → Option Cli.UiClientMessage → Input → Type 0
Agree line o i =
    (i ≡ input_of o)
    ⊎ ((rest : Text) × (line ≡ codes "/extension " ++ rest)
        × (o ≡ none)
        × (i ≡ send (Simple.extension_of (split_once b' ' rest))))

on_rest-Agree :
    (line : Text) (o : Option Text) (f : Text → Option Cli.UiClientMessage) (g : Text → Input)
    {x : Option Cli.UiClientMessage} {y : Input}
    → ((rest : Text) → o ≡ some rest → Agree line (f rest) (g rest))
    → Agree line x y
    → Agree line (on_rest o f x) (on_rest o g y)
unfolding on_rest
on_rest-Agree line none f g taken otherwise = otherwise
on_rest-Agree line (some rest) f g taken otherwise = taken rest refl

on_rest-not_taken :
    (o : Option Text) (f : Text → Input) (y : Input) → Search.is_some o ≡ false → on_rest o f y ≡ y
unfolding on_rest
on_rest-not_taken none f y h = refl
on_rest-not_taken (some rest) f y h = cc

with_pair-Agree :
    (line : Text) (o : Option (Text × Text)) (f : Text → Text → Cli.UiClientMessage)
    → Agree line (with_pair o (λ a b. some (f a b))) (unwrap_pair o (λ a b. embed (f a b)))
unfolding with_pair unwrap_pair
with_pair-Agree line none f = inl refl
with_pair-Agree line (some (a, b)) f = inl refl

read_id-Agree :
    (line rest id payload : Text) (n : Option ℕ)
    → line ≡ codes "/extension " ++ rest
    → parse_u64 id ≡ n
    → split_once b' ' rest ≡ some (id, payload)
    → Agree line (Fancy.extension_of n payload) (send (Simple.extension_of (some (id, payload))))
unfolding Fancy.extension_of Simple.extension_of Simple.unwrap_or_zero
read_id-Agree line rest id payload none e p s = inr (rest, e, refl, rw s refl)
read_id-Agree line rest id payload (some n) e p s = inl (rw p refl)

extension-Agree :
    (line rest : Text) (o : Option (Text × Text))
    → line ≡ codes "/extension " ++ rest
    → split_once b' ' rest ≡ o
    → Agree line
        (with_pair o (λ id payload. Fancy.extension_of (parse_u64 id) payload))
        (send (Simple.extension_of o))
unfolding with_pair
extension-Agree line rest none e s = inr (rest, e, refl, rw s refl)
extension-Agree line rest (some (id, payload)) e s = read_id-Agree line rest id payload _ e refl s

text_eq-false : (s t : Text) → s ≢ t → text_eq s t ≡ false
text_eq-false s t h = elim (Bool-cases (text_eq s t)) [
  | inl e ↦ absurd (h ((text_eq_iff s t).0 e))
  | inr e ↦ e
]

-- On a line that is not `/quit` and starts with neither `/say ` nor `/broadcast ` the two
-- interfaces agree: the simple one sends what the fancy one sends, and panics where that panics,
-- but for an `/extension ` that the fancy one panics on and the simple one sends with its defaults.
pub parse_line-Agree :
    (now : ℕ) (line : Text)
    → IsShared line
    → Agree line (Fancy.parse_line now line) (Simple.parse_line now line)
unfolding Fancy.parse_line Simple.parse_line starts_with
parse_line-Agree now line (q, s, b) =
    let no_quit = text_eq-false line (codes "/quit") q in
    let no_say = on_rest-not_taken (strip_prefix (codes "/say ") line) in
    let no_broadcast =
      on_rest-not_taken (strip_prefix (codes "/broadcast ") line)
        (λ rest. send (Simple.broadcast [] (as_bytes rest))) (send (Simple.say line)) b in
    rw (no_quit, no_broadcast)
      (rw (no_say _ _ s) (
        on_rest-Agree line _ _ _ (λ rest e. with_pair-Agree line _ Cli.whisper)
          (on_rest-Agree line _ _ _ (λ rest e. inl refl)
            (on_rest-Agree line _ _ _
              (λ rest e.
                extension-Agree line rest _ (strip_prefix-eq_some (codes "/extension ") line rest e)
                  refl)
              (on_rest-Agree line _ _ _
                (λ rest e. with_pair-Agree line _ (λ to bytes. Cli.deliver to (as_bytes bytes)))
                (inl refl))))))
