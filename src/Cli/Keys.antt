-- ===== src/Cli/Keys.antt =====
-- What runs of keys do to the state of cli/src/fancy_tui.rs.
use mathlib.Core.List.{append-nil, append_assoc}
use mathlib.Core.Path.{fun_ext}
use peer_to_peer_chat_system.Prelude.{
  ℕ, zero, suc, ◌+◌, ◌-◌, ◌≤◌, ◌≡◌, ◌≢◌, refl, inl, inr, ap, true, Option, none, some, List, [],
  ◌∷◌, ◌++◌, length, drop, ltb, arith, Bool-cases, ltb→lt, ltb-false→le,
}
use peer_to_peer_chat_system.Prelude.Text.{Text}
use peer_to_peer_chat_system.Cli.{UiClientMessage}
use peer_to_peer_chat_system.Cli.Fancy
use peer_to_peer_chat_system.Cli.Fancy.{
  Event, State, input, char, enter, backspace, editing, run, Flow, goes_on,
}

-- A character, or one that is erased at once.
pub data Stroke : Type 0 where
  put slip : ℕ → Stroke

abbrev pub typed : ℕ → List Stroke → List Event
typed now [] = []
typed now (put c ∷ ss) = input now (char c) ∷ typed now ss
typed now (slip c ∷ ss) = input now (char c) ∷ input now backspace ∷ typed now ss

abbrev pub text_of : List Stroke → Text
text_of [] = []
text_of (put c ∷ ss) = c ∷ text_of ss
text_of (slip c ∷ ss) = text_of ss

pop-append : (s : Text) (c : ℕ) → Fancy.pop (s ++ c ∷ []) ≡ s
unfolding Fancy.pop
pop-append [] c = refl
pop-append (d ∷ []) c = refl
pop-append (d ∷ e ∷ s) c = ground (arith, pop-append (e ∷ s) c)

append_one : (s : Text) (c : ℕ) (t : Text) → (s ++ c ∷ []) ++ t ≡ s ++ c ∷ t
append_one [] c t = refl
append_one (d ∷ s) c t = rw (append_one s c t) refl

-- A state of the editing mode with `s` typed.
abbrev pub with_input : Text → State → State
with_input s st = record st { input_mode = editing; input_string = s }

run-typed :
    (now : ℕ) (ss : List Stroke) (es : List Event) (s : Text) (st : State)
    → run (typed now ss ++ es) (with_input s st) ≡ run es (with_input (s ++ text_of ss) st)
unfolding run Fancy.handle_event Fancy.handle_in Fancy.handle_editing Fancy.input_string_push
    Fancy.input_string_pop Fancy.after_event
run-typed now [] es s st = rw (append-nil s) refl
run-typed now (put c ∷ ss) es s st =
    rw (run-typed now ss es (s ++ c ∷ []) st, append_one s c (text_of ss)) refl
run-typed now (slip c ∷ ss) es s st = rw (pop-append s c) (run-typed now ss es s st)

-- Lines typed one after the other, each ended by Enter.
abbrev pub typed_lines : List (ℕ × List Stroke) → List Event
typed_lines [] = []
typed_lines ((now, ss) ∷ rest) = typed now ss ++ input now enter ∷ typed_lines rest

-- The lines themselves: each is shown and its message sent, up to the first one that panics.
abbrev pub say_lines : List (ℕ × List Stroke) → State → Fancy.Outcome
say_lines [] st = (goes_on, [], st)
say_lines ((now, ss) ∷ rest) st =
    Fancy.after_event
      (Fancy.send_parsed (Fancy.parse_line now (text_of ss)) (Fancy.add_message (text_of ss) st))
      (say_lines rest)

after_sent :
    (m : Option UiClientMessage) (st : State) (f g : State → Fancy.Outcome)
    → f st ≡ g st
    → Fancy.after_event (Fancy.send_parsed m st) f ≡ Fancy.after_event (Fancy.send_parsed m st) g
unfolding Fancy.after_event Fancy.send_parsed
after_sent none st f g h = refl
after_sent (some m) st f g h = rw h refl

-- Lines that are typed in the editing mode from an empty input, each ended by Enter and with
-- characters that are erased at once among them, do to the fancy interface what those lines without
-- the erased characters do: each is shown and its message sent, up to the first that panics.
pub run-typed_lines :
    (lines : List (ℕ × List Stroke)) (st : State)
    → run (typed_lines lines) (with_input [] st) ≡ say_lines lines (with_input [] st)
unfolding run Fancy.handle_event Fancy.handle_in Fancy.handle_editing Fancy.press_enter
    Fancy.input_string_drain Fancy.add_message
run-typed_lines [] st = refl
run-typed_lines ((now, ss) ∷ rest) st =
    rw (run-typed now ss (input now enter ∷ typed_lines rest) [] st) (
      after_sent (Fancy.parse_line now (text_of ss))
        (with_input [] (Fancy.add_message (text_of ss) st)) (run (typed_lines rest))
        (say_lines rest) (run-typed_lines rest (Fancy.add_message (text_of ss) st)))

after_event-send :
    (ms : List UiClientMessage) (o : Fancy.Outcome) (g : State → Fancy.Outcome)
    → Fancy.after_event (o.0, ms ++ o.1, o.2) g
      ≡ ((Fancy.after_event o g).0, ms ++ (Fancy.after_event o g).1, (Fancy.after_event o g).2)
unfolding Fancy.after_event
after_event-send ms (goes_on, ns, st) g = rw (append_assoc ms ns (g st).1) refl
after_event-send ms (Fancy.ended, ns, st) g = refl
after_event-send ms (Fancy.panicked, ns, st) g = refl

after_event-after_event :
    (o : Fancy.Outcome) (f g : State → Fancy.Outcome)
    → Fancy.after_event (Fancy.after_event o f) g
      ≡ Fancy.after_event o (λ st. Fancy.after_event (f st) g)
unfolding Fancy.after_event
after_event-after_event (goes_on, ms, st) f g = after_event-send ms (f st) g
after_event-after_event (Fancy.ended, ms, st) f g = refl
after_event-after_event (Fancy.panicked, ms, st) f g = refl

run-append :
    (es fs : List Event) (st : State) → run (es ++ fs) st ≡ Fancy.after_event (run es st) (run fs)
unfolding run Fancy.after_event
run-append [] fs st = refl
run-append (e ∷ es) fs st =
    rw (after_event-after_event (Fancy.handle_event e st) (run es) (run fs))
      (ap (Fancy.after_event (Fancy.handle_event e st)) (fun_ext (λ st'. run-append es fs st')))

escapes :
    (now : ℕ) (m : Fancy.InputMode) (st : State)
    → st.input_mode ≡ m
    → Fancy.handle_in m now Fancy.esc st ≡ (goes_on, [], Fancy.set_input_mode Fancy.normal st)
unfolding Fancy.handle_in Fancy.handle_editing Fancy.handle_normal Fancy.set_input_mode
escapes now editing st h = refl
escapes now Fancy.normal st h = ap (λ m. (goes_on, [], record st { input_mode = m })) h

-- After any events that the fancy interface goes on from, Escape and then `q` end it, whatever mode
-- it is in, and send nothing more.
pub quits :
    (now : ℕ) (es rest : List Event) (st st' : State) (ms : List UiClientMessage)
    → run es st ≡ (goes_on, ms, st')
    → run (es ++ input now Fancy.esc ∷ input now (char b'q') ∷ rest) st
      ≡ (Fancy.ended, ms, record st' { input_mode = Fancy.normal; shut_down = true })
unfolding run Fancy.handle_event Fancy.handle_in Fancy.handle_normal Fancy.handle_char
    Fancy.shutdown Fancy.set_input_mode Fancy.after_event
quits now es rest st st' ms h =
    rw (run-append es (input now Fancy.esc ∷ input now (char b'q') ∷ rest) st, h)
      (rw (escapes now st'.input_mode st' refl)
        unfold Fancy.shutdown Fancy.set_input_mode in rw (append-nil ms) refl)

take_drop :
    {A : Type 0} (n : ℕ) (xs : List A)
    → n ≤ length xs
    → (ys : List A) × (ys ++ drop n xs ≡ xs) × (length ys ≡ n)
take_drop zero xs h = ([], refl, refl)
take_drop (suc n) [] h = absurd (omega arith)
take_drop (suc n) (x ∷ xs) h =
    let (ys, e, l) = take_drop n xs (omega arith) in (x ∷ ys, ap (λ t. x ∷ t) e, ap suc l)

length-append : {A : Type 0} (xs ys : List A) → length (xs ++ ys) ≡ length xs + length ys
length-append [] ys = omega arith
length-append (x ∷ xs) ys = omega (arith, length-append xs ys)

-- Drawing leaves at most as many messages as there are lines, drops only the oldest, and drops one
-- only if the lines are then all used.
pub fit_messages-kept :
    (n : ℕ) (st : State)
    → (length (Fancy.fit_messages n st).messages ≤ n)
      × (dropped : List Text) × (dropped ++ (Fancy.fit_messages n st).messages ≡ st.messages)
      × ((length dropped ≢ 0) → length (Fancy.fit_messages n st).messages ≡ n)
unfolding Fancy.fit_messages Fancy.drain_messages
fit_messages-kept n st = elim (Bool-cases (ltb n (length st.messages))) [
  | inl more ↦
      let lt = ltb→lt n (length st.messages) more in
      let (dropped, e, l) = take_drop (length st.messages - n) st.messages (omega arith) in
      let whole = length-append dropped (drop (length st.messages - n) st.messages) in
      let kept : length (drop (length st.messages - n) st.messages) ≡ n =
        omega (arith, whole, ap length e, l, lt) in
      rw more (omega arith, dropped, e, λ h. kept)
  | inr fits ↦ let le = ltb-false→le n _ fits in rw fits (le, [], refl, λ h. absurd (h refl))
]
