-- ===== src/Cli/Ticks.antt =====
-- cli/src/fancy_tui.rs: the thread of `start` that reads keys and sends ticks. An instant counts
-- nanoseconds, and what the terminal and the channel do is an argument of each round.
use peer_to_peer_chat_system.Prelude.{
  ℕ, suc, ap, ◌≡◌, ◌≤◌, refl, ◌∙◌, ◌+◌, ◌-◌, ◌*◌, Bool, true, false, Option, none, some, List, [],
  ◌∷◌, ◌++◌, leb, ◌&&◌, arith,
}
use peer_to_peer_chat_system.Cli.Fancy.{KeyCode}

-- `tick_rate`: 200 ms.
abbrev pub tick_rate : ℕ
tick_rate = 200_000_000

-- What `poll` and `read` give: a key, another event, or nothing before the timeout.
pub data Polled : Type 0 where
  key : KeyCode → Polled
  another quiet : Polled

-- What the thread sends to the task that handles events.
pub data Sent : Type 0 where
  input : KeyCode → Sent
  tick : Sent

-- The instants at which the timeout is computed, the tick is due or not, and `last_tick` is set;
-- what came between; and whether the receiver takes a key and a tick.
pub record Round : Type 0 where
  pub polls_at : ℕ
  pub polled : Polled
  pub tests_at : ℕ
  pub ticks_at : ℕ
  pub key_ok : Bool
  pub tick_ok : Bool

-- `tick_rate.checked_sub(last_tick.elapsed()).unwrap_or_else(…)`, the longest that `poll` waits.
unfoldable pub timeout : Round → ℕ → ℕ
timeout r last_tick = tick_rate - (r.polls_at - last_tick)

-- What is sent for the event; `none` where the thread ends, since the receiver is gone.
unfoldable pub send_key : Bool → Polled → Option (List Sent)
send_key true (key k) = some (input k ∷ [])
send_key false (key k) = none
send_key ok polled = some []

unfoldable pub is_due : Round → ℕ → Bool
is_due r last_tick = leb tick_rate (r.tests_at - last_tick) && r.tick_ok

-- The end of a round: the tick, if it is due, and the new `last_tick`.
unfoldable pub send_tick : Bool → Round → ℕ → List Sent × ℕ
send_tick true r last_tick = (tick ∷ [], r.ticks_at)
send_tick false r last_tick = ([], last_tick)

-- The thread breaks off, or sends the key and goes on.
unfoldable pub after_key : Option (List Sent) → ℕ → List Sent × ℕ → List Sent × ℕ
after_key none last_tick rest = ([], last_tick)
after_key (some keys) last_tick (sent, end) = (keys ++ sent, end)

-- The loop, on the rounds that it is given: what it sends, and the last `last_tick`.
unfoldable pub send_events : List Round → ℕ → List Sent × ℕ
unfolding send_key is_due send_tick after_key
send_events [] last_tick = ([], last_tick)
send_events (r ∷ rounds) last_tick =
    let (ticks, last_tick') = send_tick (is_due r last_tick) r last_tick in
    let (sent, end) = send_events rounds last_tick' in
    after_key (send_key r.key_ok r.polled) last_tick (ticks ++ sent, end)

-- The clock does not run backwards, from `now` on.
abbrev pub Forward : ℕ → List Round → Type 0
Forward now [] = Unit
Forward now (r ∷ rounds) =
    (now ≤ r.polls_at)
    × (r.polls_at ≤ r.tests_at)
    × (r.tests_at ≤ r.ticks_at)
    × Forward r.ticks_at rounds

abbrev pub ticks_in : List Sent → ℕ
ticks_in [] = 0
ticks_in (tick ∷ l) = suc (ticks_in l)
ticks_in (input k ∷ l) = ticks_in l

ticks_in-append : (l m : List Sent) → ticks_in (l ++ m) ≡ ticks_in l + ticks_in m
ticks_in-append [] m = omega arith
ticks_in-append (tick ∷ l) m = omega (arith, ticks_in-append l m)
ticks_in-append (input k ∷ l) m = omega (arith, ticks_in-append l m)

abbrev pub keys_in : List Sent → List KeyCode
keys_in [] = []
keys_in (tick ∷ l) = keys_in l
keys_in (input k ∷ l) = k ∷ keys_in l

abbrev pub keys_of : List Round → List KeyCode
keys_of [] = []
keys_of (r ∷ rounds) = elim r.polled [
  | key k ↦ k ∷ keys_of rounds
  | another ↦ keys_of rounds
  | quiet ↦ keys_of rounds
]

abbrev pub TakesKeys : List Round → Type 0
TakesKeys [] = Unit
TakesKeys (r ∷ rounds) = (r.key_ok ≡ true) × TakesKeys rounds

-- A key is no tick.
ticks_in-send_key :
    (b : Bool) (p : Polled) (keys : List Sent) → send_key b p ≡ some keys → ticks_in keys ≡ 0
unfolding send_key
ticks_in-send_key true (key k) keys h = ground arith
ticks_in-send_key false (key k) keys h = cc
ticks_in-send_key true another keys h = ground arith
ticks_in-send_key false another keys h = ground arith
ticks_in-send_key true quiet keys h = ground arith
ticks_in-send_key false quiet keys h = ground arith

-- A tick is sent only where `tick_rate` has passed since the last one.
send_tick_lem :
    (r : Round) (last_tick : ℕ)
    → r.tests_at ≤ r.ticks_at
    → let (ticks, last_tick') = send_tick (is_due r last_tick) r last_tick in
      ticks_in ticks * tick_rate + last_tick ≤ last_tick'
unfolding send_tick is_due
send_tick_lem r last_tick h = ground arith

paced-after_key :
    (o : Option (List Sent)) (last_tick : ℕ) (rest : List Sent × ℕ)
    → ((keys : List Sent) → o ≡ some keys → ticks_in keys ≡ 0)
    → ticks_in rest.0 * tick_rate + last_tick ≤ rest.1
    → ticks_in (after_key o last_tick rest).0 * tick_rate + last_tick
      ≤ (after_key o last_tick rest).1
unfolding after_key
paced-after_key none last_tick rest h b = omega arith
paced-after_key (some keys) last_tick (sent, end) h b =
    omega (arith, ticks_in-append keys sent, h keys refl)

sent-paced :
    (rounds : List Round) (now last_tick : ℕ)
    → Forward now rounds
    → let (sent, end) = send_events rounds last_tick in ticks_in sent * tick_rate + last_tick ≤ end
unfolding send_events
sent-paced [] now last_tick f = omega arith
sent-paced (r ∷ rounds) now last_tick (p, q, w, f) =
    let (ticks, last_tick') = send_tick (is_due r last_tick) r last_tick in
    let (sent, end) = send_events rounds last_tick' in
    paced-after_key (send_key r.key_ok r.polled) last_tick (ticks ++ sent, end)
      (ticks_in-send_key r.key_ok r.polled)
      (omega (
        arith,
        ticks_in-append ticks sent,
        send_tick_lem r last_tick w,
        sent-paced rounds r.ticks_at last_tick' f,
      ))

keys_in-append : (l m : List Sent) → keys_in (l ++ m) ≡ keys_in l ++ keys_in m
keys_in-append [] m = refl
keys_in-append (tick ∷ l) m = keys_in-append l m
keys_in-append (input k ∷ l) m = ap (λ x. k ∷ x) (keys_in-append l m)

keys_in-send_tick :
    (b : Bool) (r : Round) (last_tick : ℕ) → keys_in (send_tick b r last_tick).0 ≡ []
unfolding send_tick
keys_in-send_tick true r last_tick = refl
keys_in-send_tick false r last_tick = refl

sent-keys :
    (rounds : List Round) (last_tick : ℕ)
    → TakesKeys rounds
    → keys_in (send_events rounds last_tick).0 ≡ keys_of rounds
unfolding send_events send_key after_key
sent-keys [] last_tick h = refl
sent-keys (r ∷ rounds) last_tick (ok, h) =
    let (ticks, last_tick') = send_tick (is_due r last_tick) r last_tick in
    let (sent, end) = send_events rounds last_tick' in
    let silent = keys_in-send_tick (is_due r last_tick) r last_tick in
    let later =
      keys_in-append ticks sent
      ∙ ap (λ l. l ++ keys_in sent) silent
      ∙ sent-keys rounds last_tick' h in
    passed r.key_ok r.polled last_tick (ticks ++ sent, end) ok later
  where
    passed :
        (b : Bool) (p : Polled) (last_tick : ℕ) (rest : List Sent × ℕ)
        → b ≡ true
        → keys_in rest.0 ≡ keys_of rounds
        → keys_in (after_key (send_key b p) last_tick rest).0 ≡ elim p [
          | key k ↦ k ∷ keys_of rounds
          | another ↦ keys_of rounds
          | quiet ↦ keys_of rounds
        ]
    passed true (key k) last_tick rest h e = ap (λ x. k ∷ x) e
    passed true another last_tick rest h e = e
    passed true quiet last_tick rest h e = e
    passed false p last_tick rest h e = cc

-- The thread, on a clock that does not run backwards, sends the keys that were pressed, in their
-- order, if the receiver takes them, and at most one tick in 200 ms.
pub send_events-paced :
    (rounds : List Round) (now last_tick : ℕ)
    → Forward now rounds
    → TakesKeys rounds
    → let (sent, end) = send_events rounds last_tick in
      (keys_in sent ≡ keys_of rounds) × (ticks_in sent * tick_rate + last_tick ≤ end)
send_events-paced rounds now last_tick f h =
    (sent-keys rounds last_tick h, sent-paced rounds now last_tick f)
