-- ===== src/Tests/Terminal.antt =====
-- cli/src/main.rs and the screen and keys of cli/src/fancy_tui.rs on concrete inputs.
use peer_to_peer_chat_system.Prelude.{
  ℕ, ◌≡◌, ◌≢◌, ◌≤◌, ◌+◌, ◌*◌, ◌-◌, refl, true, false, List, [], ◌∷◌, ◌++◌, length, arith,
}
use peer_to_peer_chat_system.Prelude.Text.{Text, codes, text_eq}
use peer_to_peer_chat_system.Prelude.HashMap
use peer_to_peer_chat_system.Prelude.Search.{split_once}
use peer_to_peer_chat_system.Prelude.Decimal.{to_decimal, digits}
use peer_to_peer_chat_system.Util.TtlMap
use peer_to_peer_chat_system.Peer
use peer_to_peer_chat_system.Tracker.Joins.{JoinsBy}
use peer_to_peer_chat_system.Cli.Fancy
use peer_to_peer_chat_system.Cli.Screen.{Chunks, messages, draw, draw_shows}
use peer_to_peer_chat_system.Cli.Startup.{Args, main, runs, ui_of, peer_of, main-JoinsBy}
use peer_to_peer_chat_system.Cli.Ticks.{
  Round, key, quiet, send_events, keys_in, keys_of, ticks_in, tick_rate, send_events-paced,
}
use peer_to_peer_chat_system.Tests.Tracker.{addrs, tracker, all}

-- Two lines between the borders, and three messages.
abbrev chunks : Chunks
chunks = record { body_top = 5; body_bottom = 9; input_x = 2; input_y = 9 }

abbrev three : Fancy.State
three = record {
  messages = codes "a" ∷ codes "b" ∷ codes "c" ∷ [];
  input_mode = Fancy.normal;
  active_menu_item = Fancy.home;
  input_string = [];
  shut_down = false;
}

abbrev width : Text → ℕ
width = length

draw_shows_example :
    let lines = 9 - 5 - 2 in
    let shown = (draw width chunks three).1.messages in
    ((draw width chunks three).0.body ≡ messages (Fancy.numbered 0 shown))
    × ((draw width chunks three).0.selected ≡ 0)
    × (length shown ≤ lines)
    × ((dropped : List Text) × (dropped ++ shown ≡ three.messages)
        × (length dropped ≢ 0 → length shown ≡ lines))
draw_shows_example = draw_shows width chunks three (omega arith) (omega arith) refl

shown : (draw width chunks three).0.body ≡ messages (codes "0: b" ∷ codes "1: c" ∷ [])
unfolding draw Fancy.fit_messages Fancy.drain_messages Fancy.message_list to_decimal digits
shown = refl

abbrev args : Args
args = record {
  name = codes "bob";
  ip_address = codes "h";
  port = 2;
  tracker_ip_address = codes "t";
  tracker_port = 3;
  max_connections = 5;
  simple = true;
}

main-JoinsBy_example :
    (main true true (Peer.default 0 0) args ≡ runs (ui_of true) (peer_of args (Peer.default 0 0)))
    × JoinsBy addrs all 0 (peer_of args (Peer.default 0 0)).server tracker
unfolding split_once HashMap.get text_eq TtlMap.get to_decimal digits
main-JoinsBy_example =
    main-JoinsBy addrs all 0 args (Peer.default 0 0) tracker (codes "h", codes "2") (omega arith)
      refl refl (λ k e. cc)

-- A key, and then nothing for as long as `poll` waits.
abbrev rounds : List Round
rounds =
    record {
      polls_at = 0;
      polled = key Fancy.enter;
      tests_at = 7;
      ticks_at = 7;
      key_ok = true;
      tick_ok = true;
    }
    ∷ record {
      polls_at = 8;
      polled = quiet;
      tests_at = 200_000_003;
      ticks_at = 200_000_005;
      key_ok = true;
      tick_ok = true;
    }
    ∷ []

send_events-paced_example :
    let (sent, end) = send_events rounds 0 in
    (keys_in sent ≡ keys_of rounds) × (ticks_in sent * tick_rate + 0 ≤ end)
send_events-paced_example = send_events-paced rounds 0 0 (omega arith) (refl, (refl, tt))
