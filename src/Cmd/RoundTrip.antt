-- ===== src/Cmd/RoundTrip.antt =====
-- Reading a command from the frame that it turns into.
use peer_to_peer_chat_system.Prelude.{
  ◌≡◌, refl, sym, ap, ◌∙◌, Option, none, some, arith, if◌then◌else◌, Bool-cases, inl, inr,
}
use peer_to_peer_chat_system.Prelude.Text.{Text, codes, text_eq, text_eq_iff}
use peer_to_peer_chat_system.Frame.{Frame, Frames, text, array, cons, nil}
use peer_to_peer_chat_system.Result
use peer_to_peer_chat_system.Result.{ok}
use peer_to_peer_chat_system.Parser.{Parser, new, next_text, finish}
use peer_to_peer_chat_system.Parser.Inversion.{new-eq_ok, next_text-eq_ok, finish-eq_ok}
use peer_to_peer_chat_system.Cmd.{
  Command, broadcast, ping, pong, register, say, deliver, announce, whisper, extension, unknown,
  to_lowercase, parse_as, parser_for, parse_command, from_frame, to_frame,
}
use peer_to_peer_chat_system.Cmd.Broadcast
use peer_to_peer_chat_system.Cmd.Ping
use peer_to_peer_chat_system.Cmd.Pong
use peer_to_peer_chat_system.Cmd.Register
use peer_to_peer_chat_system.Cmd.Say
use peer_to_peer_chat_system.Cmd.Deliver
use peer_to_peer_chat_system.Cmd.Announce
use peer_to_peer_chat_system.Cmd.Whisper
use peer_to_peer_chat_system.Cmd.Extension

-- The frame of a command is read by the parser that its name chooses.
read_back :
    {A : Type 0} (make : A → Command) (p : Parser A) (into : A → Frame) (name : Text) (a : A)
    (f : Frame)
    → parser_for (to_lowercase name) ≡ some (parse_as make p)
    → (rest : Frames) × (into a ≡ array (cons (text name) rest)) × (p rest ≡ ok (a, nil))
    → some (into a) ≡ some f
    → from_frame f ≡ ok (make a)
unfolding from_frame new next_text parse_command finish
read_back make p into name a f t (rest, q, r) h =
    let e : array (cons (text name) rest) ≡ f = cc in rw (← e) (rw t (rw r refl))

-- Every command that has a frame is read back from it.
pub from_frame-to_frame : (c : Command) (f : Frame) → to_frame c ≡ some f → from_frame f ≡ ok c
unfolding to_frame parser_for to_lowercase text_eq
from_frame-to_frame (broadcast c) f h =
    read_back broadcast Broadcast.parse_frames Broadcast.into_frame (codes "broadcast") c f refl
      (Broadcast.parse_frames-into_frame c) h
from_frame-to_frame (ping c) f h =
    read_back ping Ping.parse_frames Ping.into_frame (codes "ping") c f refl
      (Ping.parse_frames-into_frame c) h
from_frame-to_frame (pong c) f h =
    read_back pong Pong.parse_frames Pong.into_frame (codes "pong") c f refl
      (Pong.parse_frames-into_frame c) h
from_frame-to_frame (register c) f h =
    read_back register Register.parse_frames Register.into_frame (codes "register") c f refl
      (Register.parse_frames-into_frame c) h
from_frame-to_frame (say c) f h =
    read_back say Say.parse_frames Say.into_frame (codes "say") c f refl
      (Say.parse_frames-into_frame c) h
from_frame-to_frame (deliver c) f h =
    read_back deliver Deliver.parse_frames Deliver.into_frame (codes "deliver") c f refl
      (Deliver.parse_frames-into_frame c) h
from_frame-to_frame (announce c) f h =
    read_back announce Announce.parse_frames Announce.into_frame (codes "announce") c f refl
      (Announce.parse_frames-into_frame c) h
from_frame-to_frame (whisper c) f h =
    read_back whisper Whisper.parse_frames Whisper.into_frame (codes "whisper") c f refl
      (Whisper.parse_frames-into_frame c) h
from_frame-to_frame (extension c) f h =
    read_back extension Extension.parse_frames Extension.into_frame (codes "extension") c f refl
      (Extension.parse_frames-into_frame c) h
from_frame-to_frame unknown f h = cc

-- What a parser behind a name has read when the command is accepted.
parse_command-eq_ok :
    {A : Type 0} (make : A → Command) (p : Parser A) (rest : Frames) (c : Command)
    → parse_command (some (parse_as make p)) rest ≡ ok c
    → (a : A) × (p rest ≡ ok (a, nil)) × (c ≡ make a)
unfolding parse_command
parse_command-eq_ok make p rest c h =
    let (r, read, done) =
      Result.>>=-eq-ok (parse_as make p rest) (λ r. Result.◌>>=◌ (finish r.1) (λ _. ok r.0)) h in
    let (a, parsed, made) = Result.>>=-eq-ok (p rest) (λ r. ok (make r.0, r.1)) read in
    let (u, ended, got) = Result.>>=-eq-ok (finish r.1) (λ _. ok r.0) done in
    let (empty, _) = finish-eq_ok r.1 u ended in (a.0, ground arith, ground arith)

-- The frame `g` of a command that was read by `o` begins with the name `n`.
abbrev Names : Text → Frames → Command → Frame → Option (Parser Command) → Type 0
Names n rest c g o =
    parse_command o rest ≡ ok c → to_frame c ≡ some g → g ≡ array (cons (text n) rest)

module _ (n : Text) (rest : Frames) (c : Command) (g : Frame) where
  read_as :
      {A : Type 0} (make : A → Command) (p : Parser A) (into : A → Frame) (name : Text)
      → ((a : A) → to_frame (make a) ≡ some (into a))
      → ((a : A) (rest : Frames) → p rest ≡ ok (a, nil) → into a ≡ array (cons (text name) rest))
      → n ≡ name
      → Names n rest c g (some (parse_as make p))
  read_as make p into name framed reads e h k =
      let (a, read, made) = parse_command-eq_ok make p rest c h in
      let same : some (into a) ≡ some g = sym (framed a) ∙ sym (ap to_frame made) ∙ k in
      let eq : into a ≡ g = cc in rw e (sym eq ∙ reads a rest read)

unnamed : (n : Text) (rest : Frames) (c : Command) (g : Frame) → Names n rest c g none
unfolding parse_command to_frame
unnamed n rest c g h k = let e : unknown ≡ c = cc in cc (ap to_frame e ∙ k)

module _ (n : Text) (rest : Frames) (c : Command) (g : Frame) where
  -- One test of the ladder of names.
  named :
      (name : Text) (o q : Option (Parser Command))
      → (n ≡ name → Names n rest c g o)
      → Names n rest c g q
      → Names n rest c g (if text_eq n name then o else q)
  named name o q yes_named no_named = elim (Bool-cases (text_eq n name)) [
    | inl t ↦ rw t (yes_named ((text_eq_iff n name).0 t))
    | inr t ↦ rw t no_named
  ]

  dispatch : Names n rest c g (parser_for n)
  unfolding parser_for to_frame
  dispatch =
      named _ _ _
        (read_as n rest c g broadcast _ Broadcast.into_frame _ (λ a. refl)
          Broadcast.parse_frames-eq_ok)
        (named _ _ _
          (read_as n rest c g ping _ Ping.into_frame _ (λ a. refl) Ping.parse_frames-eq_ok)
          (named _ _ _
            (read_as n rest c g pong _ Pong.into_frame _ (λ a. refl) Pong.parse_frames-eq_ok)
            (named _ _ _
              (read_as n rest c g register _ Register.into_frame _ (λ a. refl)
                Register.parse_frames-eq_ok)
              (named _ _ _
                (read_as n rest c g say _ Say.into_frame _ (λ a. refl) Say.parse_frames-eq_ok)
                (named _ _ _
                  (read_as n rest c g deliver _ Deliver.into_frame _ (λ a. refl)
                    Deliver.parse_frames-eq_ok)
                  (named _ _ _
                    (read_as n rest c g announce _ Announce.into_frame _ (λ a. refl)
                      Announce.parse_frames-eq_ok)
                    (named _ _ _
                      (read_as n rest c g whisper _ Whisper.into_frame _ (λ a. refl)
                        Whisper.parse_frames-eq_ok)
                      (named _ _ _
                        (read_as n rest c g extension _ Extension.into_frame _ (λ a. refl)
                          Extension.parse_frames-eq_ok)
                        (unnamed n rest c g)))))))))

-- Where a frame is read as a command that has a frame, the two frames are the same but for the case
-- of the letters in the name.
pub to_frame-from_frame :
    (f g : Frame) (c : Command)
    → from_frame f ≡ ok c
    → to_frame c ≡ some g
    → (name : Text) × (rest : Frames) × (f ≡ array (cons (text name) rest))
      × (g ≡ array (cons (text (to_lowercase name)) rest))
unfolding from_frame
to_frame-from_frame f g c h k =
    let (parts, opened, named) =
      Result.>>=-eq-ok (new f)
        (λ parts.
          Result.◌>>=◌ (next_text parts) (λ r. parse_command (parser_for (to_lowercase r.0)) r.1))
        h in
    let (r, read, rest) =
      Result.>>=-eq-ok (next_text parts) (λ r. parse_command (parser_for (to_lowercase r.0)) r.1)
        named in
    (
      r.0,
      r.1,
      new-eq_ok f parts opened ∙ ap array (next_text-eq_ok parts r read),
      dispatch (to_lowercase r.0) r.1 c g rest k,
    )
