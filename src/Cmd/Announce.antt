-- ===== src/Cmd/Announce.antt =====
-- core/src/cmd/announce.rs: the record, its frame and its parser. How it is applied is in Apply.
use peer_to_peer_chat_system.Prelude.{ℕ, ◌≡◌, refl, List, [], ◌∷◌, map, arith}
use peer_to_peer_chat_system.Prelude.Text.{Text, codes}
use peer_to_peer_chat_system.Frame.{Frame, Frames, F64, text, number, array, float, nil, cons, vec}
use peer_to_peer_chat_system.Result
use peer_to_peer_chat_system.Result.{Result, ok, err, peer_info}
use peer_to_peer_chat_system.Parser.{
  Parser, ◌>>=◌, ◌>>◌, pure, lift, next_text, next_number, next_float, next_array, finish,
}
use peer_to_peer_chat_system.Parser.Inversion.{
  next_text-eq_ok, next_number-eq_ok, next_float-eq_ok, next_array-eq_ok, finish-eq_ok,
}

pub record Announce : Type 0 where
  pub source : Text
  pub sequence_number : ℕ
  pub ip_address : Text
  pub port : ℕ
  pub available_incoming : ℕ
  pub city : Text
  pub lat : F64
  pub lng : F64
  pub peers : List Text

unfoldable pub new : Text → ℕ → Text → ℕ → ℕ → Text → F64 → F64 → List Text → Announce
new source sequence_number ip_address port available_incoming city lat lng peers = record {
  source = source;
  sequence_number = sequence_number;
  ip_address = ip_address;
  port = port;
  available_incoming = available_incoming;
  city = city;
  lat = lat;
  lng = lng;
  peers = peers;
}

unfoldable pub into_frame : Announce → Frame
into_frame a = array (
    vec (
      text (codes "announce")
      ∷ text a.source
      ∷ number a.sequence_number
      ∷ text a.ip_address
      ∷ number a.port
      ∷ number a.available_incoming
      ∷ text a.city
      ∷ float a.lat
      ∷ float a.lng
      ∷ array (vec (map text a.peers))
      ∷ []))

-- The loop of `parse_peer_info_frames`.
peer_names : Frames → Result (List Text)
peer_names nil = ok []
peer_names (cons (text peer_name) rest) =
    Result.◌>>=◌ (peer_names rest) (λ names. ok (peer_name ∷ names))
peer_names (cons frame rest) = err (peer_info frame)

unfoldable pub parse_peer_info_frames : Parser (List Text)
unfolding peer_names
parse_peer_info_frames = do peer_info_frames ← next_array; lift (peer_names peer_info_frames)

-- The second half of `parse_frames`, behind the port.
unfoldable pub parse_place : Text → ℕ → Text → ℕ → Parser Announce
unfolding new
parse_place source sequence_number ip_address port = do
  available_incoming ← next_number
  city ← next_text
  lat ← next_float
  lng ← next_float
  peers ← parse_peer_info_frames
  finish
  pure (new source sequence_number ip_address port available_incoming city lat lng peers)

unfoldable pub parse_frames : Parser Announce
parse_frames = do
  source ← next_text
  sequence_number ← next_number
  ip_address ← next_text
  port ← next_number
  parse_place source sequence_number ip_address port

peer_names-map : (names : List Text) → peer_names (vec (map text names)) ≡ ok names
unfolding peer_names
peer_names-map [] = refl
peer_names-map (n ∷ names) = rw (peer_names-map names)

peer_names-eq_ok :
    (fs : Frames) (names : List Text) → peer_names fs ≡ ok names → fs ≡ vec (map text names)
unfolding peer_names
peer_names-eq_ok nil names h = ground arith
peer_names-eq_ok (cons (text n) fs) names h =
    let (ns, p, q) = Result.>>=-eq-ok (peer_names fs) (λ names. ok (n ∷ names)) h in
    ground (arith, peer_names-eq_ok fs ns p)
peer_names-eq_ok (cons f fs) names h = cc

parse_peer_info_frames-eq_ok :
    (p : Frames) (y : List Text × Frames)
    → parse_peer_info_frames p ≡ ok y
    → p ≡ cons (array (vec (map text y.0))) y.1
unfolding parse_peer_info_frames
parse_peer_info_frames-eq_ok p y h = grind (arith, next_array-eq_ok, peer_names-eq_ok)

-- The parser reads back what the frame holds behind the name.
pub parse_frames-into_frame :
    (a : Announce)
    → (rest : Frames) × (into_frame a ≡ array (cons (text (codes "announce")) rest))
      × (parse_frames rest ≡ ok (a, nil))
unfolding into_frame parse_frames parse_place next_text next_number next_float next_array finish
parse_frames-into_frame a = (
  vec (
      text a.source
      ∷ number a.sequence_number
      ∷ text a.ip_address
      ∷ number a.port
      ∷ number a.available_incoming
      ∷ text a.city
      ∷ float a.lat
      ∷ float a.lng
      ∷ array (vec (map text a.peers))
      ∷ []),
  refl,
  unfold parse_peer_info_frames in rw peer_names-map,
)

parse_place-eq_ok :
    (s : Text) (n : ℕ) (i : Text) (p : ℕ) (rest : Frames) (y : Announce × Frames)
    → parse_place s n i p rest ≡ ok y
    → (y.1 ≡ nil)
      × (y.0.source ≡ s)
      × (y.0.sequence_number ≡ n)
      × (y.0.ip_address ≡ i)
      × (y.0.port ≡ p)
      × (rest
          ≡ vec (
              number y.0.available_incoming
              ∷ text y.0.city
              ∷ float y.0.lat
              ∷ float y.0.lng
              ∷ array (vec (map text y.0.peers))
              ∷ []))
unfolding parse_place
parse_place-eq_ok s n i p rest y h = grind (
  arith, next_text-eq_ok, next_number-eq_ok, next_float-eq_ok, parse_peer_info_frames-eq_ok,
  finish-eq_ok,
)

parse_place-eq_ok_self :
    (s : Text) (n : ℕ) (i : Text) (p : ℕ) (rest : Frames) (a : Announce)
    → parse_place s n i p rest ≡ ok (a, nil)
    → array (
        cons
          (text (codes "announce"))
          (cons (text s) (cons (number n) (cons (text i) (cons (number p) rest)))))
      ≡ into_frame a
unfolding into_frame
parse_place-eq_ok_self s n i p rest a h =
    let (_, q, r, t, u, v) = parse_place-eq_ok s n i p rest (a, nil) h in rw (q, r, t, u, v)

-- What the parser accepts is what the frame holds behind the name.
pub parse_frames-eq_ok :
    (a : Announce) (rest : Frames)
    → parse_frames rest ≡ ok (a, nil)
    → into_frame a ≡ array (cons (text (codes "announce")) rest)
unfolding parse_frames
parse_frames-eq_ok a rest h =
    grind (arith, next_text-eq_ok, next_number-eq_ok, parse_place-eq_ok_self)
