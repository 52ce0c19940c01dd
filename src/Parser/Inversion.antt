-- ===== src/Parser/Inversion.antt =====
-- What the methods of a `Parser` have read when they succeed.
use peer_to_peer_chat_system.Prelude.{ℕ, ◌≡◌, arith}
use peer_to_peer_chat_system.Prelude.Text.{Text}
use peer_to_peer_chat_system.Frame.{
  Frame, Frames, F64, Bytes, text, number, bulk, array, float, nil, cons,
}
use peer_to_peer_chat_system.Result.{ok}
use peer_to_peer_chat_system.Parser.{
  new, next, next_float, next_text, next_bytes, next_number, next_array, finish,
}

pub new-eq_ok : (f : Frame) (p : Frames) → new f ≡ ok p → f ≡ array p
unfolding new
new-eq_ok (array q) p h = ground arith
new-eq_ok f p h = cc

pub next-eq_ok : (p : Frames) (y : Frame × Frames) → next p ≡ ok y → p ≡ cons y.0 y.1
unfolding next
next-eq_ok nil y h = cc
next-eq_ok (cons g p) y h = ground arith

pub finish-eq_ok : (p : Frames) (y : Unit {0} × Frames) → finish p ≡ ok y → (p ≡ nil) × (y.1 ≡ nil)
unfolding finish
finish-eq_ok nil y h = ground arith
finish-eq_ok (cons f p) y h = cc

pub next_float-eq_ok :
    (p : Frames) (y : F64 × Frames) → next_float p ≡ ok y → p ≡ cons (float y.0) y.1
unfolding next_float
next_float-eq_ok nil y h = cc
next_float-eq_ok (cons (float x) p) y h = ground arith
next_float-eq_ok (cons f p) y h = cc

pub next_text-eq_ok :
    (p : Frames) (y : Text × Frames) → next_text p ≡ ok y → p ≡ cons (text y.0) y.1
unfolding next_text
next_text-eq_ok nil y h = cc
next_text-eq_ok (cons (text x) p) y h = ground arith
next_text-eq_ok (cons f p) y h = cc

pub next_bytes-eq_ok :
    (p : Frames) (y : Bytes × Frames) → next_bytes p ≡ ok y → p ≡ cons (bulk y.0) y.1
unfolding next_bytes
next_bytes-eq_ok nil y h = cc
next_bytes-eq_ok (cons (bulk x) p) y h = ground arith
next_bytes-eq_ok (cons f p) y h = cc

pub next_number-eq_ok :
    (p : Frames) (y : ℕ × Frames) → next_number p ≡ ok y → p ≡ cons (number y.0) y.1
unfolding next_number
next_number-eq_ok nil y h = cc
next_number-eq_ok (cons (number x) p) y h = ground arith
next_number-eq_ok (cons f p) y h = cc

pub next_array-eq_ok :
    (p : Frames) (y : Frames × Frames) → next_array p ≡ ok y → p ≡ cons (array y.0) y.1
unfolding next_array
next_array-eq_ok nil y h = cc
next_array-eq_ok (cons (array x) p) y h = ground arith
next_array-eq_ok (cons f p) y h = cc
