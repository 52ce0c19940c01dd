-- ===== src/Result.antt =====
-- `Result<_, Bing2BingError>`: the errors that the code makes or passes on.
use peer_to_peer_chat_system.Prelude.{◌≡◌, refl}
use peer_to_peer_chat_system.Frame.{Frame}

-- What a parser method asked for.
pub data Kind : Type 0 where
  array_kind float_kind text_kind bulk_kind number_kind : Kind

-- The first three are the values of `ParseError`, whose boxing adds nothing: `expected` and
-- `more_data` stand for their formatted messages. The others are a peer's name that is no text in
-- an announce, a tracker's answer that is no array, a frame that is no register, a socket address
-- that does not parse, a failed read or write, and a closed channel.
pub data Error : Type 0 where
  end_of_stream : Error
  expected : Kind → Frame → Error
  more_data : Error
  peer_info : Frame → Error
  not_an_array : Error
  not_a_register : Error
  bad_address : Error
  io : Error
  closed : Error

-- Either the error that stopped the function or what it returns.
pub data Result {ℓ} (T : Type ℓ) : Type ℓ where
  err : (cause : Error) → Result T
  ok : (value : T) → Result T

module _ {ℓ κ} {T : Type ℓ} {U : Type κ} where
  infixl 5 ◌>>=◌
  -- The operator `?`, with what follows it as `next`.
  abbrev pub ◌>>=◌ : Result T → (T → Result U) → Result U
  ◌>>=◌ (err cause) next = err cause
  ◌>>=◌ (ok value) next = next value

  -- Where a chain returns, its first part returned, and so did the rest on that value.
  pub >>=-eq-ok :
      (first : Result T) (next : T → Result U) {u : U}
      → first >>= next ≡ ok u
      → (value : T) × (first ≡ ok value) × (next value ≡ ok u)
  >>=-eq-ok (err cause) next h = cc
  >>=-eq-ok (ok value) next h = (value, refl, h)
