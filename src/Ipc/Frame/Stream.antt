-- ===== src/Ipc/Frame/Stream.antt =====
-- The frames of a whole byte stream, a reference for the codec that is fed with pieces of it.
use q_browser.Base.{
  ℕ, zero, suc, ◌+◌, ◌≤◌, ◌<◌, List, [], ◌∷◌, ◌++◌, ◌≡◌, ◌≢◌, refl, ap, arith, ltb, ◌==◌,
  if◌then◌else◌, length, take, drop, length-append, length-drop,
}
use q_browser.Base.Text.{Text}
use q_browser.Ipc.Frame.{
  QtJson, FrameError, zero_length, payload_too_large, payload, bad_payload, payload_stuck,
  read_payload, decode_length, maximum_payload_bytes,
}

-- The frames and the bytes behind the last, or the error of a frame
pub data Stream (O : Type 0) : Type 0 where
  whole : List O → Text → Stream O
  broken : FrameError → Stream O
  unfinished : Stream O

abbrev pub cons_frame : {O : Type 0} → O → Stream O → Stream O
cons_frame o (whole os rest) = whole (o ∷ os) rest
cons_frame o (broken e) = broken e
cons_frame o unfinished = unfinished

abbrev pub payload_of : Text → Text
payload_of t = take (decode_length t) (drop 4 t)

abbrev pub behind_frame : Text → Text
behind_frame t = drop (4 + decode_length t) t

-- What the first bytes say: fewer than a frame, a length that is refused, or a frame
pub data Head : Type 0 where
  partial complete : Head
  refused : FrameError → Head

unfoldable pub head : Text → Head
head t =
    if ltb (length t) 4
    then partial
    else if decode_length t == 0
    then refused zero_length
    else if ltb maximum_payload_bytes (decode_length t)
    then refused payload_too_large
    else if ltb (length t) (4 + decode_length t)
    then partial
    else complete

module _ {O : Type 0} (qt : QtJson O) where
  unfoldable pub stream_loop : ℕ → Text → Stream O
  stream_loop zero t = unfinished
  stream_loop (suc fuel) t = elim (head t) [
    | partial ↦ whole [] t
    | refused e ↦ broken e
    | complete ↦ elim (read_payload qt (payload_of t)) [
      | bad_payload e ↦ broken e
      | payload_stuck ↦ unfinished
      | payload o ↦ cons_frame o (stream_loop fuel (behind_frame t))
    ]
  ]

  unfoldable pub stream : Text → Stream O
  stream t = stream_loop (suc (length t)) t

-- The decoded length of a text depends on its first four bytes.
pub decode_length-append :
    (t more : Text) → 4 ≤ length t → decode_length (t ++ more) ≡ decode_length t
unfolding decode_length
decode_length-append [] more h = ground arith
decode_length-append (a ∷ []) more h = ground arith
decode_length-append (a ∷ b ∷ []) more h = ground arith
decode_length-append (a ∷ b ∷ c ∷ []) more h = ground arith
decode_length-append (a ∷ b ∷ c ∷ d ∷ rest) more h = refl

pub take-append {ℓ} :
    {A : Type ℓ} (n : ℕ) (xs ys : List A) → n ≤ length xs → take n (xs ++ ys) ≡ take n xs
take-append zero xs ys h = refl
take-append (suc n) [] ys h = absurd (omega arith)
take-append (suc n) (x ∷ xs) ys h = ap (λ zs. x ∷ zs) (take-append n xs ys (omega arith))

pub drop-append {ℓ} :
    {A : Type ℓ} (n : ℕ) (xs ys : List A) → n ≤ length xs → drop n (xs ++ ys) ≡ drop n xs ++ ys
drop-append zero xs ys h = refl
drop-append (suc n) [] ys h = absurd (omega arith)
drop-append (suc n) (x ∷ xs) ys h = drop-append n xs ys (omega arith)

pub complete-length :
    (t : Text) → head t ≡ complete → (4 + decode_length t ≤ length t) × (0 < decode_length t)
unfolding head
complete-length t h = ground arith

-- More bytes behind a complete frame change neither its payload nor that it is complete.
pub head-append : (t more : Text) → head t ≢ partial → head (t ++ more) ≡ head t
unfolding head
head-append t more h = ground (arith, decode_length-append t more, length-append t more)

pub payload_of-append : (t more : Text) → head t ≡ complete → payload_of (t ++ more) ≡ payload_of t
payload_of-append t more h =
    let bound = complete-length t h in
    rw (decode_length-append t more (omega arith), drop-append 4 t more (omega arith))
      (take-append (decode_length t) (drop 4 t) more (omega (arith, length-drop 4 t)))

pub behind_frame-append :
    (t more : Text) → head t ≡ complete → behind_frame (t ++ more) ≡ behind_frame t ++ more
behind_frame-append t more h =
    let bound = complete-length t h in
    rw (decode_length-append t more (omega arith))
      (drop-append (4 + decode_length t) t more (omega arith))

pub length-behind_frame : (t : Text) → head t ≡ complete → length (behind_frame t) < length t
length-behind_frame t h = omega (arith, complete-length t h, length-drop (4 + decode_length t) t)
