-- ===== src/Ipc/Frame/Round.antt =====
-- One round of the loop of `FrameCodec::feed`, in terms of all the bytes it has.
use q_browser.Base.{
  ℕ, zero, suc, ◌+◌, ◌-◌, ◌≤◌, ◌<◌, min, true, false, List, [], ◌∷◌, ◌++◌, ◌≡◌, ◌⊎◌, inl, inr, refl,
  sym, ap, ◌∙◌, arith, leb, if◌then◌else◌, length, take, drop, length-append, length-take,
  length-drop,
}
use mathlib.Core.List.{append_assoc}
use q_browser.Base.Text.{Text}
use q_browser.Ipc.Frame.{
  QtJson, FrameError, zero_length, payload_too_large, queue_limit_exceeded, Payload, payload,
  bad_payload, payload_stuck, read_payload, decode_length, maximum_payload_bytes,
  maximum_frames_per_feed, no_bytes, FeedEnd, fed, fails, stuck, feed_loop,
}
use q_browser.Ipc.Frame.Stream.{
  payload_of, behind_frame, Head, partial, complete, refused, head, decode_length-append,
  take-append, drop-append, complete-length,
}
use q_browser.Ipc.Frame.Split.{Payload-cases}

-- The variables of a round
abbrev missing : Text → ℕ
missing q = 4 - length q

abbrev header : Text → Text → Text
header q b = q ++ take (missing q) b

abbrev behind : Text → Text → Text
behind q b = drop (missing q) b

abbrev missing_payload : Text → Text → ℕ
missing_payload q b = 4 + decode_length (header q b) - length (header q b)

abbrev frame : Text → Text → Text
frame q b = header q b ++ take (missing_payload q b) (behind q b)

abbrev rest : Text → Text → Text
rest q b = drop (missing_payload q b) (behind q b)

take-drop : (n : ℕ) (xs : Text) → take n xs ++ drop n xs ≡ xs
take-drop zero xs = refl
take-drop (suc n) [] = refl
take-drop (suc n) (x ∷ xs) = ap (λ ys. x ∷ ys) (take-drop n xs)

split_bytes : (n : ℕ) (xs ys : Text) → (xs ++ take n ys) ++ drop n ys ≡ xs ++ ys
split_bytes n xs ys = append_assoc xs (take n ys) (drop n ys) ∙ ap (λ zs. xs ++ zs) (take-drop n ys)

drop_all : (xs ys : Text) (n : ℕ) → n ≡ length xs → drop n (xs ++ ys) ≡ ys
drop_all [] ys zero e = refl
drop_all [] ys (suc n) e = absurd (omega arith)
drop_all (x ∷ xs) ys zero e = absurd (omega arith)
drop_all (x ∷ xs) ys (suc n) e = drop_all xs ys n (omega arith)

drop_short : (n : ℕ) (xs : Text) → length xs ≤ n → drop n xs ≡ []
drop_short zero [] h = refl
drop_short zero (x ∷ xs) h = absurd (omega arith)
drop_short (suc n) [] h = refl
drop_short (suc n) (x ∷ xs) h = drop_short n xs (omega arith)

take_short : (n : ℕ) (xs : Text) → length xs ≤ n → take n xs ≡ xs
take_short zero [] h = refl
take_short zero (x ∷ xs) h = absurd (omega arith)
take_short (suc n) [] h = refl
take_short (suc n) (x ∷ xs) h = ap (λ ys. x ∷ ys) (take_short n xs (omega arith))

length-header : (q b : Text) → length (header q b) ≡ length q + min (4 - length q) (length b)
length-header q b = omega (arith, length-append q (take (missing q) b), length-take (missing q) b)

length-behind : (q b : Text) → length (behind q b) ≡ length b - (4 - length q)
length-behind q b = length-drop (missing q) b

header-behind : (q b : Text) → header q b ++ behind q b ≡ q ++ b
header-behind q b = split_bytes (missing q) q b

frame_rest : (q b : Text) → frame q b ++ rest q b ≡ q ++ b
frame_rest q b = split_bytes (missing_payload q b) (header q b) (behind q b) ∙ header-behind q b

header-length_of :
    (q b : Text) → 4 ≤ length (header q b) → decode_length (header q b) ≡ decode_length (q ++ b)
header-length_of q b h =
    sym (decode_length-append (header q b) (behind q b) h) ∙ ap decode_length (header-behind q b)

-- The bytes that are queued between two calls are no frame.
header_bound :
    (q b : Text)
    → head q ≡ partial
    → 4 ≤ length (header q b)
    → length (header q b) ≤ 4 + decode_length (header q b)
unfolding head
header_bound q b e h =
    ground (arith, length-header q b, decode_length-append q (take (missing q) b))

length-frame :
    (q b : Text)
    → length (frame q b) ≡ length (header q b) + min (missing_payload q b) (length (behind q b))
length-frame q b = omega (
  arith,
  length-append (header q b) (take (missing_payload q b) (behind q b)),
  length-take (missing_payload q b) (behind q b),
)

length-both : (q b : Text) → length (header q b) + length (behind q b) ≡ length (q ++ b)
length-both q b = omega (arith, length-header q b, length-behind q b, length-append q b)

header_short : (q b : Text) → length (header q b) < 4 → header q b ≡ q ++ b
header_short q b h = rw (take_short (missing q) b (omega (arith, length-header q b))) refl

frame_short :
    (q b : Text)
    → length (frame q b) < 4 + decode_length (header q b)
    → 4 ≤ length (header q b)
    → frame q b ≡ q ++ b
frame_short q b h g =
    rw (take_short (missing_payload q b) (behind q b) (omega (arith, length-frame q b)))
      (header-behind q b)

header_complete : (q b : Text) → 4 ≤ length (q ++ b) → 4 ≤ length (header q b)
header_complete q b h = omega (arith, length-header q b, length-append q b)

frame_complete :
    (q b : Text)
    → head q ≡ partial
    → 4 ≤ length (q ++ b)
    → 4 + decode_length (q ++ b) ≤ length (q ++ b)
    → length (frame q b) ≡ 4 + decode_length (q ++ b)
frame_complete q b e h g =
    let four = header_complete q b h in
    omega
      (arith, header-length_of q b four, header_bound q b e four, length-frame q b, length-both q b)

rest_complete :
    (q b : Text)
    → length (frame q b) ≡ 4 + decode_length (q ++ b)
    → rest q b ≡ behind_frame (q ++ b)
rest_complete q b h =
    sym (drop_all (frame q b) (rest q b) (4 + decode_length (q ++ b)) (sym h))
    ∙ ap (drop (4 + decode_length (q ++ b))) (frame_rest q b)

payload_complete :
    (q b : Text)
    → length (frame q b) ≡ 4 + decode_length (q ++ b)
    → take (decode_length (q ++ b)) (drop 4 (frame q b)) ≡ payload_of (q ++ b)
payload_complete q b h =
    let size = decode_length (q ++ b) in
    sym
      (take-append size (drop 4 (frame q b)) (rest q b) (omega (arith, length-drop 4 (frame q b))))
    ∙ sym (ap (take size) (drop-append 4 (frame q b) (rest q b) (omega arith)))
    ∙ ap (λ t. take size (drop 4 t)) (frame_rest q b)

-- What `head` says where there are four bytes at least
abbrev Facts : Text → Head → Type 0
Facts t partial =
    (0 < decode_length t)
    × (decode_length t ≤ maximum_payload_bytes)
    × (length t < 4 + decode_length t)
Facts t complete =
    (0 < decode_length t)
    × (decode_length t ≤ maximum_payload_bytes)
    × (4 + decode_length t ≤ length t)
Facts t (refused e) =
    ((e ≡ zero_length) × (decode_length t ≡ 0))
    ⊎ ((e ≡ payload_too_large) × (maximum_payload_bytes < decode_length t) × (0 < decode_length t))

head-Facts : (t : Text) (h : Head) → 4 ≤ length t → head t ≡ h → Facts t h
unfolding head
head-Facts t partial g e = ground arith
head-Facts t complete g e = ground arith
head-Facts t (refused x) g e = ground arith

under : (n : ℕ) → (n < 4) ⊎ (4 ≤ n)
under n = ground arith

refused-length : (t : Text) {x : FrameError} → head t ≡ refused x → 4 ≤ length t
unfolding head
refused-length t e = ground arith

module _ {O : Type 0} (qt : QtJson O) where
  round_short :
      (f : ℕ) (q b : Text) (os : List O)
      → length (header q b) < 4
      → feed_loop qt (suc f) q b os ≡ fed (header q b) os
  unfolding feed_loop
  round_short f q b os h = ground arith

  round_frame_short :
      (f : ℕ) (q b : Text) (os : List O)
      → 4 ≤ length (header q b)
      → 0 < decode_length (header q b)
      → decode_length (header q b) ≤ maximum_payload_bytes
      → length (frame q b) < 4 + decode_length (header q b)
      → feed_loop qt (suc f) q b os ≡ fed (frame q b) os
  unfolding feed_loop
  round_frame_short f q b os h₁ h₂ h₃ h₄ = ground arith

  pub round-partial :
      (f : ℕ) (q b : Text) (os : List O)
      → head (q ++ b) ≡ partial
      → feed_loop qt (suc f) q b os ≡ fed (q ++ b) os
  round-partial f q b os h = elim (under (length (header q b))) [
    | inl short ↦ round_short f q b os short ∙ ap (λ t. fed t os) (header_short q b short)
    | inr four ↦
        let (pos, small, few) = head-Facts (q ++ b) partial (omega (arith, length-both q b)) h in
        let e = header-length_of q b four in
        let bound = ap length (frame_rest q b) in
        let short : length (frame q b) < 4 + decode_length (header q b) =
          omega (arith, length-append (frame q b) (rest q b)) in
        round_frame_short f q b os four (omega arith) (omega arith) short
        ∙ ap (λ t. fed t os) (frame_short q b short four)
  ]

  round_zero :
      (f : ℕ) (q b : Text) (os : List O)
      → 4 ≤ length (header q b)
      → decode_length (header q b) ≡ 0
      → feed_loop qt (suc f) q b os ≡ fails zero_length
  unfolding feed_loop
  round_zero f q b os h₁ h₂ = ground arith

  round_too_large :
      (f : ℕ) (q b : Text) (os : List O)
      → 4 ≤ length (header q b)
      → 0 < decode_length (header q b)
      → maximum_payload_bytes < decode_length (header q b)
      → feed_loop qt (suc f) q b os ≡ fails payload_too_large
  unfolding feed_loop
  round_too_large f q b os h₁ h₂ h₃ = ground arith

  pub round-refused :
      (f : ℕ) (q b : Text) (os : List O) {e : FrameError}
      → head (q ++ b) ≡ refused e
      → feed_loop qt (suc f) q b os ≡ fails e
  round-refused f q b os {e} h =
      let long = refused-length (q ++ b) h in
      let four = header_complete q b long in
      let same = header-length_of q b four in
      elim (head-Facts (q ++ b) (refused e) long h) [
        | inl (x, z) ↦ round_zero f q b os four (omega arith) ∙ ap fails (sym x)
        | inr (x, g, p) ↦
            round_too_large f q b os four (omega arith) (omega arith) ∙ ap fails (sym x)
      ]

  -- The end of a round that took a frame
  abbrev pub after_payload : ℕ → Text → List O → Payload O → FeedEnd O
  after_payload f more os (bad_payload e) = fails e
  after_payload f more os payload_stuck = stuck
  after_payload f more os (payload o) = elim (no_bytes more) [
    | true ↦ fed [] (os ++ o ∷ [])
    | false ↦ feed_loop qt f [] more (os ++ o ∷ [])
  ]

  round_frame :
      (f : ℕ) (q b : Text) (os : List O)
      → 4 ≤ length (header q b)
      → 0 < decode_length (header q b)
      → decode_length (header q b) ≤ maximum_payload_bytes
      → length (frame q b) ≡ 4 + decode_length (header q b)
      → drop (4 + decode_length (header q b)) (frame q b) ≡ []
      → feed_loop qt (suc f) q b os ≡ (
          if leb maximum_frames_per_feed (length os)
          then fails queue_limit_exceeded
          else after_payload f
              (rest q b)
              os
              (read_payload qt (take (decode_length (header q b)) (drop 4 (frame q b)))))
  unfolding feed_loop
  round_frame f q b os h₁ h₂ h₃ h₄ h₅ =
      elim (Payload-cases
        (read_payload qt (take (decode_length (header q b)) (drop 4 (frame q b))))) [
          | inl (o, p) ↦ ground arith
          | inr (inl (e, p)) ↦ ground arith
          | inr (inr p) ↦ ground arith
        ]

  pub round-complete :
      (f : ℕ) (q b : Text) (os : List O)
      → head q ≡ partial
      → head (q ++ b) ≡ complete
      → feed_loop qt (suc f) q b os ≡ (
          if leb maximum_frames_per_feed (length os)
          then fails queue_limit_exceeded
          else after_payload f (behind_frame (q ++ b)) os (read_payload qt (payload_of (q ++ b))))
  round-complete f q b os e h =
      let bound = complete-length (q ++ b) h in
      let (pos, small, enough) = head-Facts (q ++ b) complete (omega arith) h in
      let four = header_complete q b (omega arith) in
      let same = header-length_of q b four in
      let whole = frame_complete q b e (omega arith) (omega arith) in
      let none_kept = drop_short (4 + decode_length (header q b)) (frame q b) (omega arith) in
      rw (sym (rest_complete q b whole), sym (payload_complete q b whole), sym same)
        (round_frame f q b os four (omega arith) (omega arith) (omega arith) none_kept)
