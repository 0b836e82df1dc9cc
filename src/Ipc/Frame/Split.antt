-- ===== src/Ipc/Frame/Split.antt =====
-- A byte stream may be cut anywhere: its pieces have the same frames.
use q_browser.Base.{ℕ, zero, suc, ◌<◌, List, [], ◌∷◌, ◌++◌, ◌≡◌, ◌⊎◌, inl, inr, refl, arith, length}
use q_browser.Base.Text.{Text}
use q_browser.Ipc.Frame.{
  QtJson, FrameError, Payload, payload, bad_payload, payload_stuck, read_payload,
}
use q_browser.Ipc.Frame.Stream.{
  Stream, whole, broken, unfinished, cons_frame, payload_of, behind_frame, Head, partial, complete,
  refused, head, stream_loop, stream, head-append, payload_of-append, behind_frame-append,
  length-behind_frame,
}

pub Head-cases : (h : Head) → (h ≡ partial) ⊎ ((e : FrameError) × (h ≡ refused e)) ⊎ (h ≡ complete)
Head-cases partial = inl refl
Head-cases (refused e) = inr (inl (e, refl))
Head-cases complete = inr (inr refl)

pub Payload-cases :
    {O : Type 0} (p : Payload O)
    → ((o : O) × (p ≡ payload o)) ⊎ ((e : FrameError) × (p ≡ bad_payload e)) ⊎ (p ≡ payload_stuck)
Payload-cases (payload o) = inl (o, refl)
Payload-cases (bad_payload e) = inr (inl (e, refl))
Payload-cases payload_stuck = inr (inr refl)

pub Stream-cases :
    {O : Type 0} (s : Stream O)
    → ((os : List O) × (r : Text) × (s ≡ whole os r))
      ⊎ ((e : FrameError) × (s ≡ broken e))
      ⊎ (s ≡ unfinished)
Stream-cases (whole os r) = inl (os, r, refl)
Stream-cases (broken e) = inr (inl (e, refl))
Stream-cases unfinished = inr (inr refl)

module _ {O : Type 0} (qt : QtJson O) where
  fuel_indifferent :
      (f g : ℕ) (t : Text) → length t < f → length t < g → stream_loop qt f t ≡ stream_loop qt g t
  unfolding stream_loop
  fuel_indifferent zero g t h k = absurd (omega arith)
  fuel_indifferent (suc f) zero t h k = absurd (omega arith)
  fuel_indifferent (suc f) (suc g) t h k = elim (Head-cases (head t)) [
    | inl e ↦ ground arith
    | inr (inl (x, e)) ↦ ground arith
    | inr (inr e) ↦
        let less = length-behind_frame t e in
        let same = fuel_indifferent f g (behind_frame t) (omega arith) (omega arith) in
        elim (Payload-cases (read_payload qt (payload_of t))) [
          | inl (o, p) ↦ ground arith
          | inr (inl (x, p)) ↦ ground arith
          | inr (inr p) ↦ ground arith
        ]
  ]

  pub stream-partial : (t : Text) → head t ≡ partial → stream qt t ≡ whole [] t
  unfolding stream stream_loop
  stream-partial t e = ground arith

  pub stream-refused : (t : Text) {x : FrameError} → head t ≡ refused x → stream qt t ≡ broken x
  unfolding stream stream_loop
  stream-refused t e = ground arith

  pub stream-payload :
      (t : Text) {o : O}
      → head t ≡ complete
      → read_payload qt (payload_of t) ≡ payload o
      → stream qt t ≡ cons_frame o (stream qt (behind_frame t))
  unfolding stream stream_loop
  stream-payload t e p =
      let less = length-behind_frame t e in
      let same =
        fuel_indifferent (length t) (suc (length (behind_frame t))) (behind_frame t) (omega arith)
          (omega arith) in
      ground arith

  pub stream-bad :
      (t : Text) {x : FrameError}
      → head t ≡ complete
      → read_payload qt (payload_of t) ≡ bad_payload x
      → stream qt t ≡ broken x
  unfolding stream stream_loop
  stream-bad t e p = ground arith

  pub stream_stuck :
      (t : Text)
      → head t ≡ complete
      → read_payload qt (payload_of t) ≡ payload_stuck
      → stream qt t ≡ unfinished
  unfolding stream stream_loop
  stream_stuck t e p = ground arith

  -- Where the first frame of a stream is good, so is the rest.
  pub stream-tail :
      (t : Text) {o : O} {os : List O} {r : Text}
      → head t ≡ complete
      → read_payload qt (payload_of t) ≡ payload o
      → stream qt t ≡ whole os r
      → (rest : List O) × (os ≡ o ∷ rest) × (stream qt (behind_frame t) ≡ whole rest r)
  stream-tail t {o} {os} {r} e p h =
      let step = stream-payload t e p in
      elim (Stream-cases (stream qt (behind_frame t))) [
        | inl (rest, r', g) ↦ (rest, ground arith, ground arith)
        | inr (inl (x, g)) ↦ absurd (ground arith)
        | inr (inr g) ↦ absurd (ground arith)
      ]

  -- What is left behind the last frame is no frame.
  pub stream-rest :
      (n : ℕ) (t : Text) {os : List O} {r : Text}
      → length t < n
      → stream qt t ≡ whole os r
      → head r ≡ partial
  stream-rest zero t b h = absurd (omega arith)
  stream-rest (suc n) t {os} {r} b h = elim (Head-cases (head t)) [
    | inl e ↦ ground (arith, stream-partial t e)
    | inr (inl (x, e)) ↦ absurd (ground (arith, stream-refused t e))
    | inr (inr e) ↦ elim (Payload-cases (read_payload qt (payload_of t))) [
      | inl (o, p) ↦
          let less = length-behind_frame t e in
          let (rest, _, g) = stream-tail t e p h in stream-rest n (behind_frame t) (omega arith) g
      | inr (inl (x, p)) ↦ absurd (ground (arith, stream-bad t e p))
      | inr (inr p) ↦ absurd (ground (arith, stream_stuck t e p))
    ]
  ]

  pub stream-append :
      (n : ℕ) (a b : Text) {os : List O} {r : Text}
      → length a < n
      → stream qt (a ++ b) ≡ whole os r
      → (first : List O) × (kept : Text) × (second : List O) × (stream qt a ≡ whole first kept)
        × (stream qt (kept ++ b) ≡ whole second r)
        × (os ≡ first ++ second)
  stream-append zero a b h s = absurd (omega arith)
  stream-append (suc n) a b {os} {r} h s = elim (Head-cases (head a)) [
    | inl e ↦ ([], a, os, stream-partial a e, s, refl)
    | inr (inl (x, e)) ↦ absurd (ground (arith, head-append a b, stream-refused (a ++ b) {x = x}))
    | inr (inr e) ↦
        let e' : head (a ++ b) ≡ complete = ground (arith, head-append a b) in
        let less = length-behind_frame a e in
        let same = payload_of-append a b e in
        elim (Payload-cases (read_payload qt (payload_of a))) [
          | inl (o, p) ↦
              let p' : read_payload qt (payload_of (a ++ b)) ≡ payload o = rw same p in
              let (rest, f, g) = stream-tail (a ++ b) e' p' s in
              let (first, kept, second, s₁, s₂, j) =
                stream-append n (behind_frame a) b (omega arith)
                  (rw (behind_frame-append a b e) at g) in
              (o ∷ first, kept, second, ground (arith, stream-payload a e p), s₂, ground arith)
          | inr (inl (x, p)) ↦ absurd (ground (arith, stream-bad (a ++ b) {x = x}))
          | inr (inr p) ↦ absurd (ground (arith, stream_stuck (a ++ b)))
        ]
  ]

  pub stream-tail_broken :
      (t : Text) {o : O} {x : FrameError}
      → head t ≡ complete
      → read_payload qt (payload_of t) ≡ payload o
      → stream qt t ≡ broken x
      → stream qt (behind_frame t) ≡ broken x
  stream-tail_broken t {o} {x} e p h =
      let step = stream-payload t e p in
      elim (Stream-cases (stream qt (behind_frame t))) [
        | inl (rest, r', g) ↦ absurd (ground arith)
        | inr (inl (y, g)) ↦ ground arith
        | inr (inr g) ↦ absurd (ground arith)
      ]

  -- The bad frame of a stream is in its first piece or behind it.
  pub stream-append_broken :
      (n : ℕ) (a b : Text) {x : FrameError}
      → length a < n
      → stream qt (a ++ b) ≡ broken x
      → (stream qt a ≡ broken x)
        ⊎ ((first : List O) × (kept : Text) × (stream qt a ≡ whole first kept)
            × (stream qt (kept ++ b) ≡ broken x))
  stream-append_broken zero a b h s = absurd (omega arith)
  stream-append_broken (suc n) a b {x} h s = elim (Head-cases (head a)) [
    | inl e ↦ inr ([], a, stream-partial a e, s)
    | inr (inl (y, e)) ↦
        let e' : head (a ++ b) ≡ refused y = ground (arith, head-append a b) in
        inl (ground (arith, stream-refused a e, stream-refused (a ++ b) e'))
    | inr (inr e) ↦
        let e' : head (a ++ b) ≡ complete = ground (arith, head-append a b) in
        let less = length-behind_frame a e in
        let same = payload_of-append a b e in
        elim (Payload-cases (read_payload qt (payload_of a))) [
          | inl (o, p) ↦
              let p' : read_payload qt (payload_of (a ++ b)) ≡ payload o = rw same p in
              let g = stream-tail_broken (a ++ b) e' p' s in
              let step = stream-payload a e p in
              elim (stream-append_broken n (behind_frame a) b {x = x} (omega arith)
                (rw (behind_frame-append a b e) at g)) [
                  | inl s₁ ↦ inl (ground arith)
                  | inr (first, kept, s₁, s₂) ↦ inr (o ∷ first, kept, ground arith, s₂)
                ]
          | inr (inl (y, p)) ↦
              let p' : read_payload qt (payload_of (a ++ b)) ≡ bad_payload y = rw same p in
              inl (ground (arith, stream-bad a e p, stream-bad (a ++ b) e' p'))
          | inr (inr p) ↦
              let p' : read_payload qt (payload_of (a ++ b)) ≡ payload_stuck = rw same p in
              absurd (ground (arith, stream_stuck (a ++ b) e' p'))
        ]
  ]
