-- ===== src/Ipc/Frame/Feed.antt =====
-- The calls of `FrameCodec::feed` on the pieces of a stream, against the stream as a whole.
use q_browser.Base.{
  ℕ, zero, suc, ◌+◌, ◌≤◌, ◌<◌, false, List, [], ◌∷◌, ◌++◌, ◌≡◌, ◌≢◌, ◌⊎◌, inl, inr, refl, ap, arith,
  leb, length, length-append, Bool-cases, Option-cases,
}
use mathlib.Core.List.{append_assoc, append-nil}
use q_browser.Base.Text.{Text}
use q_browser.Ipc.Scanner.{scan}
use q_browser.Ipc.Scanner.Total.{scan-total}
use q_browser.Ipc.Frame.{
  QtJson, FrameError, no_error, no_error, queue_limit_exceeded, bad_payload, payload_stuck,
  read_payload, read_document, Document, parse_error, not_object, object, no_bytes, fed, fails,
  feed_loop,
}
use q_browser.Ipc.Frame.Stream.{
  whole, broken, payload_of, behind_frame, partial, refused, head, stream, length-behind_frame,
}
use q_browser.Ipc.Frame.Split.{
  Head-cases, Payload-cases, stream-partial, stream-refused, stream-bad, stream_stuck, stream-tail,
  stream-tail_broken,
}
use q_browser.Ipc.Frame.Round.{round-partial, round-refused, round-complete}

no_bytes-cases : (t : Text) → (t ≡ []) ⊎ (no_bytes t ≡ false)
no_bytes-cases [] = inl refl
no_bytes-cases (b ∷ bs) = inr refl

Document-cases :
    {O : Type 0} (d : Document O)
    → (d ≡ parse_error) ⊎ (d ≡ not_object) ⊎ ((o : O) × (d ≡ object o))
Document-cases parse_error = inl refl
Document-cases not_object = inr (inl refl)
Document-cases (object o) = inr (inr (o, refl))

pub head_empty : head [] ≡ partial
unfolding head
head_empty = refl

refused-error : (t : Text) {x : FrameError} → head t ≡ refused x → x ≢ no_error
unfolding head
refused-error t {x} h = ground arith

module _ {O : Type 0} (qt : QtJson O) where
  read_document-total : (t : Text) → read_document qt t ≢ payload_stuck
  unfolding read_document
  read_document-total t h = elim (Document-cases (qt.from_json t)) [
    | inl e ↦ ground arith
    | inr (inl e) ↦ ground arith
    | inr (inr (o, e)) ↦ ground arith
  ]

  pub read_payload-total : (t : Text) → read_payload qt t ≢ payload_stuck
  unfolding read_payload
  read_payload-total t h = elim (Option-cases (qt.utf8 t)) [
    | inl e ↦ ground arith
    | inr (text, e) ↦ elim (Option-cases (scan qt.is_digit text)) [
      | inl f ↦ scan-total qt.is_digit text f
      | inr (result, f) ↦ ground (arith, read_document-total text)
    ]
  ]

  document-error : (t : Text) {x : FrameError} → read_document qt t ≡ bad_payload x → x ≢ no_error
  unfolding read_document
  document-error t {x} h = elim (Document-cases (qt.from_json t)) [
    | inl e ↦ ground arith
    | inr (inl e) ↦ ground arith
    | inr (inr (o, e)) ↦ absurd (ground arith)
  ]

  payload-error : (t : Text) {x : FrameError} → read_payload qt t ≡ bad_payload x → x ≢ no_error
  unfolding read_payload
  payload-error t {x} h = elim (Option-cases (qt.utf8 t)) [
    | inl e ↦ ground arith
    | inr (text, e) ↦ elim (Option-cases (scan qt.is_digit text)) [
      | inl f ↦ absurd (scan-total qt.is_digit text f)
      | inr (result, f) ↦ ground (arith, document-error text {x = x})
    ]
  ]

  -- The loop has the frames of the stream, unless there are too many.
  pub feed_loop-limited :
      (f : ℕ) (q b : Text) (os : List O) {fs : List O} {r : Text}
      → head q ≡ partial
      → stream qt (q ++ b) ≡ whole fs r
      → length (q ++ b) < f
      → (feed_loop qt f q b os ≡ fed r (os ++ fs))
        ⊎ ((feed_loop qt f q b os ≡ fails queue_limit_exceeded) × (256 < length os + length fs))
  feed_loop-limited zero q b os e s n = absurd (omega arith)
  feed_loop-limited (suc f) q b os {fs} {r} e s n = elim (Head-cases (head (q ++ b))) [
    | inl h ↦
        inl
          (ground (arith, stream-partial qt (q ++ b) h, round-partial qt f q b os h, append-nil os))
    | inr (inl (x, h)) ↦ absurd (ground (arith, stream-refused qt (q ++ b) h))
    | inr (inr h) ↦
        let round = round-complete qt f q b os e h in
        let less = length-behind_frame (q ++ b) h in
        elim (Payload-cases (read_payload qt (payload_of (q ++ b)))) [
          | inl (o, p) ↦
              let (rest, x, g) = stream-tail qt (q ++ b) h p s in
              let count = ap length x in
              elim (Bool-cases (leb 256 (length os))) [
                | inl over ↦ inr (ground arith, ground arith)
                | inr under ↦ elim (no_bytes-cases (behind_frame (q ++ b))) [
                  | inl z ↦
                      let g' : stream qt [] ≡ whole rest r = rw z at g in
                      inl (ground (arith, stream-partial qt [] head_empty))
                  | inr z ↦
                      elim (feed_loop-limited f [] (behind_frame (q ++ b)) (os ++ o ∷ []) head_empty
                        g (omega arith)) [
                          | inl later ↦ inl (ground (arith, append_assoc os (o ∷ []) rest))
                          | inr (later, many) ↦
                              inr (ground arith, ground (arith, length-append os (o ∷ [])))
                        ]
                ]
              ]
          | inr (inl (x, p)) ↦ absurd (ground (arith, stream-bad qt (q ++ b) h p))
          | inr (inr p) ↦ absurd (ground (arith, stream_stuck qt (q ++ b) h p))
        ]
  ]

  pub feed_loop-whole :
      (f : ℕ) (q b : Text) (os : List O) {fs : List O} {r : Text}
      → head q ≡ partial
      → stream qt (q ++ b) ≡ whole fs r
      → length os + length fs ≤ 256
      → length (q ++ b) < f
      → feed_loop qt f q b os ≡ fed r (os ++ fs)
  feed_loop-whole f q b os e s l n = elim (feed_loop-limited f q b os e s n) [
    | inl h ↦ h
    | inr (h, many) ↦ absurd (omega arith)
  ]

  -- A stream with a bad frame: the loop fails, with the error of that frame unless there are too
  -- many in front of it.
  pub feed_loop-broken :
      (f : ℕ) (q b : Text) (os : List O) {x : FrameError}
      → head q ≡ partial
      → stream qt (q ++ b) ≡ broken x
      → length (q ++ b) < f
      → (feed_loop qt f q b os ≡ fails x) ⊎ (feed_loop qt f q b os ≡ fails queue_limit_exceeded)
  feed_loop-broken zero q b os e s n = absurd (omega arith)
  feed_loop-broken (suc f) q b os {x} e s n = elim (Head-cases (head (q ++ b))) [
    | inl h ↦ absurd (ground (arith, stream-partial qt (q ++ b) h))
    | inr (inl (y, h)) ↦
        inl (ground (arith, stream-refused qt (q ++ b) h, round-refused qt f q b os h))
    | inr (inr h) ↦
        let round = round-complete qt f q b os e h in
        let less = length-behind_frame (q ++ b) h in
        elim (Bool-cases (leb 256 (length os))) [
          | inl over ↦ inr (ground arith)
          | inr under ↦ elim (Payload-cases (read_payload qt (payload_of (q ++ b)))) [
            | inl (o, p) ↦
                let more = stream-tail_broken qt (q ++ b) h p s in
                elim (no_bytes-cases (behind_frame (q ++ b))) [
                  | inl z ↦
                      let more' : stream qt [] ≡ broken x = rw z at more in
                      absurd (ground (arith, stream-partial qt [] head_empty))
                  | inr z ↦
                      elim (feed_loop-broken f [] (behind_frame (q ++ b)) (os ++ o ∷ []) head_empty
                        more (omega arith)) [
                          | inl later ↦ inl (ground arith)
                          | inr later ↦ inr (ground arith)
                        ]
                ]
            | inr (inl (y, p)) ↦ inl (ground (arith, stream-bad qt (q ++ b) h p))
            | inr (inr p) ↦ absurd (ground (arith, stream_stuck qt (q ++ b) h p))
          ]
        ]
  ]

  -- The loop ends, with an error or with queued bytes that are no frame.
  pub feed_loop-ends :
      (f : ℕ) (q b : Text) (os : List O)
      → head q ≡ partial
      → length (q ++ b) < f
      → ((r : Text) × (fs : List O) × (feed_loop qt f q b os ≡ fed r fs) × (head r ≡ partial))
        ⊎ ((x : FrameError) × (feed_loop qt f q b os ≡ fails x) × (x ≢ no_error))
  feed_loop-ends zero q b os e n = absurd (omega arith)
  feed_loop-ends (suc f) q b os e n = elim (Head-cases (head (q ++ b))) [
    | inl h ↦ inl (q ++ b, os, round-partial qt f q b os h, h)
    | inr (inl (y, h)) ↦ inr (y, round-refused qt f q b os h, refused-error (q ++ b) h)
    | inr (inr h) ↦
        let round = round-complete qt f q b os e h in
        let less = length-behind_frame (q ++ b) h in
        elim (Bool-cases (leb 256 (length os))) [
          | inl over ↦ inr (queue_limit_exceeded, ground arith, ground arith)
          | inr under ↦ elim (Payload-cases (read_payload qt (payload_of (q ++ b)))) [
            | inl (o, p) ↦ elim (no_bytes-cases (behind_frame (q ++ b))) [
              | inl z ↦ inl ([], os ++ o ∷ [], ground arith, head_empty)
              | inr z ↦
                  elim (feed_loop-ends f [] (behind_frame (q ++ b)) (os ++ o ∷ []) head_empty
                    (omega arith)) [
                      | inl (r, fs, later, g) ↦ inl (r, fs, ground arith, g)
                      | inr (x, later, known) ↦ inr (x, ground arith, known)
                    ]
            ]
            | inr (inl (y, p)) ↦ inr (y, ground arith, payload-error (payload_of (q ++ b)) p)
            | inr (inr p) ↦ absurd (read_payload-total (payload_of (q ++ b)) p)
          ]
        ]
  ]
