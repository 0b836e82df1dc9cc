-- ===== src/Ipc/Frame/History.antt =====
-- Histories of calls of `FrameCodec::feed` on one codec.
use q_browser.Base.{
  suc, ◌+◌, ◌≤◌, ◌<◌, true, Option, none, some, List, [], ◌∷◌, ◌++◌, ◌≡◌, ◌≢◌, ◌⊎◌, inl, inr, refl,
  sym, ap, ◌∙◌, arith, length, length-append,
}
use mathlib.Core.List.{append_assoc, append-nil}
use q_browser.Base.Text.{Text}
use q_browser.Ipc.Frame.{
  QtJson, FrameError, no_error, queue_limit_exceeded, FrameFeedResult, FrameCodec, is_failed, fails,
  feed_loop, feed, code_of, failed, feed_end, fail, maximum_queued_bytes, status_of,
}
use q_browser.Ipc.Frame.Stream.{whole, broken, partial, head, stream}
use q_browser.Ipc.Frame.Split.{stream-partial, stream-rest, stream-append, stream-append_broken}
use q_browser.Ipc.Frame.Feed.{feed_loop-whole, feed_loop-limited, feed_loop-broken, feed_loop-ends}

-- The pieces of a stream in a row
unfoldable pub join : List Text → Text
join [] = []
join (b ∷ bs) = b ++ join bs

-- The codec with some bytes in the queue and no error
abbrev pub queues : Text → FrameCodec
queues q = record { queued = q; error = no_error; error_code = [] }

-- The codec behind `fail`
abbrev pub failed_with : FrameError → FrameCodec
failed_with e = record { queued = []; error = e; error_code = code_of e }

-- The result of a call in front of those of the later ones
abbrev put_result :
    {O : Type 0}
    → FrameFeedResult O
    → Option (FrameCodec × List (FrameFeedResult O))
    → Option (FrameCodec × List (FrameFeedResult O))
put_result r none = none
put_result r (some (last, rs)) = some (last, r ∷ rs)

module _ {O : Type 0} (qt : QtJson O) where
  -- One call per piece: the last codec and the results of the calls
  unfoldable pub feed_all : FrameCodec → List Text → Option (FrameCodec × List (FrameFeedResult O))
  feed_all c [] = some (c, [])
  feed_all c (b ∷ bs) = elim (feed qt c b) [
    | none ↦ none
    | some (next, result) ↦ put_result result (feed_all next bs)
  ]

-- The frames of all the results
unfoldable pub frames_of : {O : Type 0} → List (FrameFeedResult O) → List O
frames_of [] = []
frames_of (r ∷ rs) = r.frames ++ frames_of rs

partial-length : (q : Text) → head q ≡ partial → length q < maximum_queued_bytes
unfolding head
partial-length q h = ground arith

module _ {O : Type 0} (qt : QtJson O) where
  feed-queues :
      (q b : Text)
      → feed qt (queues q) b ≡ feed_end (feed_loop qt (suc (length q + length b)) q b [])
  unfolding feed
  feed-queues q b = refl

  feed-whole :
      (q b : Text) {fs : List O} {r : Text}
      → head q ≡ partial
      → stream qt (q ++ b) ≡ whole fs r
      → length fs ≤ 256
      → feed qt (queues q) b
        ≡ some (
          queues r,
          record { status = status_of fs; frames = fs; error = no_error; error_code = [] },
        )
  feed-whole q b e s l =
      feed-queues q b
      ∙ ap feed_end (
          feed_loop-whole qt (suc (length q + length b)) q b [] e s (omega arith)
            (omega (arith, length-append q b)))

  feed_all-step :
      (c : FrameCodec) (b : Text) (bs : List Text) {next last : FrameCodec} {r : FrameFeedResult O}
      {rs : List (FrameFeedResult O)}
      → feed qt c b ≡ some (next, r)
      → feed_all qt next bs ≡ some (last, rs)
      → feed_all qt c (b ∷ bs) ≡ some (last, r ∷ rs)
  unfolding feed_all
  feed_all-step c b bs e f = rw (feed_all, e, f) refl

  -- Feeding a stream in pieces, cut anywhere, has the frames and leaves the bytes that the stream
  -- has as a whole, if it has no bad frame and at most 256 frames, and the bytes queued before are
  -- no frame.
  pub feed_chunks :
      (q : Text) (chunks : List Text) {fs : List O} {r : Text}
      → head q ≡ partial
      → stream qt (q ++ join chunks) ≡ whole fs r
      → length fs ≤ 256
      → (results : List (FrameFeedResult O)) × (feed_all qt (queues q) chunks
          ≡ some (queues r, results))
        × (frames_of results ≡ fs)
  unfolding feed_all frames_of join
  feed_chunks q [] {fs} {r} e s l =
      let s' : stream qt q ≡ whole fs r = rw (append-nil q) at s in
      ([], ground (arith, stream-partial qt q e), ground (arith, stream-partial qt q e))
  feed_chunks q (b ∷ bs) {fs} {r} e s l =
      let s' : stream qt ((q ++ b) ++ join bs) ≡ whole fs r = rw (append_assoc q b (join bs)) s in
      let (first, kept, second, s₁, s₂, cut) =
        stream-append qt (suc (length (q ++ b))) (q ++ b) (join bs) (omega arith) s' in
      let count = ap length cut in
      let first_few : length first ≤ 256 = omega (arith, length-append first second) in
      let second_few : length second ≤ 256 = omega (arith, length-append first second) in
      let part = stream-rest qt (suc (length (q ++ b))) (q ++ b) (omega arith) s₁ in
      let (results, run, frames) = feed_chunks kept bs part s₂ second_few in
      (
        record { status = status_of first; frames = first; error = no_error; error_code = [] }
            ∷ results,
        feed_all-step (queues q) b bs (feed-whole q b e s₁ first_few) run,
        ap (λ os. first ++ os) frames ∙ sym cut,
      )

  feed-fails :
      (q b : Text) {x : FrameError}
      → feed_loop qt (suc (length q + length b)) q b [] ≡ fails x
      → feed qt (queues q) b ≡ some (fail x)
  feed-fails q b h = feed-queues q b ∙ ap feed_end h

  -- A codec that failed keeps its error, and has no frames more.
  feed_all-failed :
      (x : FrameError) (chunks : List Text)
      → x ≢ no_error
      → (results : List (FrameFeedResult O)) × (feed_all qt (failed_with x) chunks
          ≡ some (failed_with x, results))
        × (frames_of results ≡ [])
  unfolding feed_all frames_of feed
  feed_all-failed x [] e = ([], refl, refl)
  feed_all-failed x (b ∷ bs) e =
      let (results, run, frames) = feed_all-failed x bs e in
      let bad : is_failed (failed_with x) ≡ true = ground arith in
      (
        record { status = failed; frames = []; error = x; error_code = code_of x } ∷ results,
        ground arith,
        frames,
      )

  loop_fuel : (q b : Text) → length (q ++ b) < suc (length q + length b)
  loop_fuel q b = omega (arith, length-append q b)

  -- Every call of `feed` returns, with enough fuel for any pieces, and fewer than
  -- `maximum_queued_bytes` bytes are queued behind the last one, if the bytes queued before are no
  -- frame.
  pub feed_all-total :
      (q : Text) (chunks : List Text)
      → head q ≡ partial
      → (last : FrameCodec) × (results : List (FrameFeedResult O)) × (feed_all qt (queues q) chunks
          ≡ some (last, results))
        × (length last.queued < maximum_queued_bytes)
  unfolding feed_all
  feed_all-total q [] e = (queues q, [], refl, partial-length q e)
  feed_all-total q (b ∷ bs) e =
      elim (feed_loop-ends qt (suc (length q + length b)) q b [] e (loop_fuel q b)) [
        | inl (r, fs, h, e') ↦
            let (last, results, run, bound) = feed_all-total r bs e' in
            (
              last,
              record { status = status_of fs; frames = fs; error = no_error; error_code = [] }
                  ∷ results,
              feed_all-step (queues q) b bs (feed-queues q b ∙ ap feed_end h) run,
              bound,
            )
        | inr (x, h, known) ↦
            let (results, run, frames) = feed_all-failed x bs known in
            (
              failed_with x,
              record { status = failed; frames = []; error = x; error_code = code_of x } ∷ results,
              feed_all-step (queues q) b bs (feed-fails q b h) run,
              ground arith,
            )
      ]

  fails-error :
      (q b : Text) {x : FrameError}
      → head q ≡ partial
      → feed_loop qt (suc (length q + length b)) q b [] ≡ fails x
      → x ≢ no_error
  fails-error q b {x} e h =
      ground (arith, feed_loop-ends qt (suc (length q + length b)) q b [] e (loop_fuel q b))

  fails_all :
      (q b : Text) (bs : List Text) {x : FrameError}
      → head q ≡ partial
      → feed_loop qt (suc (length q + length b)) q b [] ≡ fails x
      → (results : List (FrameFeedResult O)) × (feed_all qt (queues q) (b ∷ bs)
          ≡ some (failed_with x, results))
  fails_all q b bs {x} e h =
      let (results, run, frames) = feed_all-failed x bs (fails-error q b e h) in
      (
        record { status = failed; frames = []; error = x; error_code = code_of x } ∷ results,
        feed_all-step (queues q) b bs (feed-fails q b h) run,
      )

  -- Where a stream has a bad frame, the codec that is fed with its pieces ends in the state of
  -- failure with an empty queue and the error of that frame, or with the error that there were more
  -- frames in one call than are allowed, if the bytes queued before are no frame.
  pub feed_chunks_broken :
      (q : Text) (chunks : List Text) {x : FrameError}
      → head q ≡ partial
      → stream qt (q ++ join chunks) ≡ broken x
      → (e : FrameError) × (results : List (FrameFeedResult O)) × (feed_all qt (queues q) chunks
          ≡ some (failed_with e, results))
        × ((e ≡ x) ⊎ (e ≡ queue_limit_exceeded))
  unfolding join
  feed_chunks_broken q [] e s =
      let s' = rw (append-nil q) at s in absurd (ground (arith, stream-partial qt q e))
  feed_chunks_broken q (b ∷ bs) {x} e s =
      let s' : stream qt ((q ++ b) ++ join bs) ≡ broken x = rw (append_assoc q b (join bs)) s in
      elim (stream-append_broken qt (suc (length (q ++ b))) (q ++ b) (join bs) (omega arith) s') [
        | inl s₁ ↦
            elim (feed_loop-broken qt (suc (length q + length b)) q b [] e s₁ (loop_fuel q b)) [
              | inl h ↦ let (results, run) = fails_all q b bs e h in (x, results, run, inl refl)
              | inr h ↦
                  let (results, run) = fails_all q b bs e h in
                  (queue_limit_exceeded, results, run, inr refl)
            ]
        | inr (first, kept, s₁, s₂) ↦
            elim (feed_loop-limited qt (suc (length q + length b)) q b [] e s₁ (loop_fuel q b)) [
              | inl h ↦
                  let part = stream-rest qt (suc (length (q ++ b))) (q ++ b) (omega arith) s₁ in
                  let (y, results, run, which) = feed_chunks_broken kept bs part s₂ in
                  (
                    y,
                    record {
                      status = status_of first;
                      frames = first;
                      error = no_error;
                      error_code = [];
                    }
                        ∷ results,
                    feed_all-step (queues q) b bs (feed-queues q b ∙ ap feed_end h) run,
                    which,
                  )
              | inr (h, many) ↦
                  let (results, run) = fails_all q b bs e h in
                  (queue_limit_exceeded, results, run, inr refl)
            ]
      ]
