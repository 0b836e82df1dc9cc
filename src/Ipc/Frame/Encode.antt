-- ===== src/Ipc/Frame/Encode.antt =====
-- What `FrameCodec::encode` writes and `FrameCodec::feed` reads.
use q_browser.Base.{
  ℕ, ◌+◌, ◌/◌, ◌%◌, ◌^◌, ◌≤◌, ◌<◌, false, some, List, [], ◌∷◌, ◌++◌, map, ◌≡◌, refl, ap, ◌∙◌, arith,
  length, length-append, All, take, drop,
}
use q_browser.Base.Text.{Text}
use q_browser.Ipc.Scanner.{valid, scan}
use q_browser.Ipc.Frame.{
  QtJson, object, FrameFeedResult, new_codec, payload, read_payload, read_document, decode_length,
  encode, maximum_payload_bytes, no_bytes,
}
use q_browser.Ipc.Frame.Stream.{whole, payload_of, behind_frame, complete, head, stream}
use q_browser.Ipc.Frame.Split.{stream-partial, stream-payload}
use q_browser.Ipc.Frame.Feed.{head_empty}
use q_browser.Ipc.Frame.History.{join, feed_all, frames_of, feed_chunks}

-- The four bytes of a length
abbrev size_bytes : ℕ → Text
size_bytes n = (n / 2 ^ 24 % 256) ∷ (n / 2 ^ 16 % 256) ∷ (n / 2 ^ 8 % 256) ∷ (n % 256) ∷ []

decode-size_bytes : (n : ℕ) (t : Text) → n < 2 ^ 32 → decode_length (size_bytes n ++ t) ≡ n
unfolding decode_length
decode-size_bytes n t h = omega arith

take-length : (xs ys : Text) → take (length xs) (xs ++ ys) ≡ xs
take-length [] ys = refl
take-length (x ∷ xs) ys = ap (λ zs. x ∷ zs) (take-length xs ys)

drop-length : (xs ys : Text) → drop (length xs) (xs ++ ys) ≡ ys
drop-length [] ys = refl
drop-length (x ∷ xs) ys = drop-length xs ys

drop-size_bytes : (n : ℕ) (xs ys : Text) → drop (4 + length xs) (size_bytes n ++ xs ++ ys) ≡ ys
drop-size_bytes n xs ys =
    ground (arith, drop-length (size_bytes n ++ xs) ys, length-append (size_bytes n) xs)

no_bytes-false : (t : Text) → 0 < length t → no_bytes t ≡ false
no_bytes-false [] h = absurd (omega arith)
no_bytes-false (b ∷ bs) h = refl

module _ {O : Type 0} (qt : QtJson O) where
  -- The text of an object fits into a frame, is UTF-8, passes the scanner and is read back.
  unfoldable pub Sendable : O → Type 0
  Sendable o =
      (text : Text) × (0 < length (qt.to_json o))
      × (length (qt.to_json o) ≤ maximum_payload_bytes)
      × (qt.utf8 (qt.to_json o) ≡ some text)
      × (scan qt.is_digit text ≡ some valid)
      × (qt.from_json text ≡ object o)

  encode-bytes :
      (o : O) → Sendable o → encode qt o ≡ size_bytes (length (qt.to_json o)) ++ qt.to_json o
  unfolding encode Sendable
  encode-bytes o s = let some_bytes = no_bytes-false (qt.to_json o) (omega arith) in ground arith

  encode-head : (o : O) (t : Text) → Sendable o → head (encode qt o ++ t) ≡ complete
  unfolding head Sendable
  encode-head o t s =
      let size = length (qt.to_json o) in
      let bytes = size_bytes size ++ qt.to_json o ++ t in
      let same : decode_length bytes ≡ size =
        decode-size_bytes size (qt.to_json o ++ t) (omega arith) in
      rw (encode-bytes o s) (ground (arith, length-append (qt.to_json o) t))

  encode-size :
      (o : O) (t : Text) → Sendable o → decode_length (encode qt o ++ t) ≡ length (qt.to_json o)
  unfolding Sendable
  encode-size o t s =
      rw (encode-bytes o s)
        (decode-size_bytes (length (qt.to_json o)) (qt.to_json o ++ t) (omega arith))

  encode-payload : (o : O) (t : Text) → Sendable o → payload_of (encode qt o ++ t) ≡ qt.to_json o
  encode-payload o t s = rw (encode-size o t s, encode-bytes o s) (take-length (qt.to_json o) t)

  encode-behind : (o : O) (t : Text) → Sendable o → behind_frame (encode qt o ++ t) ≡ t
  encode-behind o t s =
      rw (encode-size o t s, encode-bytes o s)
        (drop-size_bytes (length (qt.to_json o)) (qt.to_json o) t)

  encode-read : (o : O) → Sendable o → read_payload qt (qt.to_json o) ≡ payload o
  unfolding Sendable read_payload read_document
  encode-read o (text, a, b, u, v, w) = rw (read_payload, u, v, read_document, w) refl

  stream-encode :
      (os : List O) → All Sendable os → stream qt (join (map (encode qt) os)) ≡ whole os []
  unfolding join
  stream-encode [] each = stream-partial qt [] head_empty
  stream-encode (o ∷ os) (s, each) =
      let t = join (map (encode qt) os) in
      let later = stream-encode os each in
      let good : read_payload qt (payload_of (encode qt o ++ t)) ≡ payload o =
        rw (encode-payload o t s) (encode-read o s) in
      rw (stream-payload qt (encode qt o ++ t) (encode-head o t s) good, encode-behind o t s, later)
        refl

  -- The frames that `encode` makes of at most 256 objects are fed to a new codec in pieces cut
  -- anywhere: it returns the objects in their order and is as new again, if the text of each object
  -- fits into a frame, is UTF-8 that the scanner accepts, and is parsed to that object.
  pub encode-feed :
      (os : List O) (chunks : List Text)
      → All Sendable os
      → length os ≤ 256
      → join chunks ≡ join (map (encode qt) os)
      → (results : List (FrameFeedResult O)) × (feed_all qt new_codec chunks
          ≡ some (new_codec, results))
        × (frames_of results ≡ os)
  encode-feed os chunks each few same =
      feed_chunks qt [] chunks head_empty (ap (stream qt) same ∙ stream-encode os each) few
