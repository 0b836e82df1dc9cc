-- ===== src/Ipc/Frame.antt =====
-- Frames of a byte stream: runtime/ipc/FrameCodec.h and .cpp.
--
-- A frame is the length of its payload in four bytes, the highest first, and the payload, a JSON
-- object in UTF-8. What the codec needs of Qt is the record `QtJson`.
pub mod Stream
pub mod Split
pub mod Round
pub mod Feed
pub mod History
pub mod Encode
use q_browser.Base.{
  ℕ, zero, suc, ◌+◌, ◌-◌, ◌*◌, ◌/◌, ◌%◌, ◌^◌, Bool, true, false, ◌&&◌, ◌||◌, Option, none, some,
  List, [], ◌∷◌, ◌++◌, ltb, leb, ◌==◌, if◌then◌else◌, length, take, drop,
}
use q_browser.Base.Text.{Text, codes}
use q_browser.Ipc.Scanner.{StrictScanResult, valid, duplicate_member, resource_limit, invalid, scan}

-- What `QJsonDocument::fromJson` makes of a text
pub data Document (O : Type 0) : Type 0 where
  parse_error not_object : Document O
  object : O → Document O

-- `QStringDecoder` for UTF-8 (`none` for an error), `QJsonDocument::fromJson` of the text, `toJson`
-- in the compact form, and `QChar::isDigit`
pub record QtJson (O : Type 0) : Type 0 where
  pub utf8 : Text → Option Text
  pub from_json : Text → Document O
  pub to_json : O → Text
  pub is_digit : ℕ → Bool

pub data FrameStatus : Type 0 where
  need_more_data frames_ready failed : FrameStatus

pub data FrameError : Type 0 where
  no_error zero_length payload_too_large queue_limit_exceeded invalid_utf8 invalid_json
        root_not_object duplicate_json_member json_resource_limit :
      FrameError

-- Each error has one code, with which `fail` is called.
unfoldable pub code_of : FrameError → Text
code_of no_error = []
code_of zero_length = codes "ipc.frame.zero_length"
code_of payload_too_large = codes "ipc.frame.payload_too_large"
code_of queue_limit_exceeded = codes "ipc.frame.queue_limit"
code_of invalid_utf8 = codes "ipc.frame.invalid_utf8"
code_of duplicate_json_member = codes "ipc.frame.duplicate_member"
code_of json_resource_limit = codes "ipc.frame.json_resource_limit"
code_of invalid_json = codes "ipc.frame.invalid_json"
code_of root_not_object = codes "ipc.frame.root_not_object"

pub record FrameFeedResult (O : Type 0) : Type 0 where
  pub status : FrameStatus
  pub frames : List O
  pub error : FrameError
  pub error_code : Text

pub record FrameCodec : Type 0 where
  pub queued : Text
  pub error : FrameError
  pub error_code : Text

abbrev pub maximum_payload_bytes : ℕ
maximum_payload_bytes = 1048576

abbrev pub maximum_queued_bytes : ℕ
maximum_queued_bytes = maximum_payload_bytes + 4

abbrev pub maximum_frames_per_feed : ℕ
maximum_frames_per_feed = 256

abbrev pub new_codec : FrameCodec
new_codec = record { queued = []; error = no_error; error_code = [] }

abbrev pub is_failed : FrameCodec → Bool
is_failed c = elim c.error [ no_error ↦ false | _ ↦ true ]

-- The first four bytes; a shorter text has no length.
unfoldable pub decode_length : Text → ℕ
decode_length (a ∷ b ∷ c ∷ d ∷ rest) = a * 2 ^ 24 + b * 2 ^ 16 + c * 2 ^ 8 + d
decode_length _ = 0

abbrev pub no_bytes : Text → Bool
no_bytes [] = true
no_bytes (b ∷ bs) = false

-- How the loop of `feed` ends: with the bytes queued and the frames, or by a call of `fail`;
-- `stuck` is the lack of fuel.
pub data FeedEnd (O : Type 0) : Type 0 where
  fed : Text → List O → FeedEnd O
  fails : FrameError → FeedEnd O
  stuck : FeedEnd O

pub data Payload (O : Type 0) : Type 0 where
  payload : O → Payload O
  bad_payload : FrameError → Payload O
  payload_stuck : Payload O

abbrev pub status_of : {O : Type 0} → List O → FrameStatus
status_of [] = need_more_data
status_of (o ∷ os) = frames_ready

-- `fail` empties the queue.
abbrev pub fail : {O : Type 0} → FrameError → FrameCodec × FrameFeedResult O
fail e = (
  record { queued = []; error = e; error_code = code_of e },
  record { status = failed; frames = []; error = e; error_code = code_of e },
)

abbrev pub feed_end : {O : Type 0} → FeedEnd O → Option (FrameCodec × FrameFeedResult O)
feed_end stuck = none
feed_end (fails e) = some (fail e)
feed_end (fed queued frames) = some (
  record { queued = queued; error = no_error; error_code = [] },
  record { status = status_of frames; frames = frames; error = no_error; error_code = [] },
)

module _ {O : Type 0} (qt : QtJson O) where
  unfoldable pub encode : O → Text
  encode o =
      let bytes = qt.to_json o in
      let size = length bytes in
      if no_bytes bytes || ltb maximum_payload_bytes size
      then []
      else (size / 2 ^ 24 % 256)
        ∷ (size / 2 ^ 16 % 256)
        ∷ (size / 2 ^ 8 % 256)
        ∷ (size % 256)
        ∷ bytes

  -- The checks of a complete payload
  unfoldable pub read_document : Text → Payload O
  read_document text = elim (qt.from_json text) [
    | parse_error ↦ bad_payload invalid_json
    | not_object ↦ bad_payload root_not_object
    | object o ↦ payload o
  ]

  unfoldable pub read_payload : Text → Payload O
  read_payload bytes = elim (qt.utf8 bytes) [
    | none ↦ bad_payload invalid_utf8
    | some text ↦ elim (scan qt.is_digit text) [
      | none ↦ payload_stuck
      | some duplicate_member ↦ bad_payload duplicate_json_member
      | some resource_limit ↦ bad_payload json_resource_limit
      | some invalid ↦ bad_payload invalid_json
      | some valid ↦ read_document text
    ]
  ]

  -- The loop of `feed` on the bytes not read so far, with the bytes queued and the frames. Both
  -- `append` calls take as many bytes as are missing, or all there are.
  unfoldable pub feed_loop : ℕ → Text → Text → List O → FeedEnd O
  feed_loop zero queued bytes frames = stuck
  feed_loop (suc fuel) queued bytes frames =
      let missing = 4 - length queued in
      let header = queued ++ take missing bytes in
      let behind = drop missing bytes in
      let size = decode_length header in
      let missing' = 4 + size - length header in
      let frame = header ++ take missing' behind in
      let rest = drop missing' behind in
      if ltb (length header) 4
      then fed header frames
      else if size == 0
      then fails zero_length
      else if ltb maximum_payload_bytes size
      then fails payload_too_large
      else if ltb (length frame) (4 + size)
      then fed frame frames
      else if leb maximum_frames_per_feed (length frames)
      then fails queue_limit_exceeded
      else elim (read_payload (take size (drop 4 frame))) [
        | bad_payload e ↦ fails e
        | payload_stuck ↦ stuck
        | payload o ↦
            let kept = drop (4 + size) frame in
            elim (no_bytes rest && no_bytes kept) [
              | true ↦ fed kept (frames ++ o ∷ [])
              | false ↦ feed_loop fuel kept rest (frames ++ o ∷ [])
            ]
      ]

  -- `none` where the fuel ran out. Each round but the last takes a frame of five bytes at least.
  unfoldable pub feed : FrameCodec → Text → Option (FrameCodec × FrameFeedResult O)
  feed c bytes =
      if is_failed c
      then some
          (c, record { status = failed; frames = []; error = c.error; error_code = c.error_code })
      else feed_end (feed_loop (suc (length c.queued + length bytes)) c.queued bytes [])
