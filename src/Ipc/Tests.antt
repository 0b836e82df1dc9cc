-- ===== src/Ipc/Tests.antt =====
-- Concrete texts and streams. An object of `ascii_json` is its own text.
use q_browser.Base.{
  ℕ, Bool, ◌&&◌, Option, none, some, List, [], ◌∷◌, ◌++◌, map, ◌≡◌, ◌≢◌, ◌⊎◌, ◌<◌, refl, leb, arith,
  length, ◌==◌, if◌then◌else◌,
}
use q_browser.Base.Text.{Text, codes, text_eq}
use q_browser.Ipc.Scanner.{
  StrictScanResult, valid, duplicate_member, invalid, scan, parse_value, value_kind,
  skip_whitespace, after_open, after_item, parse_member, parse_string, string_loop, string_step,
  plain_step, escape_step, unicode_step, low_half, parse_hex_code_unit, hex_digit_value, has_member,
  parse_number, integer_part, skip_minus, digits, skip_digits, fraction_part, exponent_part,
  skip_sign, parse_keyword, consume_keyword,
}
use q_browser.Tabs.Title.{is_high_surrogate, is_low_surrogate}
use q_browser.Ipc.Scanner.Total.{scan-total}
use q_browser.Ipc.Frame.{
  Document, not_object, object, QtJson, FrameError, zero_length, queue_limit_exceeded,
  FrameFeedResult, FrameCodec, new_codec, encode, decode_length, read_payload, read_document,
  maximum_queued_bytes,
}
use q_browser.Ipc.Frame.Stream.{whole, broken, head, stream, stream_loop}
use q_browser.Ipc.Frame.Feed.{head_empty}
use q_browser.Ipc.Frame.History.{
  join, feed_all, frames_of, queues, failed_with, feed_chunks, feed_all-total, feed_chunks_broken,
}
use q_browser.Ipc.Frame.Encode.{Sendable, encode-feed}

abbrev is_ascii_digit : ℕ → Bool
is_ascii_digit c = leb b'0' c && leb c b'9'

abbrev scan_ascii : Text → Option StrictScanResult
scan_ascii = scan is_ascii_digit

scan_members :
    scan_ascii (codes "{\"a\": [1, -2.5e+3, \"x\\u0041\\n\"], \"b\": {\"c\": null}}") ≡ some valid
unfolding scan parse_value value_kind skip_whitespace after_open after_item parse_member
    parse_string string_loop string_step plain_step escape_step unicode_step low_half
    parse_hex_code_unit hex_digit_value is_high_surrogate is_low_surrogate has_member text_eq
    parse_number integer_part skip_minus digits skip_digits fraction_part exponent_part skip_sign
    parse_keyword consume_keyword
scan_members = refl

scan_duplicate : scan_ascii (codes "{\"a\":1,\"\\u0061\":2}") ≡ some duplicate_member
unfolding scan parse_value value_kind skip_whitespace after_open after_item parse_member
    parse_string string_loop string_step plain_step escape_step unicode_step low_half
    parse_hex_code_unit hex_digit_value is_high_surrogate is_low_surrogate has_member text_eq
    parse_number integer_part skip_minus digits skip_digits fraction_part exponent_part skip_sign
    parse_keyword consume_keyword
scan_duplicate = refl

scan_comma : scan_ascii (codes "[1,]") ≡ some invalid
unfolding scan parse_value value_kind skip_whitespace after_open after_item parse_member
    parse_string string_loop string_step plain_step escape_step unicode_step low_half
    parse_hex_code_unit hex_digit_value is_high_surrogate is_low_surrogate has_member text_eq
    parse_number integer_part skip_minus digits skip_digits fraction_part exponent_part skip_sign
    parse_keyword consume_keyword
scan_comma = refl

scan_surrogate : scan_ascii (codes "\"\\ud800\"") ≡ some invalid
unfolding scan parse_value value_kind skip_whitespace after_open after_item parse_member
    parse_string string_loop string_step plain_step escape_step unicode_step low_half
    parse_hex_code_unit hex_digit_value is_high_surrogate is_low_surrogate has_member text_eq
    parse_number integer_part skip_minus digits skip_digits fraction_part exponent_part skip_sign
    parse_keyword consume_keyword
scan_surrogate = refl

scan_pair : scan_ascii (codes " \"\\ud800\\udc00\" ") ≡ some valid
unfolding scan parse_value value_kind skip_whitespace after_open after_item parse_member
    parse_string string_loop string_step plain_step escape_step unicode_step low_half
    parse_hex_code_unit hex_digit_value is_high_surrogate is_low_surrogate has_member text_eq
    parse_number integer_part skip_minus digits skip_digits fraction_part exponent_part skip_sign
    parse_keyword consume_keyword
scan_pair = refl

scan-total_example : scan_ascii (codes "{\"a\":[") ≢ none
scan-total_example = scan-total is_ascii_digit (codes "{\"a\":[")

abbrev read_ascii : Text → Document Text
read_ascii [] = not_object
read_ascii (c ∷ rest) = if c == b'{' then object (c ∷ rest) else not_object

abbrev ascii_json : QtJson Text
ascii_json = record {
  utf8 = λ t. some t;
  from_json = read_ascii;
  to_json = λ o. o;
  is_digit = is_ascii_digit;
}

abbrev empty_object : Text
empty_object = codes "{}"

abbrev first_piece : Text
first_piece = 0 ∷ 0 ∷ []

abbrev second_piece : Text
second_piece = 0 ∷ 2 ∷ empty_object ++ 0 ∷ 0 ∷ 0 ∷ []

abbrev third_piece : Text
third_piece = 2 ∷ empty_object ++ 0 ∷ []

abbrev zero_piece : Text
zero_piece = 2 ∷ empty_object ++ 0 ∷ 0 ∷ 0 ∷ 0 ∷ []

two_frames :
    stream ascii_json (join (first_piece ∷ second_piece ∷ third_piece ∷ []))
    ≡ whole (empty_object ∷ empty_object ∷ []) (0 ∷ [])
unfolding stream stream_loop join head decode_length read_payload read_document scan parse_value
    value_kind skip_whitespace after_open
two_frames = refl

bad_second :
    stream ascii_json (join (first_piece ∷ second_piece ∷ zero_piece ∷ [])) ≡ broken zero_length
unfolding stream stream_loop join head decode_length read_payload read_document scan parse_value
    value_kind skip_whitespace after_open
bad_second = refl

feed_chunks_example :
    (results : List (FrameFeedResult Text)) × (feed_all ascii_json new_codec
        (first_piece ∷ second_piece ∷ third_piece ∷ [])
      ≡ some (queues (0 ∷ []), results))
    × (frames_of results ≡ empty_object ∷ empty_object ∷ [])
feed_chunks_example =
    feed_chunks ascii_json [] (first_piece ∷ second_piece ∷ third_piece ∷ []) head_empty two_frames
      (omega arith)

feed_all-total_example :
    (last : FrameCodec) × (results : List (FrameFeedResult Text)) × (feed_all ascii_json new_codec
        (first_piece ∷ second_piece ∷ [])
      ≡ some (last, results))
    × (length last.queued < maximum_queued_bytes)
feed_all-total_example = feed_all-total ascii_json [] (first_piece ∷ second_piece ∷ []) head_empty

feed_chunks_broken_example :
    (e : FrameError) × (results : List (FrameFeedResult Text)) × (feed_all ascii_json new_codec
        (first_piece ∷ second_piece ∷ zero_piece ∷ [])
      ≡ some (failed_with e, results))
    × ((e ≡ zero_length) ⊎ (e ≡ queue_limit_exceeded))
feed_chunks_broken_example =
    feed_chunks_broken ascii_json [] (first_piece ∷ second_piece ∷ zero_piece ∷ []) head_empty
      bad_second

empty_object-Sendable : Sendable ascii_json empty_object
unfolding Sendable scan parse_value value_kind skip_whitespace after_open
empty_object-Sendable = (empty_object, omega arith, omega arith, refl, refl, refl)

cut_frame :
    join ((0 ∷ 0 ∷ []) ∷ (0 ∷ 2 ∷ empty_object) ∷ [])
    ≡ join (map (encode ascii_json) (empty_object ∷ []))
unfolding join encode
cut_frame = refl

encode-feed_example :
    (results : List (FrameFeedResult Text)) × (feed_all ascii_json new_codec
        ((0 ∷ 0 ∷ []) ∷ (0 ∷ 2 ∷ empty_object) ∷ [])
      ≡ some (new_codec, results))
    × (frames_of results ≡ empty_object ∷ [])
encode-feed_example =
    encode-feed ascii_json (empty_object ∷ []) ((0 ∷ 0 ∷ []) ∷ (0 ∷ 2 ∷ empty_object) ∷ [])
      (empty_object-Sendable, tt) (omega arith) cut_frame
