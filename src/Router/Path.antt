-- ===== src/Router/Path.antt =====
-- Canonical paths: runtime/router/NormalizedPath.h and .cpp.
--
-- Two tables of Qt are arguments: `is_control`, the control characters, and `utf8`, what the UTF-8
-- decoder makes of bytes, `none` where it reports an error.
pub mod Safe
pub mod Encode
use q_browser.Base.{
  ℕ, suc, ◌+◌, ◌-◌, ◌*◌, Bool, true, false, not, ◌&&◌, ◌||◌, Option, none, some, List, [], ◌∷◌,
  ◌++◌, ltb, leb, ◌==◌, if◌then◌else◌, length,
}
use q_browser.Base.Text.{Text, text_eq}

pub data NormalizedPathError : Type 0 where
  no_error not_absolute malformed_percent_encoding non_canonical_encoding invalid_utf8
        control_character path_traversal decoded_separator duplicate_slash trailing_slash :
      NormalizedPathError

pub record NormalizedPath : Type 0 where
  pub error : NormalizedPathError
  pub encoded : Text
  pub decoded_segments : List Text

abbrev pub is_valid : NormalizedPath → Bool
is_valid p = elim p.error [ no_error ↦ true | _ ↦ false ]

abbrev pub failed : NormalizedPathError → NormalizedPath
failed e = record { error = e; encoded = []; decoded_segments = [] }

unfoldable pub hex_value : ℕ → Option ℕ
hex_value c =
    if leb b'0' c && leb c b'9'
    then some (c - b'0')
    else if leb b'A' c && leb c b'F'
    then some (c - b'A' + 10)
    else if leb b'a' c && leb c b'f'
    then some (c - b'a' + 10)
    else none

unfoldable pub is_unreserved_ascii : ℕ → Bool
is_unreserved_ascii v =
    (leb b'A' v && leb v b'Z')
    || (leb b'a' v && leb v b'z')
    || (leb b'0' v && leb v b'9')
    || v == b'-'
    || v == b'.'
    || v == b'_'
    || v == b'~'

-- `QString::contains` of one code unit
unfoldable pub contains : ℕ → Text → Bool
contains c [] = false
contains c (x ∷ xs) = x == c || contains c xs

-- The code units of the `switch`: ! $ & ' ( ) * + , ; =
abbrev pub sub_delimiters : Text
sub_delimiters = 0x21 ∷ 0x24 ∷ 0x26 ∷ 0x27 ∷ 0x28 ∷ 0x29 ∷ 0x2a ∷ 0x2b ∷ 0x2c ∷ 0x3b ∷ 0x3d ∷ []

unfoldable pub is_allowed_literal_path_character : ℕ → Bool
is_allowed_literal_path_character c =
    if ltb 0x7f c
    then false
    else if is_unreserved_ascii c || c == b':' || c == b'@'
    then true
    else contains c sub_delimiters

-- What the loop of `decodeSegment` ends with: an error, or the bytes and `hasNonCanonicalEscape`
pub data Scanned : Type 0 where
  rejected : NormalizedPathError → Scanned
  scanned : Text → Bool → Scanned

-- One round of the loop before those behind it
abbrev pub scanned_before : ℕ → Bool → Scanned → Scanned
scanned_before byte escape (rejected e) = rejected e
scanned_before byte escape (scanned bytes later) = scanned (byte ∷ bytes) (escape || later)

abbrev pub is_lower_hex : ℕ → Bool
is_lower_hex c = leb b'a' c && leb c b'f'

-- The round for an escape with its two digits, `rest` being the later rounds
unfoldable pub scan_escape : ℕ → ℕ → Scanned → Scanned
scan_escape high low rest = elim (hex_value high) [
  | none ↦ rejected malformed_percent_encoding
  | some h ↦ elim (hex_value low) [
    | none ↦ rejected malformed_percent_encoding
    | some l ↦
        scanned_before (h * 16 + l)
          (is_lower_hex high || is_lower_hex low || is_unreserved_ascii (h * 16 + l)) rest
  ]
]

-- `split` with `Qt::KeepEmptyParts`
abbrev before_first : ℕ → List Text → List Text
before_first c [] = (c ∷ []) ∷ []
before_first c (part ∷ parts) = (c ∷ part) ∷ parts

unfoldable pub split : ℕ → Text → List Text
split separator [] = [] ∷ []
split separator (c ∷ cs) =
    let rest = split separator cs in if c == separator then [] ∷ rest else before_first c rest

abbrev pub starts_with : ℕ → Text → Bool
starts_with c [] = false
starts_with c (x ∷ xs) = x == c

unfoldable pub ends_with : ℕ → Text → Bool
ends_with c [] = false
ends_with c (x ∷ []) = x == c
ends_with c (x ∷ y ∷ xs) = ends_with c (y ∷ xs)

-- `contains(QStringLiteral("//"))`
unfoldable pub has_double_slash : Text → Bool
has_double_slash [] = false
has_double_slash (x ∷ xs) = (x == b'/' && starts_with b'/' xs) || has_double_slash xs

-- The view behind the first code unit, `sliced(1)`
abbrev pub sliced_1 : Text → Text
sliced_1 [] = []
sliced_1 (x ∷ xs) = xs

abbrev pub root_path : Text
root_path = b'/' ∷ []

module _ (is_control : ℕ → Bool) where
  unfoldable pub scan_literal : ℕ → Scanned → Scanned
  scan_literal c rest =
      if c == 0x5c
      then rejected decoded_separator
      else if is_control c
      then rejected control_character
      else if not (is_allowed_literal_path_character c)
      then rejected non_canonical_encoding
      else scanned_before c false rest

  unfoldable pub scan_segment : Text → Scanned
  scan_segment [] = scanned [] false
  scan_segment (c ∷ []) =
      if c == b'%' then rejected malformed_percent_encoding else scan_literal c (scanned [] false)
  scan_segment (c ∷ d ∷ []) =
      let rest = scan_segment (d ∷ []) in
      if c == b'%' then rejected malformed_percent_encoding else scan_literal c rest
  scan_segment (c ∷ high ∷ low ∷ cs) =
      let behind = scan_segment cs in
      let rest = scan_segment (high ∷ low ∷ cs) in
      if c == b'%' then scan_escape high low behind else scan_literal c rest

  unfoldable pub has_control : Text → Bool
  has_control [] = false
  has_control (c ∷ cs) = is_control c || has_control cs

  -- The checks of `decodeSegment` behind the UTF-8 decoder
  unfoldable pub check_decoded : Text → Bool → NormalizedPathError
  check_decoded decoded non_canonical =
      if contains b'/' decoded || contains 0x5c decoded
      then decoded_separator
      else if has_control decoded
      then control_character
      else if text_eq decoded (b'.' ∷ []) || text_eq decoded (b'.' ∷ b'.' ∷ [])
      then path_traversal
      else if non_canonical
      then non_canonical_encoding
      else no_error

  module _ (utf8 : Text → Option Text) where
    unfoldable pub decode_segment : Text → NormalizedPathError × Text
    decode_segment encoded = elim (scan_segment encoded) [
      | rejected e ↦ (e, [])
      | scanned bytes non_canonical ↦ elim (utf8 bytes) [
        | none ↦ (invalid_utf8, [])
        | some decoded ↦ (check_decoded decoded non_canonical, decoded)
      ]
    ]

    -- The loop over the segments: the first error, or the decoded segments
    unfoldable pub decode_segments : List Text → NormalizedPathError × List Text
    decode_segments [] = (no_error, [])
    decode_segments (raw ∷ raws) =
        let rest = decode_segments raws in
        let segment = decode_segment raw in
        elim segment.0 [ no_error ↦ (rest.0, segment.1 ∷ rest.1) | e ↦ (e, []) ]

    unfoldable pub parse : Text → NormalizedPath
    parse path =
        if not (starts_with b'/' path)
        then failed not_absolute
        else if has_double_slash path
        then failed duplicate_slash
        else if ltb 1 (length path) && ends_with b'/' path
        then failed trailing_slash
        else if text_eq path root_path
        then record { error = no_error; encoded = path; decoded_segments = [] }
        else let decoded = decode_segments (split b'/' (sliced_1 path)) in
          elim decoded.0 [
            | no_error ↦ record { error = no_error; encoded = path; decoded_segments = decoded.1 }
            | e ↦ failed e
          ]
