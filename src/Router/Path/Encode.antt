-- ===== src/Router/Path/Encode.antt =====
-- The canonical encoding of the bytes of a segment is accepted, and only they come back.
use q_browser.Base.{
  ℕ, ◌+◌, ◌-◌, ◌*◌, ◌/◌, ◌%◌, ◌<◌, Bool, true, false, some, [], ◌∷◌, ◌≡◌, inl, inr, refl, arith,
  Bool-cases, All, if◌then◌else◌, ltb, ◌==◌,
}
use q_browser.Base.Text.{Text}
use q_browser.Router.Path.{
  Scanned, scanned, scanned_before, hex_value, is_unreserved_ascii,
  is_allowed_literal_path_character, is_lower_hex, scan_escape, scan_literal, scan_segment,
}

-- An upper-case hexadecimal digit
abbrev pub hex_digit : ℕ → ℕ
hex_digit n = if ltb n 10 then b'0' + n else b'A' + (n - 10)

-- Percent-encoding of all but the unreserved characters
unfoldable pub encode : Text → Text
encode [] = []
encode (b ∷ bs) =
    let rest = encode bs in
    if is_unreserved_ascii b
    then b ∷ rest
    else b'%' ∷ hex_digit (b / 16) ∷ hex_digit (b % 16) ∷ rest

hex_value-hex_digit : (n : ℕ) → n < 16 → hex_value (hex_digit n) ≡ some n
unfolding hex_value
hex_value-hex_digit n h = ground arith

upper_hex : (n : ℕ) → n < 16 → is_lower_hex (hex_digit n) ≡ false
upper_hex n h = ground arith

nibbles : (b : ℕ) → (b / 16 * 16 + b % 16) ≡ b
nibbles b = omega arith

escape-digits :
    (b : ℕ) (rest : Scanned)
    → b < 256
    → is_unreserved_ascii b ≡ false
    → scan_escape (hex_digit (b / 16)) (hex_digit (b % 16)) rest ≡ scanned_before b false rest
unfolding scan_escape
escape-digits b rest h u = ground (
  arith,
  hex_value-hex_digit (b / 16) (omega arith),
  hex_value-hex_digit (b % 16) (omega arith),
  upper_hex (b / 16) (omega arith),
  upper_hex (b % 16) (omega arith),
  nibbles b,
)

module _ (is_control : ℕ → Bool) where
  -- The bytes of a segment are below 256, and no unreserved character is a control character.
  scan_literal-unreserved :
      (b : ℕ) (rest : Scanned)
      → is_unreserved_ascii b ≡ true
      → is_control b ≡ false
      → scan_literal is_control b rest ≡ scanned_before b false rest
  unfolding scan_literal is_allowed_literal_path_character is_unreserved_ascii
  scan_literal-unreserved b rest u k = ground arith

  not_percent : (b : ℕ) → is_unreserved_ascii b ≡ true → (b == b'%') ≡ false
  unfolding is_unreserved_ascii
  not_percent b u = ground arith

  scan_segment-literal :
      (b : ℕ) (cs : Text)
      → (b == b'%') ≡ false
      → scan_segment is_control (b ∷ cs) ≡ scan_literal is_control b (scan_segment is_control cs)
  unfolding scan_segment
  scan_segment-literal b [] h = ground arith
  scan_segment-literal b (c ∷ []) h = ground arith
  scan_segment-literal b (c ∷ d ∷ cs) h = ground arith

  scan_segment-escape :
      (high low : ℕ) (cs : Text)
      → scan_segment is_control (b'%' ∷ high ∷ low ∷ cs)
        ≡ scan_escape high low (scan_segment is_control cs)
  unfolding scan_segment
  scan_segment-escape high low cs = refl

  -- The loop of `decodeSegment` makes of the canonical encoding the bytes that were encoded, and
  -- finds no escape that is not canonical. The bytes are below 256, and no unreserved character
  -- counts as a control character.
  pub scan_segment-encode :
      (bytes : Text)
      → ((c : ℕ) → is_unreserved_ascii c ≡ true → is_control c ≡ false)
      → All (λ b. b < 256) bytes
      → scan_segment is_control (encode bytes) ≡ scanned bytes false
  unfolding encode scan_segment
  scan_segment-encode [] k h = refl
  scan_segment-encode (b ∷ bs) k h = elim (Bool-cases (is_unreserved_ascii b)) [
    | inl u ↦ ground (
      arith,
      scan_segment-literal b (encode bs) (not_percent b u),
      scan_literal-unreserved b (scan_segment is_control (encode bs)) u (k b u),
      scan_segment-encode bs k h.1,
    )
    | inr u ↦ ground (
      arith,
      scan_segment-escape (hex_digit (b / 16)) (hex_digit (b % 16)) (encode bs),
      escape-digits b (scan_segment is_control (encode bs)) h.0 u,
      scan_segment-encode bs k h.1,
    )
  ]
