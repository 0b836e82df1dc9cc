-- ===== src/Router/Path/Safe.antt =====
-- What a path that was accepted cannot contain.
use q_browser.Base.{
  ℕ, Bool, true, false, Option, List, [], ◌∷◌, ◌≡◌, ◌⊎◌, inl, inr, refl, arith, Option-cases, All,
}
use q_browser.Base.Text.{Text, text_eq}
use q_browser.Router.Path.{
  NormalizedPathError, no_error, Scanned, rejected, scanned, is_valid, contains, starts_with,
  has_double_slash, split, sliced_1, scan_segment, has_control, check_decoded, decode_segment,
  decode_segments, parse,
}

-- A name of one directory entry: no separator, no control character, and neither `.` nor `..`.
abbrev pub IsSafe : (ℕ → Bool) → Text → Type 0
IsSafe is_control s =
    (contains b'/' s ≡ false)
    × (contains 0x5c s ≡ false)
    × (has_control is_control s ≡ false)
    × (text_eq s (b'.' ∷ []) ≡ false)
    × (text_eq s (b'.' ∷ b'.' ∷ []) ≡ false)

Scanned-cases :
    (s : Scanned)
    → ((e : NormalizedPathError) × (s ≡ rejected e))
      ⊎ ((bytes : Text) × (n : Bool) × (s ≡ scanned bytes n))
Scanned-cases (rejected e) = inl (e, refl)
Scanned-cases (scanned bytes n) = inr (bytes, n, refl)

module _ (is_control : ℕ → Bool) (utf8 : Text → Option Text) where
  check_decoded-IsSafe :
      (s : Text) (non_canonical : Bool)
      → check_decoded is_control s non_canonical ≡ no_error
      → IsSafe is_control s
  unfolding check_decoded
  check_decoded-IsSafe s n h = ground arith

  decode_segment-IsSafe :
      (raw : Text)
      → (decode_segment is_control utf8 raw).0 ≡ no_error
      → IsSafe is_control (decode_segment is_control utf8 raw).1
  unfolding decode_segment contains has_control text_eq
  decode_segment-IsSafe raw h = elim (Scanned-cases (scan_segment is_control raw)) [
    | inl (e, f) ↦ rw (decode_segment, f) (refl, refl, refl, refl, refl)
    | inr (bytes, n, f) ↦ elim (Option-cases (utf8 bytes)) [
      | inl g ↦ rw (decode_segment, f, g) (refl, refl, refl, refl, refl)
      | inr (s, g) ↦ rw (decode_segment, f, g) (check_decoded-IsSafe s n (ground arith))
    ]
  ]

  decode_segments-IsSafe :
      (raws : List Text)
      → (decode_segments is_control utf8 raws).0 ≡ no_error
      → All (IsSafe is_control) (decode_segments is_control utf8 raws).1
  unfolding decode_segments
  decode_segments-IsSafe [] h = tt
  decode_segments-IsSafe (raw ∷ raws) h =
      ground (arith, decode_segment-IsSafe raw, decode_segments-IsSafe raws)

  -- No traversal: a valid path is absolute and kept as it was given, and each decoded segment has
  -- no separator and no control character and is neither `.` nor `..`.
  pub parse-IsSafe :
      (text : Text)
      → is_valid (parse is_control utf8 text) ≡ true
      → (starts_with b'/' text ≡ true)
        × (has_double_slash text ≡ false)
        × ((parse is_control utf8 text).encoded ≡ text)
        × All (IsSafe is_control) (parse is_control utf8 text).decoded_segments
  unfolding parse
  parse-IsSafe text h = ground (arith, decode_segments-IsSafe (split b'/' (sliced_1 text)))
