-- ===== src/Tabs/Title/Canonical.antt =====
-- What `canonicalTitle` returns: well-formed UTF-16 of at most 256 code units with no control
-- character, which it returns again unchanged.
use mathlib.Core.List.{append-nil, append_assoc}
use q_browser.Base.{
  ℕ, ◌+◌, ◌≤◌, ◌<◌, Bool, true, false, ◌||◌, some, [], ◌∷◌, ◌++◌, ◌≡◌, inl, inr, arith, ◌==◌,
  length, length-append, Bool-cases, ◌∙◌, ap,
}
use q_browser.Base.Text.{Text}
use q_browser.Tabs.Title.{
  max_title_code_units, is_bidi_control, is_high_surrogate, is_low_surrogate, Progress, add_pair,
  add_unit, scan_title, canonical_title,
}

module _ (is_control : ℕ → Bool) where
  -- A code unit that is shown by itself
  abbrev pub IsShown : ℕ → Type 0
  IsShown v =
      (is_high_surrogate v ≡ false)
      × (is_low_surrogate v ≡ false)
      × ((is_control v || is_bidi_control v) ≡ false)

  abbrev pub IsPair : ℕ → ℕ → Type 0
  IsPair v w = (is_high_surrogate v ≡ true) × (is_low_surrogate w ≡ true)

  -- Shown code units and pairs of surrogates, in any order
  pub data IsClean : Text → Type 0 where
    nil : IsClean []
    unit : {v : ℕ} {vs : Text} → IsShown v → IsClean vs → IsClean (v ∷ vs)
    pair : {v w : ℕ} {vs : Text} → IsPair v w → IsClean vs → IsClean (v ∷ w ∷ vs)

  IsClean-append : {a b : Text} → IsClean a → IsClean b → IsClean (a ++ b)
  IsClean-append nil h = h
  IsClean-append (unit s t) h = unit s (IsClean-append t h)
  IsClean-append (pair s t) h = pair s (IsClean-append t h)

  record IsCleanProgress (p : Progress) : Type 0 where
    clean : IsClean p.result
    bounded : length p.result ≤ max_title_code_units
    room : p.prefix_complete ≡ false → length p.result < max_title_code_units

  append_unit :
      (v : ℕ) (p : Progress)
      → is_high_surrogate v ≡ false
      → is_low_surrogate v ≡ false
      → (is_control v || is_bidi_control v) ≡ false
      → IsClean p.result
      → IsClean (p.result ++ v ∷ [])
  append_unit v p h l e c = IsClean-append c (unit (h, l, e) nil)

  append_pair :
      (v w : ℕ) (p : Progress) → IsPair v w → IsClean p.result → IsClean (p.result ++ v ∷ w ∷ [])
  append_pair v w p h c = IsClean-append c (pair h nil)

  add_unit-clean :
      (v : ℕ) (p : Progress)
      → is_high_surrogate v ≡ false
      → is_low_surrogate v ≡ false
      → IsCleanProgress p
      → IsCleanProgress (add_unit is_control v p)
  unfolding add_unit
  add_unit-clean v p h l c =
      ground (arith, append_unit v p h l, c.clean, length-append p.result (v ∷ []))

  add_pair-clean :
      (v w : ℕ) (p : Progress) → IsPair v w → IsCleanProgress p → IsCleanProgress (add_pair v w p)
  unfolding add_pair
  add_pair-clean v w p h c =
      ground (arith, append_pair v w p h c.clean, length-append p.result (v ∷ w ∷ []))

  scan_title-IsClean :
      (title : Text) (p : Progress) {t : Text}
      → IsCleanProgress p
      → scan_title is_control title p ≡ some t
      → IsClean t × (length t ≤ max_title_code_units)
  unfolding scan_title
  scan_title-IsClean [] p {t} c e = ground (arith, c.clean)
  scan_title-IsClean (v ∷ []) p {t} c e = ground (arith, add_unit-clean v p)
  scan_title-IsClean (v ∷ w ∷ rest) p {t} c e = elim (Bool-cases (is_high_surrogate v)) [
    | inl high ↦ elim (Bool-cases (is_low_surrogate w)) [
      | inl low ↦
          scan_title-IsClean rest (add_pair v w p) (add_pair-clean v w p (high, low) c)
            (ground arith)
      | inr single ↦ ground arith
    ]
    | inr plain ↦ elim (Bool-cases (is_low_surrogate v)) [
      | inl low ↦ ground arith
      | inr shown ↦
          scan_title-IsClean (w ∷ rest) (add_unit is_control v p) (add_unit-clean v p plain shown c)
            (ground arith)
    ]
  ]

  scan_title-shown :
      (v : ℕ) (vs : Text) (p : Progress)
      → IsShown v
      → scan_title is_control (v ∷ vs) p ≡ scan_title is_control vs (add_unit is_control v p)
  unfolding scan_title
  scan_title-shown v [] p s = ground arith
  scan_title-shown v (w ∷ vs) p s = ground arith

  -- A clean text that still fits is appended whole.
  scan_title-identity :
      {t : Text} (p : Progress)
      → IsClean t
      → length p.result + length t ≤ max_title_code_units
      → (p.prefix_complete ≡ true → length t ≡ 0)
      → scan_title is_control t p ≡ some (p.result ++ t)
  scan_title-identity p nil h d = unfold scan_title in rw append-nil
  scan_title-identity p (unit {v} {vs} s c) h d =
      let p' : Progress = add_unit is_control v p in
      let more : p'.result ≡ p.result ++ v ∷ [] = unfold add_unit in ground arith in
      let done : p'.prefix_complete ≡ (length p'.result == 256) = unfold add_unit in ground arith in
      scan_title-shown v vs p s
      ∙ scan_title-identity p' c (ground (arith, length-append p.result (v ∷ [])))
          (λ e. ground (arith, length-append p.result (v ∷ [])))
      ∙ rw more (ap some (append_assoc p.result (v ∷ []) vs))
  scan_title-identity p (pair {v} {w} {vs} s c) h d =
      let p' : Progress = add_pair v w p in
      let more : p'.result ≡ p.result ++ v ∷ w ∷ [] = unfold add_pair in ground arith in
      let done : p'.prefix_complete ≡ (length p'.result == 256) = unfold add_pair in ground arith in
      let step : scan_title is_control (v ∷ w ∷ vs) p ≡ scan_title is_control vs p' =
        unfold scan_title in ground arith in
      step
      ∙ scan_title-identity p' c (ground (arith, length-append p.result (v ∷ w ∷ [])))
          (λ e. ground (arith, length-append p.result (v ∷ w ∷ [])))
      ∙ rw more (ap some (append_assoc p.result (v ∷ w ∷ []) vs))

  -- A title that is accepted becomes a clean text of at most 256 code units: no control or
  -- bidirectional control character is left, and every surrogate stands in a pair.
  pub canonical_title-IsClean :
      (title : Text) {t : Text}
      → canonical_title is_control title ≡ some t
      → IsClean t × (length t ≤ max_title_code_units)
  unfolding canonical_title
  canonical_title-IsClean title {t} e =
      scan_title-IsClean title (record { result = []; prefix_complete = false })
        (record { clean = nil; bounded = omega arith; room = λ _. omega arith }) (ground arith)

  -- A clean text of at most 256 code units is its own canonical title.
  pub canonical_title-identity :
      {t : Text}
      → IsClean t
      → length t ≤ max_title_code_units
      → canonical_title is_control t ≡ some t
  unfolding canonical_title
  canonical_title-identity {t} c h = ground (
    arith,
    scan_title-identity (record { result = []; prefix_complete = false }) c (omega arith) (λ e. cc),
  )

  -- The title that `canonicalTitle` returns is clean and at most 256 code units long, and
  -- `canonicalTitle` returns it again unchanged.
  pub canonical_title_idem :
      (title : Text) {t : Text}
      → canonical_title is_control title ≡ some t
      → IsClean t × (length t ≤ max_title_code_units) × (canonical_title is_control t ≡ some t)
  canonical_title_idem title {t} e =
      let (c, h) = canonical_title-IsClean title e in (c, h, canonical_title-identity c h)
