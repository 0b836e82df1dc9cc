-- ===== src/Tabs/Title.antt =====
-- `BrowserTabModel::canonicalTitle` of apps/host/BrowserTabModel.cpp.
pub mod Canonical
use q_browser.Base.{
  ℕ, ◌+◌, ◌-◌, Bool, true, false, not, ◌&&◌, ◌||◌, Option, none, some, List, [], ◌∷◌, ◌++◌, ltb,
  leb, ◌==◌, if◌then◌else◌, length,
}
use q_browser.Base.Text.{Text}

abbrev pub max_raw_title_code_units : ℕ
max_raw_title_code_units = 4096

abbrev pub max_title_code_units : ℕ
max_title_code_units = 256

unfoldable pub is_bidi_control : ℕ → Bool
is_bidi_control value =
    value == 0x061c
    || value == 0x200e
    || value == 0x200f
    || (leb 0x202a value && leb value 0x202e)
    || (leb 0x2066 value && leb value 0x206f)

-- `QChar::isHighSurrogate` and `QChar::isLowSurrogate`: the two ranges of UTF-16
unfoldable pub is_high_surrogate : ℕ → Bool
is_high_surrogate value = leb 0xd800 value && leb value 0xdbff

unfoldable pub is_low_surrogate : ℕ → Bool
is_low_surrogate value = leb 0xdc00 value && leb value 0xdfff

-- The variables `result` and `prefixComplete` of the loop
pub record Progress : Type 0 where
  pub result : Text
  pub prefix_complete : Bool

unfoldable pub add_pair : ℕ → ℕ → Progress → Progress
add_pair high low p =
    if not p.prefix_complete && leb (length p.result + 2) max_title_code_units
    then (let result = p.result ++ (high ∷ low ∷ []) in
        record { result = result; prefix_complete = length result == max_title_code_units })
    else if not p.prefix_complete
    then record p { prefix_complete = true }
    else p

module _ (is_control : ℕ → Bool) where
  unfoldable pub add_unit : ℕ → Progress → Progress
  add_unit value p =
      if is_control value || is_bidi_control value
      then p
      else if not p.prefix_complete
      then (let result = p.result ++ value ∷ [] in
          record { result = result; prefix_complete = length result == max_title_code_units })
      else p

  -- The loop over the code units; a pair of surrogates is taken in one round.
  unfoldable pub scan_title : Text → Progress → Option Text
  scan_title [] p = some p.result
  scan_title (value ∷ []) p =
      if is_high_surrogate value
      then none
      else if is_low_surrogate value
      then none
      else some (add_unit value p).result
  scan_title (value ∷ next ∷ rest) p =
      let pair = scan_title rest (add_pair value next p) in
      let single = scan_title (next ∷ rest) (add_unit value p) in
      if is_high_surrogate value
      then (if is_low_surrogate next then pair else none)
      else if is_low_surrogate value
      then none
      else single

  unfoldable pub canonical_title : Text → Option Text
  canonical_title title =
      if ltb max_raw_title_code_units (length title)
      then none
      else scan_title title (record { result = []; prefix_complete = false })
