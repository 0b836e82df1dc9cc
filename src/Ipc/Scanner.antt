-- ===== src/Ipc/Scanner.antt =====
-- The strict JSON scanner of runtime/ipc/FrameCodec.cpp, which runs before Qt parses a payload.
--
-- The position in the text is the text behind it. `is_digit` is `QChar::isDigit`, a table of Qt. The
-- scanner recurs on fuel, `stuck` being the lack of it.
pub mod Shorter
pub mod Total
use q_browser.Base.{
  ℕ, zero, suc, ◌+◌, ◌-◌, ◌*◌, Bool, true, false, not, ◌&&◌, ◌||◌, Option, none, some, List, [],
  ◌∷◌, ◌++◌, ltb, leb, ◌==◌, if◌then◌else◌, length,
}
use q_browser.Base.Text.{Text, text_eq, codes}
use q_browser.Tabs.Title.{is_high_surrogate, is_low_surrogate}

pub data StrictScanResult : Type 0 where
  valid duplicate_member resource_limit invalid : StrictScanResult

abbrev pub maximum_json_nesting : ℕ
maximum_json_nesting = 64

abbrev pub maximum_json_aggregate_entries : ℕ
maximum_json_aggregate_entries = 4096

-- The text from `position_` on, and `aggregateEntries_`
pub record Reader : Type 0 where
  pub rest : Text
  pub entries : ℕ

-- A scan that returns true leaves a reader behind. One that returns false ends the scan with
-- `result_`, which is `invalid` if no other was set.
pub data Scan : Type 0 where
  done : Reader → Scan
  halt : StrictScanResult → Scan
  stuck : Scan

abbrev pub scan_then : Scan → (Reader → Scan) → Scan
scan_then (done r) k = k r
scan_then (halt e) k = halt e
scan_then stuck k = stuck

abbrev is_space : ℕ → Bool
is_space c = c == 0x20 || c == 0x09 || c == 0x0a || c == 0x0d

unfoldable pub skip_whitespace : Text → Text
skip_whitespace [] = []
skip_whitespace (c ∷ cs) = let rest = skip_whitespace cs in if is_space c then rest else c ∷ cs

abbrev pub consume : ℕ → Text → Option Text
consume expected [] = none
consume expected (c ∷ cs) = if c == expected then some cs else none

unfoldable pub consume_keyword : Text → Text → Option Text
consume_keyword [] text = some text
consume_keyword (k ∷ ks) [] = none
consume_keyword (k ∷ ks) (c ∷ cs) =
    let rest = consume_keyword ks cs in if c == k then rest else none

unfoldable pub hex_digit_value : ℕ → Option ℕ
hex_digit_value c =
    if leb b'0' c && leb c b'9'
    then some (c - b'0')
    else if leb b'a' c && leb c b'f'
    then some (c - b'a' + 10)
    else if leb b'A' c && leb c b'F'
    then some (c - b'A' + 10)
    else none

infixl 5 ◌>>=◌
abbrev pub ◌>>=◌ {ℓ κ} : {A : Type ℓ} {B : Type κ} → Option A → (A → Option B) → Option B
none >>= f = none
some a >>= f = f a

unfoldable pub parse_hex_code_unit : Text → Option (ℕ × Text)
parse_hex_code_unit (a ∷ b ∷ c ∷ d ∷ rest) = do
  w ← hex_digit_value a
  x ← hex_digit_value b
  y ← hex_digit_value c
  z ← hex_digit_value d
  some (((w * 16 + x) * 16 + y) * 16 + z, rest)
parse_hex_code_unit _ = none

-- One round of the loop of `parseString`: the closing quote, the code units that are appended, or
-- `return false`
pub data StringStep : Type 0 where
  closed : Text → StringStep
  appended : Text → Text → StringStep
  refused : StringStep

unfoldable pub plain_step : ℕ → Text → StringStep
plain_step c [] =
    if is_high_surrogate c || is_low_surrogate c then refused else appended (c ∷ []) []
plain_step c (d ∷ rest) =
    if is_high_surrogate c
    then (if is_low_surrogate d then appended (c ∷ d ∷ []) rest else refused)
    else if is_low_surrogate c
    then refused
    else appended (c ∷ []) (d ∷ rest)

-- The second half of a pair of surrogates: `\u` and the low one
unfoldable pub low_half : ℕ → Text → StringStep
low_half high text = elim (consume 0x5c text >>= consume b'u' >>= parse_hex_code_unit) [
  | none ↦ refused
  | some (low, behind) ↦ if is_low_surrogate low then appended (high ∷ low ∷ []) behind else refused
]

unfoldable pub unicode_step : Text → StringStep
unicode_step text = elim (parse_hex_code_unit text) [
  | none ↦ refused
  | some (unit, rest) ↦
      if is_high_surrogate unit
      then low_half unit rest
      else if is_low_surrogate unit
      then refused
      else appended (unit ∷ []) rest
]

unfoldable pub escape_step : Text → StringStep
escape_step [] = refused
escape_step (e ∷ rest) =
    if e == 0x22 || e == 0x5c || e == b'/'
    then appended (e ∷ []) rest
    else if e == b'b'
    then appended (0x08 ∷ []) rest
    else if e == b'f'
    then appended (0x0c ∷ []) rest
    else if e == b'n'
    then appended (0x0a ∷ []) rest
    else if e == b'r'
    then appended (0x0d ∷ []) rest
    else if e == b't'
    then appended (0x09 ∷ []) rest
    else if e == b'u'
    then unicode_step rest
    else refused

unfoldable pub string_step : Text → StringStep
string_step [] = refused
string_step (c ∷ rest) =
    if c == 0x22
    then closed rest
    else if ltb c 0x20
    then refused
    else if c == 0x5c
    then escape_step rest
    else plain_step c rest

pub data StringScan : Type 0 where
  string_done : Text → Text → StringScan
  string_refused string_stuck : StringScan

-- The loop of `parseString` with the text decoded so far
unfoldable pub string_loop : ℕ → Text → Text → StringScan
string_loop zero text decoded = string_stuck
string_loop (suc fuel) text decoded = elim (string_step text) [
  | closed rest ↦ string_done decoded rest
  | appended units rest ↦ string_loop fuel rest (decoded ++ units)
  | refused ↦ string_refused
]

-- Each round reads a code unit at least.
unfoldable pub parse_string : Text → StringScan
parse_string text = elim (consume 0x22 text) [
  | none ↦ string_refused
  | some rest ↦ string_loop (suc (length rest)) rest []
]

abbrev is_ascii_digit : ℕ → Bool
is_ascii_digit c = leb b'0' c && leb c b'9'

unfoldable pub skip_digits : Text → Text
skip_digits [] = []
skip_digits (c ∷ cs) = let rest = skip_digits cs in if is_ascii_digit c then rest else c ∷ cs

abbrev pub starts_with_digit : Text → Bool
starts_with_digit [] = false
starts_with_digit (c ∷ cs) = is_ascii_digit c

-- One digit at least
unfoldable pub digits : Text → Option Text
digits text = if starts_with_digit text then some (skip_digits text) else none

unfoldable pub fraction_part : Text → Option Text
fraction_part text = elim (consume b'.' text) [ none ↦ some text | some rest ↦ digits rest ]

unfoldable pub skip_sign : Text → Text
skip_sign [] = []
skip_sign (c ∷ cs) = if c == b'+' || c == b'-' then cs else c ∷ cs

unfoldable pub exponent_part : Text → Option Text
exponent_part [] = some []
exponent_part (c ∷ cs) = if c == b'e' || c == b'E' then digits (skip_sign cs) else some (c ∷ cs)

unfoldable pub skip_minus : Text → Text
skip_minus text = elim (consume b'-' text) [ none ↦ text | some rest ↦ rest ]

-- Entries are counted before the value that follows them.
abbrev pub too_many_entries : Reader → Bool
too_many_entries r = leb maximum_json_aggregate_entries r.entries

unfoldable pub has_member : Text → List Text → Bool
has_member name [] = false
has_member name (m ∷ ms) = text_eq m name || has_member name ms

-- What follows an opening bracket: the closing one, or the first member or element
unfoldable pub after_open : ℕ → Reader → (Reader → Scan) → Scan
after_open close r items =
    let text = skip_whitespace r.rest in
    elim (consume close text) [
      | some rest ↦ done (record r { rest = rest })
      | none ↦ items (record r { rest = text })
    ]

-- What follows a member or an element: the closing bracket, or a comma and the next one
unfoldable pub after_item : ℕ → Reader → (Reader → Scan) → Scan
after_item close r next =
    let text = skip_whitespace r.rest in
    elim (consume close text) [
      | some rest ↦ done (record r { rest = rest })
      | none ↦ elim (consume b',' text) [
        | none ↦ halt invalid
        | some rest ↦ next (record r { rest = skip_whitespace rest })
      ]
    ]

-- A member up to its value: the reader before the value, and the name
pub data MemberScan : Type 0 where
  member_done : Text → Reader → MemberScan
  member_halt : StrictScanResult → MemberScan
  member_stuck : MemberScan

unfoldable pub parse_member : List Text → Reader → MemberScan
parse_member members r = elim (parse_string r.rest) [
  | string_stuck ↦ member_stuck
  | string_refused ↦ member_halt invalid
  | string_done member rest ↦
      if has_member member members
      then member_halt duplicate_member
      else if too_many_entries r
      then member_halt resource_limit
      else elim (consume b':' (skip_whitespace rest)) [
        | none ↦ member_halt invalid
        | some behind ↦
            member_done member (record { rest = skip_whitespace behind; entries = suc r.entries })
      ]
]

abbrev pub done_at : Reader → Option Text → Scan
done_at r none = halt invalid
done_at r (some rest) = done (record r { rest = rest })

unfoldable pub parse_keyword : Reader → Scan
parse_keyword r = elim (consume_keyword (codes "true") r.rest) [
  | some rest ↦ done_at r (some rest)
  | none ↦ elim (consume_keyword (codes "false") r.rest) [
    | some rest ↦ done_at r (some rest)
    | none ↦ done_at r (consume_keyword (codes "null") r.rest)
  ]
]

-- The kinds of value that `parseValue` tells apart by the first code unit
pub data ValueKind : Type 0 where
  object_value array_value : Text → ValueKind
  string_value number_value keyword_value : ValueKind

unfoldable pub value_kind : Text → ValueKind
value_kind [] = keyword_value
value_kind (c ∷ cs) =
    if c == b'{'
    then object_value cs
    else if c == b'['
    then array_value cs
    else if c == 0x22
    then string_value
    else if c == b'-' || is_ascii_digit c
    then number_value
    else keyword_value

module _ (is_digit : ℕ → Bool) where
  abbrev starts_with_unicode_digit : Text → Bool
  starts_with_unicode_digit [] = false
  starts_with_unicode_digit (c ∷ cs) = is_digit c

  -- The digits before the point
  unfoldable pub integer_part : Text → Option Text
  integer_part text = elim (consume b'0' text) [
    | none ↦ digits text
    | some rest ↦ if starts_with_unicode_digit rest then none else some rest
  ]

  unfoldable pub parse_number : Text → Option Text
  parse_number text = integer_part (skip_minus text) >>= fraction_part >>= exponent_part

  unfoldable mutual
    pub parse_value : ℕ → ℕ → Reader → Scan
    parse_value zero nesting r = stuck
    parse_value (suc fuel) nesting r = elim (value_kind r.rest) [
      | object_value rest ↦ elim (leb maximum_json_nesting nesting) [
        | true ↦ halt resource_limit
        | false ↦ after_open b'}' (record r { rest = rest }) (parse_members fuel (suc nesting) [])
      ]
      | array_value rest ↦ elim (leb maximum_json_nesting nesting) [
        | true ↦ halt resource_limit
        | false ↦ after_open b']' (record r { rest = rest }) (parse_elements fuel (suc nesting))
      ]
      | string_value ↦ elim (parse_string r.rest) [
        | string_done decoded rest ↦ done (record r { rest = rest })
        | string_refused ↦ halt invalid
        | string_stuck ↦ stuck
      ]
      | number_value ↦ done_at r (parse_number r.rest)
      | keyword_value ↦ parse_keyword r
    ]

    pub parse_members : ℕ → ℕ → List Text → Reader → Scan
    parse_members zero nesting members r = stuck
    parse_members (suc fuel) nesting members r = elim (parse_member members r) [
      | member_stuck ↦ stuck
      | member_halt e ↦ halt e
      | member_done member at_value ↦
          scan_then (parse_value fuel nesting at_value)
            λ behind. after_item b'}' behind (parse_members fuel nesting (member ∷ members))
    ]

    pub parse_elements : ℕ → ℕ → Reader → Scan
    parse_elements zero nesting r = stuck
    parse_elements (suc fuel) nesting r = elim (too_many_entries r) [
      | true ↦ halt resource_limit
      | false ↦
          scan_then (parse_value fuel nesting (record r { entries = suc r.entries }))
            λ behind. after_item b']' behind (parse_elements fuel nesting)
    ]

  abbrev is_empty : Text → Bool
  is_empty [] = true
  is_empty (c ∷ cs) = false

  -- `none` where the fuel ran out
  abbrev scan_result : Scan → Option StrictScanResult
  scan_result stuck = none
  scan_result (halt e) = some e
  scan_result (done r) = if is_empty (skip_whitespace r.rest) then some valid else some invalid

  unfoldable pub scan : Text → Option StrictScanResult
  scan text =
      scan_result
        (parse_value (2 * length text + 1) 0 (record { rest = skip_whitespace text; entries = 0 }))
