-- ===== src/Ipc/Scanner/Shorter.antt =====
-- What the parts of the scanner leave of a text is shorter, and they do not run out of fuel.
use q_browser.Base.{
  ℕ, zero, suc, ◌+◌, ◌≤◌, ◌<◌, Bool, Option, some, List, [], ◌∷◌, ◌++◌, ◌≡◌, ◌≢◌, ◌⊎◌, inl, inr,
  refl, arith, length, Option-cases,
}
use q_browser.Base.Text.{Text, codes}
use q_browser.Ipc.Scanner.{
  ◌>>=◌, StringStep, closed, appended, refused, string_step, plain_step, low_half, unicode_step,
  escape_step, string_loop, StringScan, string_done, string_refused, string_stuck, parse_string,
  skip_whitespace, consume, consume_keyword, parse_hex_code_unit, skip_digits, digits,
  fraction_part, skip_sign, exponent_part, skip_minus, integer_part, parse_number, parse_keyword,
  Reader, done, stuck, member_done, member_stuck, parse_member,
}

pub skip_whitespace-le : (t : Text) → length (skip_whitespace t) ≤ length t
unfolding skip_whitespace
skip_whitespace-le [] = omega arith
skip_whitespace-le (c ∷ cs) = ground (arith, skip_whitespace-le cs)

pub consume-lt : (c : ℕ) (t : Text) {r : Text} → consume c t ≡ some r → length r < length t
consume-lt c [] h = ground arith
consume-lt c (d ∷ t) h = ground arith

consume_keyword-le :
    (k t : Text) {r : Text} → consume_keyword k t ≡ some r → length r + length k ≤ length t
unfolding consume_keyword
consume_keyword-le [] t {r} h = ground arith
consume_keyword-le (k ∷ ks) [] {r} h = ground arith
consume_keyword-le (k ∷ ks) (c ∷ cs) {r} h = ground (arith, consume_keyword-le ks cs {r = r})

hex-le : (t : Text) {u : ℕ} {r : Text} → parse_hex_code_unit t ≡ some (u, r) → length r < length t
unfolding parse_hex_code_unit
hex-le (a ∷ b ∷ c ∷ d ∷ rest) h = ground arith
hex-le _ h = ground arith

-- What one round of the loop leaves is at most the text that it was given.
abbrev Leaves : ℕ → StringStep → Type 0
Leaves n (closed rest) = length rest ≤ n
Leaves n (appended units rest) = length rest ≤ n
Leaves n refused = Unit

Leaves-mono : (s : StringStep) {m n : ℕ} → Leaves m s → m ≤ n → Leaves n s
Leaves-mono (closed rest) h k = omega arith
Leaves-mono (appended units rest) h k = omega arith
Leaves-mono refused h k = tt

abbrev low_text : Text → Option (ℕ × Text)
low_text t = consume 0x5c t >>= consume b'u' >>= parse_hex_code_unit

low_text-le :
    (t : Text) {low : ℕ} {behind : Text}
    → low_text t ≡ some (low, behind)
    → length behind ≤ length t
low_text-le t {low} {behind} h = elim (Option-cases (consume 0x5c t)) [
  | inl e ↦ ground arith
  | inr (u, e) ↦ elim (Option-cases (consume b'u' u)) [
    | inl f ↦ ground arith
    | inr (v, f) ↦
        ground (arith, consume-lt 0x5c t e, consume-lt b'u' u f, hex-le v {u = low} {r = behind})
  ]
]

low_half-Leaves : (high : ℕ) (t : Text) → Leaves (length t) (low_half high t)
unfolding low_half
low_half-Leaves high t = elim (Option-cases (low_text t)) [
  | inl e ↦ ground arith
  | inr ((low, behind), e) ↦ ground (arith, low_text-le t e)
]

unicode_step-Leaves : (t : Text) → Leaves (length t) (unicode_step t)
unfolding unicode_step
unicode_step-Leaves t = elim (Option-cases (parse_hex_code_unit t)) [
  | inl e ↦ ground arith
  | inr ((unit, rest), e) ↦
      ground (arith, hex-le t e, low_half-Leaves unit rest, Leaves-mono (low_half unit rest))
]

escape_step-Leaves : (t : Text) → Leaves (length t) (escape_step t)
unfolding escape_step
escape_step-Leaves [] = tt
escape_step-Leaves (e ∷ rest) =
    ground (arith, unicode_step-Leaves rest, Leaves-mono (unicode_step rest))

plain_step-Leaves : (c : ℕ) (t : Text) → Leaves (length t) (plain_step c t)
unfolding plain_step
plain_step-Leaves c [] = ground arith
plain_step-Leaves c (d ∷ rest) = ground arith

string_step-Leaves : (c : ℕ) (t : Text) → Leaves (length t) (string_step (c ∷ t))
unfolding string_step
string_step-Leaves c t = ground (arith, escape_step-Leaves t, plain_step-Leaves c t)

StringStep-cases :
    (s : StringStep)
    → ((rest : Text) × (s ≡ closed rest))
      ⊎ ((units : Text) × (rest : Text) × (s ≡ appended units rest))
      ⊎ (s ≡ refused)
StringStep-cases (closed rest) = inl (rest, refl)
StringStep-cases (appended units rest) = inr (inl (units, rest, refl))
StringStep-cases refused = inr (inr refl)

pub StringScan-cases :
    (s : StringScan)
    → ((out : Text) × (rest : Text) × (s ≡ string_done out rest))
      ⊎ (s ≡ string_refused)
      ⊎ (s ≡ string_stuck)
StringScan-cases (string_done out rest) = inl (out, rest, refl)
StringScan-cases string_refused = inr (inl refl)
StringScan-cases string_stuck = inr (inr refl)

-- The loop of `parseString`
string_loop-total : (n : ℕ) (t d : Text) → length t < n → string_loop n t d ≢ string_stuck
unfolding string_loop
string_loop-total zero t d h = absurd (omega arith)
string_loop-total (suc n) [] d h = unfold string_step in ground arith
string_loop-total (suc n) (c ∷ t) d h =
    let leaves = string_step-Leaves c t in
    elim (StringStep-cases (string_step (c ∷ t))) [
      | inl (rest, e) ↦ ground arith
      | inr (inl (units, rest, e)) ↦ ground (arith, string_loop-total n rest (d ++ units))
      | inr (inr e) ↦ ground arith
    ]

string_loop-lt :
    (n : ℕ) (t d : Text) {out rest : Text}
    → string_loop n t d ≡ string_done out rest
    → length rest < length t
unfolding string_loop string_step
string_loop-lt zero t d h = ground arith
string_loop-lt (suc n) [] d h = ground arith
string_loop-lt (suc n) (c ∷ t) d {out} {rest} h =
    let leaves = string_step-Leaves c t in
    elim (StringStep-cases (string_step (c ∷ t))) [
      | inl (behind, e) ↦ ground arith
      | inr (inl (units, behind, e)) ↦
          ground (arith, string_loop-lt n behind (d ++ units) {out = out} {rest = rest})
      | inr (inr e) ↦ ground arith
    ]

pub parse_string-total : (t : Text) → parse_string t ≢ string_stuck
unfolding parse_string
parse_string-total t = elim (Option-cases (consume 0x22 t)) [
  | inl e ↦ λ h. ground arith
  | inr (rest, e) ↦ λ h. ground (arith, string_loop-total (suc (length rest)) rest [])
]

pub parse_string-lt :
    (t : Text) {out rest : Text} → parse_string t ≡ string_done out rest → length rest < length t
unfolding parse_string
parse_string-lt t {out} {rest} h = elim (Option-cases (consume 0x22 t)) [
  | inl e ↦ ground arith
  | inr (u, e) ↦
      ground
        (arith, consume-lt 0x22 t e, string_loop-lt (suc (length u)) u [] {out = out} {rest = rest})
]

skip_digits-le : (t : Text) → length (skip_digits t) ≤ length t
unfolding skip_digits
skip_digits-le [] = omega arith
skip_digits-le (c ∷ cs) = ground (arith, skip_digits-le cs)

digits-lt : (t : Text) {r : Text} → digits t ≡ some r → length r < length t
unfolding digits skip_digits
digits-lt [] h = ground arith
digits-lt (c ∷ cs) h = ground (arith, skip_digits-le cs)

fraction_part-le : (t : Text) {r : Text} → fraction_part t ≡ some r → length r ≤ length t
unfolding fraction_part
fraction_part-le t {r} h = elim (Option-cases (consume b'.' t)) [
  | inl e ↦ ground arith
  | inr (u, e) ↦ ground (arith, consume-lt b'.' t e, digits-lt u {r = r})
]

skip_sign-le : (t : Text) → length (skip_sign t) ≤ length t
unfolding skip_sign
skip_sign-le [] = omega arith
skip_sign-le (c ∷ cs) = ground arith

exponent_part-le : (t : Text) {r : Text} → exponent_part t ≡ some r → length r ≤ length t
unfolding exponent_part
exponent_part-le [] h = ground arith
exponent_part-le (c ∷ cs) {r} h = ground (arith, digits-lt (skip_sign cs) {r = r}, skip_sign-le cs)

skip_minus-le : (t : Text) → length (skip_minus t) ≤ length t
unfolding skip_minus
skip_minus-le [] = omega arith
skip_minus-le (c ∷ cs) = ground arith

module _ (is_digit : ℕ → Bool) where
  integer_part-lt : (t : Text) {r : Text} → integer_part is_digit t ≡ some r → length r < length t
  unfolding integer_part
  integer_part-lt t {r} h = elim (Option-cases (consume b'0' t)) [
    | inl e ↦ ground (arith, digits-lt t {r = r})
    | inr (u, e) ↦ ground (arith, consume-lt b'0' t e)
  ]

  pub parse_number-lt :
      (t : Text) {r : Text} → parse_number is_digit t ≡ some r → length r < length t
  unfolding parse_number
  parse_number-lt t {r} h = elim (Option-cases (integer_part is_digit (skip_minus t))) [
    | inl e ↦ ground arith
    | inr (u, e) ↦ elim (Option-cases (fraction_part u)) [
      | inl f ↦ ground arith
      | inr (v, f) ↦ ground (
        arith,
        integer_part-lt (skip_minus t) e,
        skip_minus-le t,
        fraction_part-le u f,
        exponent_part-le v {r = r},
      )
    ]
  ]

pub parse_keyword-lt :
    (r : Reader) {r' : Reader} → parse_keyword r ≡ done r' → length r'.rest < length r.rest
unfolding parse_keyword
parse_keyword-lt r {r'} h = ground (
  arith,
  consume_keyword-le (codes "true") r.rest {r = r'.rest},
  consume_keyword-le (codes "false") r.rest {r = r'.rest},
  consume_keyword-le (codes "null") r.rest {r = r'.rest},
)

pub parse_keyword-total : (r : Reader) → parse_keyword r ≢ stuck
unfolding parse_keyword
parse_keyword-total r = λ h. ground arith

pub parse_member-lt :
    (members : List Text) (r : Reader) {name : Text} {v : Reader}
    → parse_member members r ≡ member_done name v
    → length v.rest < length r.rest
unfolding parse_member
parse_member-lt members r {name} {v} h = elim (StringScan-cases (parse_string r.rest)) [
  | inl (out, rest, e) ↦ elim (Option-cases (consume b':' (skip_whitespace rest))) [
    | inl f ↦ ground arith
    | inr (behind, f) ↦ ground (
      arith,
      parse_string-lt r.rest e,
      skip_whitespace-le rest,
      consume-lt b':' (skip_whitespace rest) f,
      skip_whitespace-le behind,
    )
  ]
  | inr (inl e) ↦ ground arith
  | inr (inr e) ↦ ground arith
]

pub parse_member-total : (members : List Text) (r : Reader) → parse_member members r ≢ member_stuck
unfolding parse_member
parse_member-total members r = λ h. ground (arith, parse_string-total r.rest)
