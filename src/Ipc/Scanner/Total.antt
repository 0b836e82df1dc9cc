-- ===== src/Ipc/Scanner/Total.antt =====
-- The fuel of the scanner is enough.
use q_browser.Base.{
  ℕ, zero, suc, ◌+◌, ◌*◌, ◌≤◌, ◌<◌, Bool, none, List, [], ◌∷◌, ◌≡◌, ◌≢◌, ◌⊎◌, inl, inr, refl, arith,
  length, Option-cases,
}
use q_browser.Base.Text.{Text}
use q_browser.Ipc.Scanner.{
  StrictScanResult, Reader, Scan, done, halt, stuck, parse_string, skip_whitespace, consume,
  parse_number, MemberScan, member_done, member_halt, member_stuck, parse_member, after_open,
  after_item, ValueKind, object_value, array_value, string_value, number_value, keyword_value,
  value_kind, parse_value, parse_members, parse_elements, scan,
}
use q_browser.Ipc.Scanner.Shorter.{
  skip_whitespace-le, consume-lt, parse_string-total, parse_string-lt, parse_number-lt,
  parse_keyword-lt, parse_keyword-total, parse_member-lt, parse_member-total, StringScan-cases,
}

-- A continuation of the scan leaves less than it is given.
abbrev Shortens : (Reader → Scan) → Type 0
Shortens k = (r r' : Reader) → k r ≡ done r' → length r'.rest < length r.rest

after_open-lt :
    (close : ℕ) (r : Reader) (k : Reader → Scan) {r' : Reader}
    → Shortens k
    → after_open close r k ≡ done r'
    → length r'.rest ≤ length r.rest
unfolding after_open
after_open-lt close r k {r'} s h =
    let text = skip_whitespace r.rest in
    elim (Option-cases (consume close text)) [
      | inl e ↦ ground (arith, skip_whitespace-le r.rest, s (record r { rest = text }) r')
      | inr (rest, e) ↦ ground (arith, skip_whitespace-le r.rest, consume-lt close text e)
    ]

after_item-lt :
    (close : ℕ) (r : Reader) (k : Reader → Scan) {r' : Reader}
    → Shortens k
    → after_item close r k ≡ done r'
    → length r'.rest < length r.rest
unfolding after_item
after_item-lt close r k {r'} s h =
    let text = skip_whitespace r.rest in
    elim (Option-cases (consume close text)) [
      | inl e ↦ elim (Option-cases (consume b',' text)) [
        | inl f ↦ ground arith
        | inr (rest, f) ↦ ground (
          arith,
          skip_whitespace-le r.rest,
          consume-lt b',' text f,
          skip_whitespace-le rest,
          s (record r { rest = skip_whitespace rest }) r',
        )
      ]
      | inr (rest, e) ↦ ground (arith, skip_whitespace-le r.rest, consume-lt close text e)
    ]

Scan-cases :
    (s : Scan)
    → ((r : Reader) × (s ≡ done r)) ⊎ ((e : StrictScanResult) × (s ≡ halt e)) ⊎ (s ≡ stuck)
Scan-cases (done r) = inl (r, refl)
Scan-cases (halt e) = inr (inl (e, refl))
Scan-cases stuck = inr (inr refl)

MemberScan-cases :
    (s : MemberScan)
    → ((name : Text) × (r : Reader) × (s ≡ member_done name r))
      ⊎ ((e : StrictScanResult) × (s ≡ member_halt e))
      ⊎ (s ≡ member_stuck)
MemberScan-cases (member_done name r) = inl (name, r, refl)
MemberScan-cases (member_halt e) = inr (inl (e, refl))
MemberScan-cases member_stuck = inr (inr refl)

ValueKind-cases :
    (k : ValueKind)
    → ((rest : Text) × (k ≡ object_value rest))
      ⊎ ((rest : Text) × (k ≡ array_value rest))
      ⊎ (k ≡ string_value)
      ⊎ (k ≡ number_value)
      ⊎ (k ≡ keyword_value)
ValueKind-cases (object_value rest) = inl (rest, refl)
ValueKind-cases (array_value rest) = inr (inl (rest, refl))
ValueKind-cases string_value = inr (inr (inl refl))
ValueKind-cases number_value = inr (inr (inr (inl refl)))
ValueKind-cases keyword_value = inr (inr (inr (inr refl)))

object-lt : (t : Text) {rest : Text} → value_kind t ≡ object_value rest → length rest < length t
unfolding value_kind
object-lt [] h = ground arith
object-lt (c ∷ cs) h = ground arith

array-lt : (t : Text) {rest : Text} → value_kind t ≡ array_value rest → length rest < length t
unfolding value_kind
array-lt [] h = ground arith
array-lt (c ∷ cs) h = ground arith

module _ (is_digit : ℕ → Bool) where
  mutual
    unfolding parse_value parse_members parse_elements

    -- A value takes some of the text.
    parse_value-lt : (f n : ℕ) → Shortens (parse_value is_digit f n)
    parse_value-lt zero n r r' h = ground arith
    parse_value-lt (suc f) n r r' h = elim (ValueKind-cases (value_kind r.rest)) [
      | inl (rest, e) ↦ ground (
        arith,
        object-lt r.rest e,
        after_open-lt b'}' (record r { rest = rest }) (parse_members is_digit f (suc n) [])
            {r' = r'} (parse_members-lt f (suc n) []),
      )
      | inr (inl (rest, e)) ↦ ground (
        arith,
        array-lt r.rest e,
        after_open-lt b']' (record r { rest = rest }) (parse_elements is_digit f (suc n)) {r' = r'}
            (parse_elements-lt f (suc n)),
      )
      | inr (inr (inl e)) ↦ elim (StringScan-cases (parse_string r.rest)) [
        | inl (out, rest, g) ↦ ground (arith, parse_string-lt r.rest g)
        | inr (inl g) ↦ ground arith
        | inr (inr g) ↦ ground arith
      ]
      | inr (inr (inr (inl e))) ↦ elim (Option-cases (parse_number is_digit r.rest)) [
        | inl g ↦ ground arith
        | inr (rest, g) ↦ ground (arith, parse_number-lt is_digit r.rest g)
      ]
      | inr (inr (inr (inr e))) ↦ ground (arith, parse_keyword-lt r {r' = r'})
    ]

    parse_members-lt :
        (f n : ℕ) (members : List Text) → Shortens (parse_members is_digit f n members)
    parse_members-lt zero n members r r' h = ground arith
    parse_members-lt (suc f) n members r r' h = elim (MemberScan-cases (parse_member members r)) [
      | inl (name, v, e) ↦ elim (Scan-cases (parse_value is_digit f n v)) [
        | inl (w, g) ↦ ground (
          arith,
          parse_member-lt members r e,
          parse_value-lt f n v w g,
          after_item-lt b'}' w (parse_members is_digit f n (name ∷ members)) {r' = r'}
              (parse_members-lt f n (name ∷ members)),
        )
        | inr (inl (x, g)) ↦ ground arith
        | inr (inr g) ↦ ground arith
      ]
      | inr (inl (x, e)) ↦ ground arith
      | inr (inr e) ↦ ground arith
    ]

    parse_elements-lt : (f n : ℕ) → Shortens (parse_elements is_digit f n)
    parse_elements-lt zero n r r' h = ground arith
    parse_elements-lt (suc f) n r r' h =
        let v : Reader = record r { entries = suc r.entries } in
        elim (Scan-cases (parse_value is_digit f n v)) [
          | inl (w, g) ↦ ground (
            arith,
            parse_value-lt f n v w g,
            after_item-lt b']' w (parse_elements is_digit f n) {r' = r'} (parse_elements-lt f n),
          )
          | inr (inl (x, g)) ↦ ground arith
          | inr (inr g) ↦ ground arith
        ]

-- A continuation of the scan does not run out of fuel on less than `n` code units.
abbrev IsTotalBelow : ℕ → (Reader → Scan) → Type 0
IsTotalBelow n k = (r : Reader) → length r.rest < n → k r ≢ stuck

after_open-total :
    (close : ℕ) (r : Reader) (k : Reader → Scan)
    → IsTotalBelow (suc (length r.rest)) k
    → after_open close r k ≢ stuck
unfolding after_open
after_open-total close r k t = λ h.
    let text = skip_whitespace r.rest in
    elim (Option-cases (consume close text)) [
      | inl e ↦ ground (
        arith,
        skip_whitespace-le r.rest,
        t (record r { rest = text }) (omega (arith, skip_whitespace-le r.rest)),
      )
      | inr (rest, e) ↦ ground arith
    ]

after_item-total :
    (close : ℕ) (r : Reader) (k : Reader → Scan)
    → IsTotalBelow (length r.rest) k
    → after_item close r k ≢ stuck
unfolding after_item
after_item-total close r k t = λ h.
    let text = skip_whitespace r.rest in
    elim (Option-cases (consume close text)) [
      | inl e ↦ elim (Option-cases (consume b',' text)) [
        | inl f ↦ ground arith
        | inr (rest, f) ↦ ground (
          arith,
          t (record r { rest = skip_whitespace rest })
              (omega (
                arith,
                skip_whitespace-le r.rest,
                consume-lt b',' text f,
                skip_whitespace-le rest,
              )),
        )
      ]
      | inr (rest, e) ↦ ground arith
    ]

module _ (is_digit : ℕ → Bool) where
  mutual
    unfolding parse_value parse_members parse_elements

    parse_value-total :
        (f n : ℕ) (r : Reader) → 2 * length r.rest < f → parse_value is_digit f n r ≢ stuck
    parse_value-total zero n r b = absurd (omega arith)
    parse_value-total (suc f) n r b = λ h. elim (ValueKind-cases (value_kind r.rest)) [
      | inl (rest, e) ↦
          let less = object-lt r.rest e in
          ground (
            arith,
            after_open-total b'}' (record r { rest = rest }) (parse_members is_digit f (suc n) [])
                (λ s k. parse_members-total f (suc n) [] s (omega arith)),
          )
      | inr (inl (rest, e)) ↦
          let less = array-lt r.rest e in
          ground (
            arith,
            after_open-total b']' (record r { rest = rest }) (parse_elements is_digit f (suc n))
                (λ s k. parse_elements-total f (suc n) s (omega arith)),
          )
      | inr (inr (inl e)) ↦ ground (arith, parse_string-total r.rest)
      | inr (inr (inr (inl e))) ↦ ground arith
      | inr (inr (inr (inr e))) ↦ ground (arith, parse_keyword-total r)
    ]

    parse_members-total :
        (f n : ℕ) (members : List Text) (r : Reader)
        → 2 * length r.rest < f
        → parse_members is_digit f n members r ≢ stuck
    parse_members-total zero n members r b = absurd (omega arith)
    parse_members-total (suc f) n members r b = λ h.
        elim (MemberScan-cases (parse_member members r)) [
          | inl (name, v, e) ↦
              let less = parse_member-lt members r e in
              elim (Scan-cases (parse_value is_digit f n v)) [
                | inl (w, g) ↦
                    let fewer = parse_value-lt is_digit f n v w g in
                    ground (
                      arith,
                      after_item-total b'}' w (parse_members is_digit f n (name ∷ members))
                          (λ s k. parse_members-total f n (name ∷ members) s (omega arith)),
                    )
                | inr (inl (x, g)) ↦ ground arith
                | inr (inr g) ↦ ground (arith, parse_value-total f n v)
              ]
          | inr (inl (x, e)) ↦ ground arith
          | inr (inr e) ↦ ground (arith, parse_member-total members r)
        ]

    parse_elements-total :
        (f n : ℕ) (r : Reader) → suc (2 * length r.rest) < f → parse_elements is_digit f n r ≢ stuck
    parse_elements-total zero n r b = absurd (omega arith)
    parse_elements-total (suc f) n r b = λ h.
        let v : Reader = record r { entries = suc r.entries } in
        elim (Scan-cases (parse_value is_digit f n v)) [
          | inl (w, g) ↦
              let fewer = parse_value-lt is_digit f n v w g in
              ground (
                arith,
                after_item-total b']' w (parse_elements is_digit f n)
                    (λ s k. parse_elements-total f n s (omega arith)),
              )
          | inr (inl (x, g)) ↦ ground arith
          | inr (inr g) ↦ ground (arith, parse_value-total f n v)
        ]

  -- The scanner ends on every text: its fuel is enough.
  pub scan-total : (text : Text) → scan is_digit text ≢ none
  unfolding scan
  scan-total text = λ h. ground (
    arith,
    skip_whitespace-le text,
    parse_value-total (2 * length text + 1) 0 (record { rest = skip_whitespace text; entries = 0 }),
  )
