-- ===== src/Tabs/Invariant/Snapshots.antt =====
-- The snapshots that the methods store are those that a restored session accepts.
use q_browser.Base.{
  ℕ, zero, suc, ◌+◌, ◌-◌, ◌<◌, ◌≤◌, Bool, true, false, ◌&&◌, some, List, [], ◌∷◌, ◌++◌, ◌≡◌, refl,
  arith, length, get_elem?, take, drop, length-append, length-drop, get_elem?-lt,
}
use q_browser.Base.Int.{ℤ, pos}
use q_browser.Base.Text.{Text, text_eq_iff}
use q_browser.Tabs.Title.{canonical_title}
use q_browser.Tabs.Title.Canonical.{canonical_title_idem}
use q_browser.Tabs.Methods.{visit, push_history, at_entry, kept_entries}
use q_browser.Tabs.Restore.{is_valid_id, no_empty_entry, is_valid_restored_snapshot}
use q_browser.Tabs.{
  BrowserTabSnapshot, BrowserTabKind, TabState, is_empty, max_history_entries, apply_validated_kind,
}

nonempty-is_empty : (xs : List Text) → 0 < length xs → is_empty xs ≡ false
nonempty-is_empty [] h = absurd (omega arith)
nonempty-is_empty (x ∷ xs) h = refl

no_empty_entry-append :
    (xs ys : List Text) → no_empty_entry (xs ++ ys) ≡ (no_empty_entry xs && no_empty_entry ys)
unfolding no_empty_entry
no_empty_entry-append [] ys = refl
no_empty_entry-append (x ∷ xs) ys = ground (arith, no_empty_entry-append xs ys)

no_empty_entry-take :
    (n : ℕ) (xs : List Text) → no_empty_entry xs ≡ true → no_empty_entry (take n xs) ≡ true
unfolding no_empty_entry
no_empty_entry-take zero xs h = refl
no_empty_entry-take (suc n) [] h = refl
no_empty_entry-take (suc n) (x ∷ xs) h = ground (arith, no_empty_entry-take n xs)

no_empty_entry-drop :
    (n : ℕ) (xs : List Text) → no_empty_entry xs ≡ true → no_empty_entry (drop n xs) ≡ true
unfolding no_empty_entry
no_empty_entry-drop zero xs h = h
no_empty_entry-drop (suc n) [] h = refl
no_empty_entry-drop (suc n) (x ∷ xs) h = ground (arith, no_empty_entry-drop n xs)

no_empty_entry-get_elem? :
    (xs : List Text) (k : ℕ) {e : Text}
    → no_empty_entry xs ≡ true
    → get_elem? xs k ≡ some e
    → is_empty e ≡ false
unfolding no_empty_entry
no_empty_entry-get_elem? [] k h g = cc
no_empty_entry-get_elem? (x ∷ xs) zero h g = ground arith
no_empty_entry-get_elem? (x ∷ xs) (suc k) h g = no_empty_entry-get_elem? xs k (ground arith) g

get_elem?_last : (xs : List Text) (a : Text) → get_elem? (xs ++ a ∷ []) (length xs) ≡ some a
get_elem?_last [] a = refl
get_elem?_last (x ∷ xs) a = get_elem?_last xs a

-- The last entry stays the last when older ones are dropped.
get_elem?_last_dropped :
    (n : ℕ) (xs : List Text) (a : Text) (k : ℕ)
    → k + n ≡ length xs
    → get_elem? (drop n (xs ++ a ∷ [])) k ≡ some a
get_elem?_last_dropped zero xs a k h =
    let e : k ≡ length xs = omega arith in rw e (get_elem?_last xs a)
get_elem?_last_dropped (suc n) [] a k h = absurd (omega arith)
get_elem?_last_dropped (suc n) (x ∷ xs) a k h = get_elem?_last_dropped n xs a k (omega arith)

-- What `navigateTab` makes of a history: the new address is its last entry and the current one.
pub record IsVisit (history : List Text) (address : Text) : Type 0 where
  pub bounded : length history ≤ max_history_entries
  pub ends : get_elem? history (length history - 1) ≡ some address
  pub nonempty : 0 < length history

pub push_history-IsVisit :
    (history : List Text) (index : ℤ) (address : Text)
    → IsVisit (push_history history index address) address
push_history-IsVisit history index address =
    let old = take (kept_entries index) history in
    let more = old ++ address ∷ [] in
    let n = length more - max_history_entries in
    let len = length-append old (address ∷ []) in
    let dropped = length-drop n more in
    record {
      bounded = omega arith;
      ends = get_elem?_last_dropped n old address (length (drop n more) - 1) (omega arith);
      nonempty = omega arith;
    }

single_entry : (a : Text) → is_empty a ≡ false → no_empty_entry (a ∷ []) ≡ true
unfolding no_empty_entry
single_entry a e = ground arith

push_history-no_empty_entry :
    (history : List Text) (index : ℤ) (address : Text)
    → no_empty_entry history ≡ true
    → is_empty address ≡ false
    → no_empty_entry (push_history history index address) ≡ true
push_history-no_empty_entry history index address h e =
    let old = take (kept_entries index) history in
    no_empty_entry-drop _ (old ++ address ∷ []) (
      ground (
        arith,
        no_empty_entry-append old (address ∷ []),
        no_empty_entry-take (kept_entries index) history h,
        single_entry address e,
      ))

module _ (is_control : ℕ → Bool) where
  abbrev pub IsStored : BrowserTabSnapshot → Type 0
  IsStored s = is_valid_restored_snapshot is_control s ≡ true

  -- A visit to another address
  pub visit-IsStored :
      (s : BrowserTabSnapshot) (address : Text)
      → is_empty address ≡ false
      → IsStored s
      → IsStored (visit s address)
  unfolding visit is_valid_restored_snapshot
  visit-IsStored s address e h =
      let history = push_history s.history s.history_index address in
      let v = push_history-IsVisit s.history s.history_index address in
      ground (
        arith,
        v.bounded,
        v.ends,
        v.nonempty,
        push_history-no_empty_entry s.history s.history_index address,
        text_eq_iff address address,
        nonempty-is_empty history v.nonempty,
      )

  -- A step in the history
  pub at_entry-IsStored :
      (s : BrowserTabSnapshot) (k : ℕ) → k < length s.history → IsStored s → IsStored (at_entry s k)
  unfolding is_valid_restored_snapshot
  at_entry-IsStored s k b h =
      let (a, e) = get_elem?-lt s.history k b in
      ground (arith, e, text_eq_iff a a, no_empty_entry-get_elem? s.history k {e = a})

  pub kind-IsStored :
      (tab : TabState) (kind : BrowserTabKind)
      → IsStored tab.snapshot
      → IsStored (apply_validated_kind tab kind).snapshot
  unfolding apply_validated_kind is_valid_restored_snapshot
  kind-IsStored tab kind h = ground arith

  pub title-IsStored :
      (s : BrowserTabSnapshot) (title : Text) {safe : Text}
      → canonical_title is_control title ≡ some safe
      → IsStored s
      → IsStored (record s { title = safe })
  unfolding is_valid_restored_snapshot
  title-IsStored s title {safe} c h =
      ground (arith, (canonical_title_idem is_control title c).2, text_eq_iff safe safe)

  pub new-IsStored :
      (id : Text) (kind : BrowserTabKind) (title address : Text) {safe : Text}
      → is_valid_id id ≡ true
      → is_empty address ≡ false
      → canonical_title is_control title ≡ some safe
      → IsStored (record {
        id = id;
        kind = kind;
        title = safe;
        address = address;
        history = address ∷ [];
        history_index = pos 0;
      })
  unfolding is_valid_restored_snapshot no_empty_entry
  new-IsStored id kind title address {safe} i e c = ground (
    arith,
    (canonical_title_idem is_control title c).2,
    text_eq_iff safe safe,
    text_eq_iff address address,
  )

  pub id-IsStored :
      (s : BrowserTabSnapshot) (id : Text)
      → is_valid_id id ≡ true
      → IsStored s
      → IsStored (record s { id = id })
  unfolding is_valid_restored_snapshot
  id-IsStored s id i h = ground arith
