-- ===== src/Tabs/Invariant/Lookup.antt =====
-- Tabs found by their identifier, and lists of tabs whose identifiers differ.
use q_browser.Base.{
  ℕ, zero, suc, ◌<◌, true, false, none, some, List, [], ◌∷◌, ◌++◌, ◌≡◌, refl, arith, length,
  get_elem?, set, remove_at, insert_at, All, if◌then◌else◌, Bool-cases, Option-cases, inl, inr,
}
use mathlib.Core.Path.{subst}
use mathlib.Core.Option.{some-injective}
use q_browser.Base.Text.{Text, text_eq, text_eq_iff}
use q_browser.Tabs.{TabState, find_tab, has_tab}

pub find_tab-found :
    (id : Text) (tabs : List TabState) {i : ℕ} {tab : TabState}
    → find_tab id tabs ≡ some (i, tab)
    → (get_elem? tabs i ≡ some tab) × (tab.snapshot.id ≡ id) × (i < length tabs)
unfolding find_tab
find_tab-found id [] h = cc
find_tab-found id (t ∷ tabs) {i} {tab} h = elim (Bool-cases (text_eq t.snapshot.id id)) [
  | inl e ↦ ground (arith, text_eq_iff t.snapshot.id id)
  | inr e ↦ elim (Option-cases (find_tab id tabs)) [
    | inl n ↦ ground arith
    | inr ((j, found), n) ↦ ground (arith, find_tab-found id tabs n)
  ]
]

-- No two tabs have the same identifier.
abbrev pub Distinct : List TabState → Type 0
Distinct [] = Unit
Distinct (t ∷ tabs) = (find_tab t.snapshot.id tabs ≡ none) × Distinct tabs

-- The tab at a place is the one that its identifier finds.
pub find_tab-get_elem? :
    (tabs : List TabState) (i : ℕ) {tab : TabState}
    → Distinct tabs
    → get_elem? tabs i ≡ some tab
    → find_tab tab.snapshot.id tabs ≡ some (i, tab)
unfolding find_tab
find_tab-get_elem? [] i d h = cc
find_tab-get_elem? (t ∷ tabs) zero {tab} d h =
    ground (arith, text_eq_iff t.snapshot.id t.snapshot.id)
find_tab-get_elem? (t ∷ tabs) (suc i) {tab} d h =
    ground (arith, text_eq_iff t.snapshot.id tab.snapshot.id, find_tab-get_elem? tabs i d.1 h)

-- A tab is replaced by one with the same identifier.
pub has_tab-set :
    (id : Text) (tabs : List TabState) (i : ℕ) {old : TabState} (new : TabState)
    → get_elem? tabs i ≡ some old
    → new.snapshot.id ≡ old.snapshot.id
    → has_tab id (set tabs i new) ≡ has_tab id tabs
unfolding find_tab
has_tab-set id [] i new h e = cc
has_tab-set id (t ∷ tabs) zero new h e = ground arith
has_tab-set id (t ∷ tabs) (suc i) new h e = ground (arith, has_tab-set id tabs i new h e)

pub Distinct-set :
    (tabs : List TabState) (i : ℕ) {old : TabState} (new : TabState)
    → get_elem? tabs i ≡ some old
    → new.snapshot.id ≡ old.snapshot.id
    → Distinct tabs
    → Distinct (set tabs i new)
Distinct-set [] i new h e d = tt
Distinct-set (t ∷ tabs) zero {old} new h e d = ground arith
Distinct-set (t ∷ tabs) (suc i) {old} new h e d =
    ground (arith, has_tab-set t.snapshot.id tabs i new h e, Distinct-set tabs i new h e d.1)

pub find_tab-append :
    (id : Text) (tabs more : List TabState)
    → has_tab id (tabs ++ more) ≡ (if has_tab id tabs then true else has_tab id more)
unfolding find_tab
find_tab-append id [] more = refl
find_tab-append id (t ∷ tabs) more = ground (arith, find_tab-append id tabs more)

pub Distinct-concat :
    (tabs : List TabState) (t : TabState)
    → has_tab t.snapshot.id tabs ≡ false
    → Distinct tabs
    → Distinct (tabs ++ t ∷ [])
unfolding find_tab
Distinct-concat [] t h d = (refl, tt)
Distinct-concat (x ∷ tabs) t h d = ground (
  arith,
  find_tab-append x.snapshot.id tabs (t ∷ []),
  Distinct-concat tabs t,
  text_eq_iff x.snapshot.id t.snapshot.id,
  text_eq_iff t.snapshot.id x.snapshot.id,
)

-- A tab that is taken out is found no more, and any other as before.
pub has_tab-remove_at :
    (id : Text) (tabs : List TabState) (i : ℕ) {t : TabState}
    → Distinct tabs
    → get_elem? tabs i ≡ some t
    → has_tab id (remove_at tabs i) ≡ (if text_eq t.snapshot.id id then false else has_tab id tabs)
unfolding find_tab
has_tab-remove_at id [] i d h = cc
has_tab-remove_at id (x ∷ tabs) zero {t} d h = ground (arith, text_eq_iff x.snapshot.id id)
has_tab-remove_at id (x ∷ tabs) (suc i) {t} d h = ground (
  arith,
  has_tab-remove_at id tabs i d.1 h,
  text_eq_iff x.snapshot.id id,
  text_eq_iff t.snapshot.id id,
  find_tab-get_elem? tabs i d.1 h,
)

pub Distinct-remove_at :
    (tabs : List TabState) (i : ℕ) {t : TabState}
    → get_elem? tabs i ≡ some t
    → Distinct tabs
    → Distinct (remove_at tabs i)
Distinct-remove_at [] i h d = tt
Distinct-remove_at (x ∷ tabs) zero h d = d.1
Distinct-remove_at (x ∷ tabs) (suc i) h d =
    ground (arith, has_tab-remove_at x.snapshot.id tabs i d.1 h, Distinct-remove_at tabs i h d.1)

pub has_tab-insert_at :
    (id : Text) (tabs : List TabState) (i : ℕ) (t : TabState)
    → has_tab id (insert_at tabs i t) ≡ (if text_eq t.snapshot.id id then true else has_tab id tabs)
unfolding find_tab
has_tab-insert_at id tabs zero t = ground arith
has_tab-insert_at id [] (suc i) t = ground arith
has_tab-insert_at id (x ∷ tabs) (suc i) t = ground (arith, has_tab-insert_at id tabs i t)

pub Distinct-insert_at :
    (tabs : List TabState) (i : ℕ) (t : TabState)
    → has_tab t.snapshot.id tabs ≡ false
    → Distinct tabs
    → Distinct (insert_at tabs i t)
unfolding find_tab
Distinct-insert_at tabs zero t h d = ground arith
Distinct-insert_at [] (suc i) t h d = (refl, tt)
Distinct-insert_at (x ∷ tabs) (suc i) t h d = ground (
  arith,
  has_tab-insert_at x.snapshot.id tabs i t,
  Distinct-insert_at tabs i t,
  text_eq_iff x.snapshot.id t.snapshot.id,
  text_eq_iff t.snapshot.id x.snapshot.id,
)

module _ {ℓ} (P : TabState → Type ℓ) where
  pub All-get_elem? :
      (tabs : List TabState) (i : ℕ) {t : TabState} → All P tabs → get_elem? tabs i ≡ some t → P t
  All-get_elem? [] i a h = cc
  All-get_elem? (x ∷ tabs) zero {t} a h = subst P (some-injective x t h) a.0
  All-get_elem? (x ∷ tabs) (suc i) a h = All-get_elem? tabs i a.1 h

  pub All-set :
      (tabs : List TabState) (i : ℕ) (t : TabState) → All P tabs → P t → All P (set tabs i t)
  All-set [] i t a p = tt
  All-set (x ∷ tabs) zero t a p = (p, a.1)
  All-set (x ∷ tabs) (suc i) t a p = (a.0, All-set tabs i t a.1 p)

  pub All-remove_at : (tabs : List TabState) (i : ℕ) → All P tabs → All P (remove_at tabs i)
  All-remove_at [] i a = tt
  All-remove_at (x ∷ tabs) zero a = a.1
  All-remove_at (x ∷ tabs) (suc i) a = (a.0, All-remove_at tabs i a.1)

  pub All-insert_at :
      (tabs : List TabState) (i : ℕ) (t : TabState) → All P tabs → P t → All P (insert_at tabs i t)
  All-insert_at tabs zero t a p = (p, a)
  All-insert_at [] (suc i) t a p = (p, tt)
  All-insert_at (x ∷ tabs) (suc i) t a p = (a.0, All-insert_at tabs i t a.1 p)
