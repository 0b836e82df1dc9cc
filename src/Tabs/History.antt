-- ===== src/Tabs/History.antt =====
-- The history of one tab: `navigateTab`, `goBack` and `goForward` of apps/host/BrowserTabModel.cpp.
use q_browser.Base.{
  ℕ, zero, suc, ◌<◌, ◌≤◌, Bool, true, false, some, List, [], ◌∷◌, ◌++◌, ◌≡◌, refl, arith, length,
  Option-cases, inl, inr, get_elem?, set, take, get_elem?-bound,
}
use q_browser.Base.Int.{pos}
use q_browser.Base.Text.{Text, text_eq, text_eq_iff}
use q_browser.Tabs.Methods.{
  navigate_found, navigate_tab, visit, back, is_current_address, go_back, entry_at, has_back,
}
use q_browser.Tabs.Invariant.Lookup.{find_tab-found, All-get_elem?}
use q_browser.Tabs.Invariant.Snapshots.{IsStored}
use q_browser.Tabs.Invariant.Valid.{IsValid, IsStoredTab}
use q_browser.Tabs.Restore.{is_valid_restored_snapshot}
use q_browser.Tabs.{
  BrowserTabSnapshot, BrowserTabKind, TabState, BrowserTabModel, find_tab, apply_validated_kind,
  is_empty,
}

-- A tab that is replaced by one with the same identifier is found in its new form.
find_tab-set :
    (id : Text) (tabs : List TabState) {i : ℕ} {old : TabState} (new : TabState)
    → find_tab id tabs ≡ some (i, old)
    → new.snapshot.id ≡ old.snapshot.id
    → find_tab id (set tabs i new) ≡ some (i, new)
unfolding find_tab
find_tab-set id [] new e same = cc
find_tab-set id (t ∷ tabs) {i = zero} new e same = elim (Option-cases (find_tab id tabs)) [
  | inl n ↦ ground arith
  | inr (f, n) ↦ ground arith
]
find_tab-set id (t ∷ tabs) {i = suc i} {old = old} new e same =
    elim (Option-cases (find_tab id tabs)) [
      | inl n ↦ ground arith
      | inr ((j, f), n) ↦ ground (arith, find_tab-set id tabs {i = i} {old = old} new)
    ]

get_elem?-take :
    (n : ℕ) (xs more : List Text) {k : ℕ} {x : Text}
    → k < n
    → get_elem? xs k ≡ some x
    → get_elem? (take n xs ++ more) k ≡ some x
get_elem?-take zero xs more h e = absurd (omega arith)
get_elem?-take (suc n) [] more h e = absurd (ground arith)
get_elem?-take (suc n) (x ∷ xs) more {k = zero} h e = e
get_elem?-take (suc n) (x ∷ xs) more {k = suc k} h e =
    get_elem?-take n xs more {k = k} (omega arith) e

length_pushed :
    (n : ℕ) (xs : List Text) (a : Text) → n ≤ length xs → length (take n xs ++ a ∷ []) ≡ suc n
length_pushed zero xs a h = refl
length_pushed (suc n) [] a h = absurd (omega arith)
length_pushed (suc n) (x ∷ xs) a h = ground (arith, length_pushed n xs a)

-- A visit and the step back restore the current entry, where no entry had to be dropped.
back-visit :
    (s : BrowserTabSnapshot) (k : ℕ) (a : Text)
    → s.history_index ≡ pos k
    → get_elem? s.history k ≡ some s.address
    → k < 255
    → (has_back (visit s a) ≡ true)
      × ((back (visit s a)).address ≡ s.address)
      × ((back (visit s a)).history_index ≡ pos k)
unfolding visit
back-visit s k a i g h =
    let n = length_pushed (suc k) s.history a (get_elem?-bound s.history k g) in
    let there = get_elem?-take (suc k) s.history (a ∷ []) {k = k} (omega arith) g in
    ground (arith, n, there)

abbrev navigated : TabState → BrowserTabKind → Text → TabState
navigated tab kind a = apply_validated_kind (record tab { snapshot = visit tab.snapshot a }) kind

abbrev gone_back : TabState → BrowserTabKind → TabState
gone_back tab kind = apply_validated_kind (record tab { snapshot = back tab.snapshot }) kind

-- The kind of a tab has no bearing on the rest of its snapshot.
with_kind :
    (tab : TabState) (kind : BrowserTabKind)
    → (apply_validated_kind tab kind).snapshot ≡ record tab.snapshot { kind = kind }
unfolding apply_validated_kind
with_kind tab kind = ground arith

navigated_snapshot :
    (tab : TabState) (kind : BrowserTabKind) (a : Text)
    → (navigated tab kind a).snapshot ≡ record (visit tab.snapshot a) { kind = kind }
navigated_snapshot tab kind a = with_kind (record tab { snapshot = visit tab.snapshot a }) kind

visit_id : (s : BrowserTabSnapshot) (a : Text) → (visit s a).id ≡ s.id
unfolding visit
visit_id s a = refl

gone_back_snapshot :
    (tab : TabState) (kind kind' : BrowserTabKind) (a : Text)
    → (gone_back (navigated tab kind a) kind').snapshot
      ≡ record (back (visit tab.snapshot a)) { kind = kind' }
gone_back_snapshot tab kind kind' a =
    let there = navigated tab kind a in
    rw
      (
        with_kind (record there { snapshot = back there.snapshot }) kind',
        navigated_snapshot tab kind a,
      )
      ground arith

back_id : (s : BrowserTabSnapshot) → (back s).id ≡ s.id
back_id s = ground arith

navigate_tab-found :
    (m : BrowserTabModel) (id a : Text) (kind : BrowserTabKind) {i : ℕ} {tab : TabState}
    → m.mutation_in_progress ≡ false
    → find_tab id m.tabs ≡ some (i, tab)
    → is_empty a ≡ false
    → is_current_address tab.snapshot a ≡ false
    → (navigate_tab m id kind a).0 ≡ record m { tabs = set m.tabs i (navigated tab kind a) }
unfolding navigate_tab navigate_found
navigate_tab-found m id a kind quiet e ne other = ground arith

go_back-found :
    (m : BrowserTabModel) (id : Text) (kind : BrowserTabKind) {i : ℕ} {tab : TabState}
    → m.mutation_in_progress ≡ false
    → find_tab id m.tabs ≡ some (i, tab)
    → has_back tab.snapshot ≡ true
    → (go_back m id kind).0 ≡ record m { tabs = set m.tabs i (gone_back tab kind) }
unfolding go_back
go_back-found m id kind quiet e h = ground arith

current_entry :
    (is_control : ℕ → Bool) (s : BrowserTabSnapshot)
    → IsStored is_control s
    → entry_at s.history s.history_index ≡ some s.address
unfolding is_valid_restored_snapshot
current_entry c s h = elim (Option-cases (entry_at s.history s.history_index)) [
  | inl e ↦ ground arith
  | inr (a, e) ↦ ground (arith, text_eq_iff a s.address)
]

module _ (is_control : ℕ → Bool) where
  -- In a model that satisfies the invariant and is not under way, a tab whose current entry is one
  -- of its first 255 navigates to another, nonempty address and goes back: it is found at its place
  -- again, with the address and the history index that it had, and of the kind asked for.
  pub navigate_tab-go_back :
      (m : BrowserTabModel) (id a : Text) (kind kind' : BrowserTabKind) {i k : ℕ} {tab : TabState}
      → IsValid is_control m
      → m.mutation_in_progress ≡ false
      → find_tab id m.tabs ≡ some (i, tab)
      → tab.snapshot.history_index ≡ pos k
      → k < 255
      → is_empty a ≡ false
      → text_eq tab.snapshot.address a ≡ false
      → (new : TabState) × (find_tab id (go_back (navigate_tab m id kind a).0 id kind').0.tabs
          ≡ some (i, new))
        × (new.snapshot.address ≡ tab.snapshot.address)
        × (new.snapshot.history_index ≡ pos k)
        × (new.snapshot.kind ≡ kind')
  navigate_tab-go_back m id a kind kind' {i} {k} {tab} v quiet e at_k few ne other =
      let (g, _, _) = find_tab-found id m.tabs e in
      let stored = All-get_elem? (IsStoredTab is_control) m.tabs i v.tabs_stored g in
      let entry = current_entry is_control tab.snapshot stored in
      let there = navigated tab kind a in
      let (has, address_is, index_is) = back-visit tab.snapshot k a at_k (rw at_k at entry) few in
      let first = navigate_tab-found m id a kind quiet e ne (ground arith) in
      let arrived = navigated_snapshot tab kind a in
      let returned = gone_back_snapshot tab kind kind' a in
      let same : there.snapshot.id ≡ tab.snapshot.id =
        ground (arith, arrived, visit_id tab.snapshot a) in
      let found = find_tab-set id m.tabs there e same in
      let after : BrowserTabModel = record m { tabs = set m.tabs i there } in
      let second = go_back-found after id kind' {i = i} {tab = there} quiet found (ground arith) in
      (
        gone_back there kind',
        rw (first, second)
            (find_tab-set id after.tabs (gone_back there kind') found
              (ground (arith, back_id (visit tab.snapshot a), visit_id tab.snapshot a))),
        ground arith,
        ground arith,
        ground arith,
      )
