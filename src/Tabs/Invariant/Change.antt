-- ===== src/Tabs/Invariant/Change.antt =====
-- The calls that change one tab in its place keep the invariant.
use q_browser.Base.{
  ℕ, ◌-◌, ◌<◌, ◌≤◌, Bool, true, some, List, ◌≡◌, refl, arith, length, Option-cases, inl, inr, set,
  get_elem?, get_elem?-bound, ap, ◌∙◌,
}
use q_browser.Base.Int.{ℤ, pos, negsuc}
use q_browser.Base.Text.{Text}
use q_browser.Tabs.Title.{canonical_title}
use q_browser.Tabs.Methods.{
  at_entry, has_back, kept_entries, entry_at, go_back, go_forward, set_title, set_lifecycle,
  set_load_state, set_visual_state, clamp_progress,
}
use q_browser.Tabs.Restore.{eq_entry, is_valid_restored_snapshot}
use q_browser.Tabs.Invariant.Lookup.{find_tab-found, All-get_elem?}
use q_browser.Tabs.Invariant.Snapshots.{IsStored, at_entry-IsStored, kind-IsStored, title-IsStored}
use q_browser.Tabs.Invariant.Valid.{IsStoredTab, IsValid, changed-IsValid, id_of_kind}
use q_browser.Tabs.{
  BrowserTabSnapshot, BrowserTabKind, BrowserTabLifecycle, BrowserVisualState, TabState,
  BrowserTabModel, find_tab, apply_validated_kind,
}

id_of_entry : (s : BrowserTabSnapshot) (k : ℕ) → (at_entry s k).id ≡ s.id
id_of_entry s k = ground arith

has_back-lt :
    (s : BrowserTabSnapshot)
    → has_back s ≡ true
    → kept_entries s.history_index - 2 < kept_entries s.history_index
has_back-lt s h = ground arith

entry_bound :
    (history : List Text) (i : ℤ) (address : Text)
    → eq_entry (entry_at history i) address ≡ true
    → kept_entries i ≤ length history
entry_bound history (negsuc n) address h = omega arith
entry_bound history (pos k) address h = elim (Option-cases (get_elem? history k)) [
  | inl e ↦ ground arith
  | inr (a, e) ↦ omega (arith, get_elem?-bound history k e)
]

module _ (is_control : ℕ → Bool) where
  -- The current entry of a stored snapshot is one of its entries.
  index_in_history :
      (s : BrowserTabSnapshot)
      → IsStored is_control s
      → kept_entries s.history_index ≤ length s.history
  unfolding is_valid_restored_snapshot
  index_in_history s h = entry_bound s.history s.history_index s.address (ground arith)

  traveled-IsValid :
      (m : BrowserTabModel) (i k : ℕ) (tab : TabState) (kind : BrowserTabKind) (id : Text)
      → IsValid is_control m
      → find_tab id m.tabs ≡ some (i, tab)
      → k < length tab.snapshot.history
      → IsValid is_control (record m {
        tabs =
            set m.tabs i
              (apply_validated_kind (record tab { snapshot = at_entry tab.snapshot k }) kind);
      })
  traveled-IsValid m i k tab kind id v e b =
      let (g, _, _) = find_tab-found id m.tabs e in
      let stored = All-get_elem? (IsStoredTab is_control) m.tabs i v.tabs_stored g in
      let there : TabState = record tab { snapshot = at_entry tab.snapshot k } in
      changed-IsValid is_control m i tab (apply_validated_kind there kind) v g
        (id_of_kind is_control there kind ∙ id_of_entry tab.snapshot k)
        (kind-IsStored is_control there kind (at_entry-IsStored is_control tab.snapshot k b stored))

  pub go_back-IsValid :
      (m : BrowserTabModel) (id : Text) (kind : BrowserTabKind)
      → IsValid is_control m
      → IsValid is_control (go_back m id kind).0
  unfolding go_back
  go_back-IsValid m id kind v = elim (Option-cases (find_tab id m.tabs)) [
    | inl e ↦ ground arith
    | inr ((i, tab), e) ↦
        let (g, _, _) = find_tab-found id m.tabs e in
        let stored = All-get_elem? (IsStoredTab is_control) m.tabs i v.tabs_stored g in
        ground (
          arith,
          traveled-IsValid m i (kept_entries tab.snapshot.history_index - 2) tab kind id v e,
          index_in_history tab.snapshot stored,
          has_back-lt tab.snapshot,
        )
  ]

  pub go_forward-IsValid :
      (m : BrowserTabModel) (id : Text) (kind : BrowserTabKind)
      → IsValid is_control m
      → IsValid is_control (go_forward m id kind).0
  unfolding go_forward
  go_forward-IsValid m id kind v = elim (Option-cases (find_tab id m.tabs)) [
    | inl e ↦ ground arith
    | inr ((i, tab), e) ↦
        ground
          (arith, traveled-IsValid m i (kept_entries tab.snapshot.history_index) tab kind id v e)
  ]

  pub set_title-IsValid :
      (m : BrowserTabModel) (id title : Text)
      → IsValid is_control m
      → IsValid is_control (set_title is_control m id title).0
  unfolding set_title
  set_title-IsValid m id title v = elim (Option-cases (find_tab id m.tabs)) [
    | inl e ↦ ground arith
    | inr ((i, tab), e) ↦ elim (Option-cases (canonical_title is_control title)) [
      | inl n ↦ ground arith
      | inr (safe, n) ↦
          let (g, _, _) = find_tab-found id m.tabs e in
          let stored = All-get_elem? (IsStoredTab is_control) m.tabs i v.tabs_stored g in
          let titled : TabState = record tab { snapshot = record tab.snapshot { title = safe } } in
          ground (
            arith,
            changed-IsValid is_control m i tab titled v g refl
                (title-IsStored is_control tab.snapshot title n stored),
          )
    ]
  ]

  -- A change of what is shown of a tab leaves its snapshot alone.
  shown-IsValid :
      (m : BrowserTabModel) (i : ℕ) (tab new : TabState) (id : Text)
      → IsValid is_control m
      → find_tab id m.tabs ≡ some (i, tab)
      → new.snapshot ≡ tab.snapshot
      → IsValid is_control (record m { tabs = set m.tabs i new })
  shown-IsValid m i tab new id v e same =
      let (g, _, _) = find_tab-found id m.tabs e in
      let stored = All-get_elem? (IsStoredTab is_control) m.tabs i v.tabs_stored g in
      changed-IsValid is_control m i tab new v g (ap (λ (s : BrowserTabSnapshot). s.id) same)
        (rw same stored)

  pub set_lifecycle-IsValid :
      (m : BrowserTabModel) (id : Text) (l : BrowserTabLifecycle)
      → IsValid is_control m
      → IsValid is_control (set_lifecycle m id l).0
  unfolding set_lifecycle
  set_lifecycle-IsValid m id l v = elim (Option-cases (find_tab id m.tabs)) [
    | inl e ↦ ground arith
    | inr ((i, tab), e) ↦
        ground (arith, shown-IsValid m i tab (record tab { lifecycle = l }) id v e refl)
  ]

  pub set_load_state-IsValid :
      (m : BrowserTabModel) (id : Text) (loading : Bool) (progress : ℤ)
      → IsValid is_control m
      → IsValid is_control (set_load_state m id loading progress).0
  unfolding set_load_state
  set_load_state-IsValid m id loading progress v = elim (Option-cases (find_tab id m.tabs)) [
    | inl e ↦ ground arith
    | inr ((i, tab), e) ↦
        let new : TabState = record tab { loading = loading; progress = clamp_progress progress } in
        ground (arith, shown-IsValid m i tab new id v e refl)
  ]

  pub set_visual_state-IsValid :
      (m : BrowserTabModel) (id : Text) (s : BrowserVisualState)
      → IsValid is_control m
      → IsValid is_control (set_visual_state m id s).0
  unfolding set_visual_state
  set_visual_state-IsValid m id s v = elim (Option-cases (find_tab id m.tabs)) [
    | inl e ↦ ground arith
    | inr ((i, tab), e) ↦
        ground (arith, shown-IsValid m i tab (record tab { visual_state = s }) id v e refl)
  ]
