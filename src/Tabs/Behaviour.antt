-- ===== src/Tabs/Behaviour.antt =====
-- What the methods of the tab model do, as a window sees it.
use q_browser.Base.{
  ℕ, ◌<◌, Bool, true, some, List, [], ◌∷◌, ◌≡◌, ◌≢◌, arith, length, Option-cases, inl, inr,
  get_elem?, remove_at, get_elem?-lt, get_elem?-bound,
}
use q_browser.Base.Int.{ℤ, pos, negsuc}
use q_browser.Base.Text.{Text, text_eq_iff}
use q_browser.Tabs.Methods.{
  move, move_tab, close_found, close_tab, remember_closed, active_after_close,
}
use q_browser.Tabs.Invariant.Lookup.{
  find_tab-found, find_tab-get_elem?, has_tab-remove_at, has_tab-insert_at,
}
use q_browser.Tabs.Invariant.Valid.{IsValid, active_tab}
use q_browser.Tabs.{TabState, BrowserTabModel, find_tab, has_tab, index_of_id, active_id}

find_tab-index :
    (m : BrowserTabModel) (id : Text)
    → has_tab id m.tabs ≡ true
    → (i : ℕ) × (tab : TabState) × (index_of_id m id ≡ pos i)
      × (get_elem? m.tabs i ≡ some tab)
      × (tab.snapshot.id ≡ id)
find_tab-index m id h = elim (Option-cases (find_tab id m.tabs)) [
  | inl e ↦ absurd (ground arith)
  | inr ((i, tab), e) ↦
      let (g, same, _) = find_tab-found id m.tabs e in (i, tab, ground arith, g, same)
]

-- Behind the close of another tab, the active tab is looked up again.
active_after :
    (m : BrowserTabModel) (i : ℕ) (tabs : List TabState)
    → has_tab (active_id m) tabs ≡ true
    → m.active_index ≢ pos i
    → active_after_close m i tabs ≡ index_of_id (record m { tabs = tabs }) (active_id m)
unfolding active_after_close
active_after m i [] h ne = unfold find_tab in ground arith
active_after m i (t ∷ tabs) h ne = ground arith

-- The tab that `indexOfId` chooses is the one meant.
active_id_chosen :
    (m : BrowserTabModel) (id : Text)
    → has_tab id m.tabs ≡ true
    → active_id (record m { active_index = index_of_id m id }) ≡ id
active_id_chosen m id h = let (i, tab, at_i, g, same) = find_tab-index m id h in ground arith

module _ (is_control : ℕ → Bool) where
  has_tab-move :
      (m : BrowserTabModel) (from to : ℕ)
      → IsValid is_control m
      → from < length m.tabs
      → has_tab (active_id m) (move m.tabs from to) ≡ true
  has_tab-move m from to v h =
      let (x, g) = get_elem?-lt m.tabs from h in
      let (k, tab, _, _, id_is, found) =
        active_tab m (omega arith) v.active_choice v.ids_distinct in
      ground (
        arith,
        has_tab-insert_at (active_id m) (remove_at m.tabs from) to x,
        has_tab-remove_at (active_id m) m.tabs from v.ids_distinct g,
      )

  -- In a model that satisfies the invariant, moving a tab does not change which tab is active.
  pub active_id-move_tab :
      (m : BrowserTabModel) (from to : ℤ)
      → IsValid is_control m
      → active_id (move_tab m from to).0 ≡ active_id m
  unfolding move_tab
  active_id-move_tab m (negsuc from) to v = ground arith
  active_id-move_tab m (pos from) (negsuc to) v = ground arith
  active_id-move_tab m (pos from) (pos to) v = ground (
    arith,
    has_tab-move m from to v,
    active_id_chosen (record m { tabs = move m.tabs from to }) (active_id m),
  )

  has_tab-close :
      (m : BrowserTabModel) (i : ℕ) (tab : TabState)
      → IsValid is_control m
      → get_elem? m.tabs i ≡ some tab
      → m.active_index ≢ pos i
      → has_tab (active_id m) (remove_at m.tabs i) ≡ true
  has_tab-close m i tab v g ne =
      let bound = get_elem?-bound m.tabs i g in
      let (k, active, at_k, _, id_is, found) =
        active_tab m (omega arith) v.active_choice v.ids_distinct in
      let here : find_tab tab.snapshot.id m.tabs ≡ some (i, tab) =
        find_tab-get_elem? m.tabs i v.ids_distinct g in
      ground (
        arith,
        has_tab-remove_at (active_id m) m.tabs i v.ids_distinct g,
        text_eq_iff tab.snapshot.id (active_id m),
      )

  -- In a model that satisfies the invariant, closing a tab that is not active does not change which
  -- tab is active.
  pub active_id-close_tab :
      (m : BrowserTabModel) (i : ℕ)
      → IsValid is_control m
      → m.active_index ≢ pos i
      → active_id (close_tab m (pos i)).0 ≡ active_id m
  unfolding close_tab close_found
  active_id-close_tab m i v ne = elim (Option-cases (get_elem? m.tabs i)) [
    | inl e ↦ ground arith
    | inr (tab, e) ↦
        let there = has_tab-close m i tab v e ne in
        ground (
          arith,
          active_after m i (remove_at m.tabs i) there ne,
          active_id_chosen
              (record m {
                tabs = remove_at m.tabs i;
                recently_closed = remember_closed tab.snapshot m.recently_closed;
              })
              (active_id m) there,
        )
  ]
