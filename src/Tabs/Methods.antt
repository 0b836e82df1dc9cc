-- ===== src/Tabs/Methods.antt =====
-- The methods of `BrowserTabModel` that change the model: apps/host/BrowserTabModel.cpp.
--
-- Each begins with the test of `mutationInProgress_` and holds that flag until it returns. A method
-- is one step here, so the flag has the same value before and after it and is not set in between:
-- what a slot calls while a signal is emitted, which the flag refuses, is not modelled.
use q_browser.Base.{
  ℕ, suc, ◌-◌, min, Bool, true, false, not, ◌&&◌, ◌||◌, Option, none, some, List, [], ◌∷◌, ◌++◌,
  ltb, leb, ◌==◌, if◌then◌else◌, length, get_elem?, take, drop, set, remove_at, insert_at,
}
use q_browser.Base.Int.{ℤ, pos, negsuc, leb_ℤ, ltb_ℤ}
use q_browser.Base.Text.{Text, text_eq}
use q_browser.Tabs.Title.{canonical_title}
use q_browser.Tabs.{
  BrowserTabKind, BrowserTabLifecycle, dormant, BrowserTabSnapshot, BrowserVisualState, normal,
  error_shown, TabState, BrowserTabModel, tab_inserted, tab_removed, tab_moved, tab_changed,
  active_tab_changed, persistence_needed, max_open_tabs, max_recently_closed, max_history_entries,
  eq_ℤ, is_empty, eq_kind, count, is_valid_index, find_tab, index_of_id, active_id, is_valid_kind,
  apply_validated_kind, dormant_state, generate_id, Result, refuse, active_change, starting,
  loading_page, active, background, error_page, closing, retired, recovering, crashed,
}

-- `tabs_.append`, the choice of the active tab and the signals, in `createTab` and
-- `reopenMostRecentlyClosed`
unfoldable pub append_tab : BrowserTabModel → BrowserTabSnapshot → Bool → Result Text
append_tab m snapshot make_active =
    let inserted_index = pos (count m) in
    let new_active =
      if make_active || ltb_ℤ m.active_index (pos 0) then inserted_index else m.active_index in
    (
      record m { tabs = m.tabs ++ dormant_state snapshot ∷ []; active_index = new_active },
      tab_inserted inserted_index snapshot.id
          ∷ (active_change m.active_index new_active ++ persistence_needed ∷ []),
      snapshot.id,
    )

-- What a method returns once the loop of `generateId` has ended
abbrev pub with_id : BrowserTabModel → Option Text → (Text → Result Text) → Result (Option Text)
with_id m none f = (m, [], none)
with_id m (some id) f = let (m', signals, made) = f id in (m', signals, some made)

-- The result is `some []` for the empty string of a refusal, and `none` while `generateId` goes on.
unfoldable pub create_tab :
    (ℕ → Bool)
    → BrowserTabModel
    → List Text
    → BrowserTabKind
    → Text
    → Text
    → Bool
    → Result (Option Text)
create_tab is_control m drawn kind title address make_active =
    if m.mutation_in_progress
    then refuse m (some [])
    else if leb max_open_tabs (count m) || not (is_valid_kind kind) || is_empty address
    then refuse m (some [])
    else elim (canonical_title is_control title) [
      | none ↦ refuse m (some [])
      | some safe_title ↦ with_id m (generate_id m drawn) λ id.
          append_tab m
            (record {
              id = id;
              kind = kind;
              title = safe_title;
              address = address;
              history = address ∷ [];
              history_index = pos 0;
            })
            make_active
    ]

unfoldable pub activate_tab : BrowserTabModel → ℤ → Result Bool
activate_tab m index =
    if m.mutation_in_progress
    then refuse m false
    else if not (is_valid_index m index)
    then refuse m false
    else if eq_ℤ index m.active_index
    then refuse m true
    else (
      record m { active_index = index },
      active_tab_changed m.active_index index ∷ persistence_needed ∷ [],
      true,
    )

-- `QVector::move`
abbrev pub move {ℓ} : {A : Type ℓ} → List A → ℕ → ℕ → List A
move xs from to = elim (get_elem? xs from) [
  | none ↦ xs
  | some x ↦ insert_at (remove_at xs from) to x
]

abbrev pub move_tabs : List TabState → ℤ → ℤ → List TabState
move_tabs tabs (pos from) (pos to) = move tabs from to
move_tabs tabs _ _ = tabs

unfoldable pub move_tab : BrowserTabModel → ℤ → ℤ → Result Bool
move_tab m from to =
    if m.mutation_in_progress
    then refuse m false
    else if not (is_valid_index m from) || not (is_valid_index m to)
    then refuse m false
    else if eq_ℤ from to
    then refuse m true
    else let moved = record m { tabs = move_tabs m.tabs from to } in
      let new_active = index_of_id moved (active_id m) in
      (
        record moved { active_index = new_active },
        tab_moved from to ∷ (active_change m.active_index new_active ++ persistence_needed ∷ []),
        true,
      )

-- The appending to `recentlyClosed_` and the loop that drops the oldest entries
abbrev pub remember_closed : BrowserTabSnapshot → List BrowserTabSnapshot → List BrowserTabSnapshot
remember_closed s closed =
    let more = closed ++ s ∷ [] in drop (length more - max_recently_closed) more

-- The choice of the active tab in `closeTab`
unfoldable pub active_after_close : BrowserTabModel → ℕ → List TabState → ℤ
active_after_close m index [] = negsuc 0
active_after_close m index (tab ∷ tabs) =
    if eq_ℤ (pos index) m.active_index
    then pos (min index (length tabs))
    else index_of_id (record m { tabs = tab ∷ tabs }) (active_id m)

-- `closeTab` of the tab that stands at a valid index
unfoldable pub close_found : BrowserTabModel → ℕ → TabState → Result Bool
close_found m index tab =
    let tabs = remove_at m.tabs index in
    let new_active = active_after_close m index tabs in
    let m' = record m {
      tabs = tabs;
      recently_closed = remember_closed tab.snapshot m.recently_closed;
      active_index = new_active;
    } in
    (
      m',
      tab_removed (pos index) tab.snapshot.id
          ∷ ((if not (eq_ℤ m.active_index new_active) || not (text_eq (active_id m) (active_id m'))
                then active_tab_changed m.active_index new_active ∷ []
                else [])
              ++ persistence_needed ∷ []),
      true,
    )

abbrev pub close_at : BrowserTabModel → ℤ → Result Bool
close_at m (pos i) = elim (get_elem? m.tabs i) [
  | none ↦ refuse m false
  | some tab ↦ close_found m i tab
]
close_at m (negsuc i) = refuse m false

-- The lookup of the tab is the test of `isValidIndex`.
unfoldable pub close_tab : BrowserTabModel → ℤ → Result Bool
close_tab m index = if m.mutation_in_progress then refuse m false else close_at m index

-- The last entry and those before it
unfoldable pub unsnoc {ℓ} : {A : Type ℓ} → List A → Option (List A × A)
unsnoc [] = none
unsnoc (x ∷ xs) = elim (unsnoc xs) [ none ↦ some ([], x) | some (ys, y) ↦ some (x ∷ ys, y) ]

unfoldable pub reopen_most_recently_closed :
    BrowserTabModel → List Text → Bool → Result (Option Text)
reopen_most_recently_closed m drawn make_active =
    if m.mutation_in_progress then refuse m (some []) else elim (unsnoc m.recently_closed) [
      | none ↦ refuse m (some [])
      | some (rest, last) ↦
          if leb max_open_tabs (count m)
          then refuse m (some [])
          else with_id m (generate_id m drawn) λ id.
            append_tab (record m { recently_closed = rest }) (record last { id = id }) make_active
    ]

-- A tab is replaced, and the two signals of a lasting change emitted.
abbrev pub change_tab : BrowserTabModel → ℕ → TabState → Result Bool
change_tab m i tab =
    (record m { tabs = set m.tabs i tab }, tab_changed (pos i) ∷ persistence_needed ∷ [], true)

-- The same for a change that is not stored with the session.
abbrev pub show_tab : BrowserTabModel → ℕ → TabState → Result Bool
show_tab m i tab = (record m { tabs = set m.tabs i tab }, tab_changed (pos i) ∷ [], true)

-- `history.at(historyIndex)`, where the index is in range
abbrev pub entry_at : List Text → ℤ → Option Text
entry_at history (pos k) = get_elem? history k
entry_at history (negsuc k) = none

-- The number of entries up to the current one
abbrev pub kept_entries : ℤ → ℕ
kept_entries (pos k) = suc k
kept_entries (negsuc k) = 0

-- The two loops that drop entries behind the current one and before the newest 256, and the
-- appending of the address between them
abbrev pub push_history : List Text → ℤ → Text → List Text
push_history history index address =
    let more = take (kept_entries index) history ++ address ∷ [] in
    drop (length more - max_history_entries) more

unfoldable pub visit : BrowserTabSnapshot → Text → BrowserTabSnapshot
visit s address =
    let history = push_history s.history s.history_index address in
    record s { history = history; history_index = pos (length history - 1); address = address }

abbrev pub is_current_address : BrowserTabSnapshot → Text → Bool
is_current_address s address = elim (entry_at s.history s.history_index) [
  | none ↦ false
  | some e ↦ text_eq e address
]

unfoldable pub navigate_found : BrowserTabModel → ℕ → TabState → BrowserTabKind → Text → Result Bool
navigate_found m i tab kind address =
    if is_current_address tab.snapshot address
    then (if eq_kind tab.snapshot.kind kind
        then refuse m true
        else change_tab m i (apply_validated_kind tab kind))
    else change_tab m i
        (apply_validated_kind (record tab { snapshot = visit tab.snapshot address }) kind)

unfoldable pub navigate_tab : BrowserTabModel → Text → BrowserTabKind → Text → Result Bool
navigate_tab m id kind address =
    if m.mutation_in_progress then refuse m false else elim (find_tab id m.tabs) [
      | none ↦ refuse m false
      | some (i, tab) ↦
          if not (is_valid_kind kind) || is_empty address
          then refuse m false
          else navigate_found m i tab kind address
    ]

abbrev pub has_back : BrowserTabSnapshot → Bool
has_back s = ltb_ℤ (pos 0) s.history_index

abbrev pub has_forward : BrowserTabSnapshot → Bool
has_forward s =
    leb_ℤ (pos 0) s.history_index && ltb (kept_entries s.history_index) (length s.history)

abbrev pub can_go_back : BrowserTabModel → Text → Bool
can_go_back m id = elim (find_tab id m.tabs) [
  | none ↦ false
  | some (i, tab) ↦ has_back tab.snapshot
]

abbrev pub can_go_forward : BrowserTabModel → Text → Bool
can_go_forward m id = elim (find_tab id m.tabs) [
  | none ↦ false
  | some (i, tab) ↦ has_forward tab.snapshot
]

-- `snapshot.address = snapshot.history.at(snapshot.historyIndex)`
abbrev pub at_entry : BrowserTabSnapshot → ℕ → BrowserTabSnapshot
at_entry s k = elim (get_elem? s.history k) [
  | none ↦ record s { history_index = pos k }
  | some address ↦ record s { history_index = pos k; address = address }
]

abbrev pub back : BrowserTabSnapshot → BrowserTabSnapshot
back s = at_entry s (kept_entries s.history_index - 2)

abbrev pub forward : BrowserTabSnapshot → BrowserTabSnapshot
forward s = at_entry s (kept_entries s.history_index)

-- `goBack` and `goForward`, which differ in their test and in the entry that they choose
abbrev pub travel :
    (BrowserTabSnapshot → Bool)
    → (BrowserTabSnapshot → BrowserTabSnapshot)
    → BrowserTabModel
    → Text
    → BrowserTabKind
    → Result Bool
travel may_travel choose m id kind =
    if m.mutation_in_progress then refuse m false else elim (find_tab id m.tabs) [
      | none ↦ refuse m false
      | some (i, tab) ↦
          if not (is_valid_kind kind) || not (may_travel tab.snapshot)
          then refuse m false
          else change_tab m i
              (apply_validated_kind (record tab { snapshot = choose tab.snapshot }) kind)
    ]

unfoldable pub go_back : BrowserTabModel → Text → BrowserTabKind → Result Bool
go_back = travel has_back back

unfoldable pub go_forward : BrowserTabModel → Text → BrowserTabKind → Result Bool
go_forward = travel has_forward forward

unfoldable pub set_title : (ℕ → Bool) → BrowserTabModel → Text → Text → Result Bool
set_title is_control m id title =
    if m.mutation_in_progress then refuse m false else elim (find_tab id m.tabs) [
      | none ↦ refuse m false
      | some (i, tab) ↦ elim (canonical_title is_control title) [
        | none ↦ refuse m false
        | some safe_title ↦
            if text_eq tab.snapshot.title safe_title
            then refuse m true
            else change_tab m i
                (record tab { snapshot = record tab.snapshot { title = safe_title } })
      ]
    ]

-- The enumerators in order, for the comparison of two values
abbrev pub lifecycle_number : BrowserTabLifecycle → ℕ
lifecycle_number dormant = 0
lifecycle_number starting = 1
lifecycle_number loading_page = 2
lifecycle_number active = 3
lifecycle_number background = 4
lifecycle_number error_page = 5
lifecycle_number closing = 6
lifecycle_number retired = 7

abbrev pub visual_number : BrowserVisualState → ℕ
visual_number normal = 0
visual_number recovering = 1
visual_number crashed = 2
visual_number error_shown = 3

unfoldable pub set_lifecycle : BrowserTabModel → Text → BrowserTabLifecycle → Result Bool
set_lifecycle m id lifecycle =
    if m.mutation_in_progress then refuse m false else elim (find_tab id m.tabs) [
      | none ↦ refuse m false
      | some (i, tab) ↦
          if lifecycle_number tab.lifecycle == lifecycle_number lifecycle
          then refuse m true
          else show_tab m i (record tab { lifecycle = lifecycle })
    ]

abbrev pub clamp_progress : ℤ → ℤ
clamp_progress (negsuc n) = pos 0
clamp_progress (pos n) = if ltb 100 n then pos 100 else pos n

abbrev pub eq_bool : Bool → Bool → Bool
eq_bool true b = b
eq_bool false b = not b

unfoldable pub set_load_state : BrowserTabModel → Text → Bool → ℤ → Result Bool
set_load_state m id loading progress =
    if m.mutation_in_progress then refuse m false else elim (find_tab id m.tabs) [
      | none ↦ refuse m false
      | some (i, tab) ↦
          if eq_bool tab.loading loading && eq_ℤ tab.progress (clamp_progress progress)
          then refuse m true
          else show_tab m i (record tab { loading = loading; progress = clamp_progress progress })
    ]

unfoldable pub set_visual_state : BrowserTabModel → Text → BrowserVisualState → Result Bool
set_visual_state m id state =
    if m.mutation_in_progress then refuse m false else elim (find_tab id m.tabs) [
      | none ↦ refuse m false
      | some (i, tab) ↦
          if visual_number tab.visual_state == visual_number state
          then refuse m true
          else show_tab m i (record tab { visual_state = state })
    ]
