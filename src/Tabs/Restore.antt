-- ===== src/Tabs/Restore.antt =====
-- The validation of stored snapshots and `BrowserTabModel::replaceFromValidatedSnapshot`:
-- apps/host/BrowserTabModel.cpp.
use q_browser.Base.{
  ℕ, suc, Bool, true, false, not, ◌&&◌, ◌||◌, Option, none, some, List, [], ◌∷◌, ◌++◌, map, ltb,
  leb, ◌==◌, if◌then◌else◌, length,
}
use q_browser.Base.Int.{ℤ, pos, negsuc}
use q_browser.Base.Text.{Text, text_eq}
use q_browser.Tabs.Title.{canonical_title}
use q_browser.Tabs.Methods.{entry_at, lifecycle_number, visual_number}
use q_browser.Tabs.{
  BrowserTabSnapshot, TabState, BrowserTabModel, Signal, tab_inserted, tab_removed,
  active_tab_changed, max_open_tabs, max_history_entries, dormant, eq_ℤ, is_empty, eq_kind,
  is_valid_kind, default_visual_state_for, dormant_state, Result, refuse,
}

hex_digits : Text → Bool
hex_digits [] = true
hex_digits (c ∷ cs) = ((leb b'0' c && leb c b'9') || (leb b'a' c && leb c b'f')) && hex_digits cs

unfoldable pub is_valid_id : Text → Bool
unfolding hex_digits
is_valid_id id = length id == 32 && hex_digits id

unfoldable pub no_empty_entry : List Text → Bool
no_empty_entry [] = true
no_empty_entry (e ∷ es) = not (is_empty e) && no_empty_entry es

abbrev pub eq_entry : Option Text → Text → Bool
eq_entry none address = false
eq_entry (some e) address = text_eq e address

abbrev pub is_canonical_title : (ℕ → Bool) → Text → Bool
is_canonical_title is_control title = elim (canonical_title is_control title) [
  | none ↦ false
  | some t ↦ text_eq t title
]

-- The test of the index that the source makes on a signed number is that of `entry_at`.
unfoldable pub is_valid_restored_snapshot : (ℕ → Bool) → BrowserTabSnapshot → Bool
is_valid_restored_snapshot is_control s =
    is_valid_id s.id
    && is_valid_kind s.kind
    && not (is_empty s.address)
    && not (is_empty s.history)
    && leb (length s.history) max_history_entries
    && eq_entry (entry_at s.history s.history_index) s.address
    && no_empty_entry s.history
    && is_canonical_title is_control s.title

unfoldable pub contains_id : Text → List Text → Bool
contains_id id [] = false
contains_id id (x ∷ xs) = text_eq x id || contains_id id xs

-- The loop over the snapshots with the set of the identifiers seen
unfoldable pub snapshots_valid : (ℕ → Bool) → List Text → List BrowserTabSnapshot → Bool
snapshots_valid is_control ids [] = true
snapshots_valid is_control ids (s ∷ ss) =
    is_valid_restored_snapshot is_control s
    && not (contains_id s.id ids)
    && snapshots_valid is_control (s.id ∷ ids) ss

abbrev pub eq_texts : List Text → List Text → Bool
eq_texts [] [] = true
eq_texts (x ∷ xs) (y ∷ ys) = text_eq x y && eq_texts xs ys
eq_texts _ _ = false

-- `operator==` of `BrowserTabSnapshot`
unfoldable pub eq_snapshot : BrowserTabSnapshot → BrowserTabSnapshot → Bool
eq_snapshot a b =
    text_eq a.id b.id
    && eq_kind a.kind b.kind
    && text_eq a.title b.title
    && text_eq a.address b.address
    && eq_texts a.history b.history
    && eq_ℤ a.history_index b.history_index

-- The loop that compares each tab with its snapshot
unfoldable pub tabs_restored : List TabState → List BrowserTabSnapshot → Bool
tabs_restored [] [] = true
tabs_restored (tab ∷ tabs) (s ∷ ss) =
    eq_snapshot tab.snapshot s
    && lifecycle_number tab.lifecycle == lifecycle_number dormant
    && not tab.loading
    && eq_ℤ tab.progress (pos 0)
    && visual_number tab.visual_state == visual_number (default_visual_state_for tab.snapshot.kind)
    && tabs_restored tabs ss
tabs_restored _ _ = false

-- The signals of the loop that removes the old tabs, from the last one on
unfoldable pub removals : ℕ → List TabState → List Signal
removals i [] = []
removals i (tab ∷ tabs) = removals (suc i) tabs ++ tab_removed (pos i) tab.snapshot.id ∷ []

unfoldable pub insertions : ℕ → List BrowserTabSnapshot → List Signal
insertions i [] = []
insertions i (s ∷ ss) = tab_inserted (pos i) s.id ∷ insertions (suc i) ss

-- The test of the active index against the number of snapshots
abbrev pub is_active_choice : ℕ → ℤ → Bool
is_active_choice n (pos i) = ltb i n
is_active_choice n (negsuc i) = n == 0 && i == 0

-- The model is not destroyed by a slot: `lifetimeGuard` stays set.
unfoldable pub replace_from_validated_snapshot :
    (ℕ → Bool) → BrowserTabModel → List BrowserTabSnapshot → ℤ → Result Bool
replace_from_validated_snapshot is_control m ss active_index =
    if m.mutation_in_progress
    then refuse m false
    else if ltb max_open_tabs (length ss) || not (is_active_choice (length ss) active_index)
    then refuse m false
    else if not (snapshots_valid is_control [] ss)
    then refuse m false
    else if eq_ℤ m.active_index active_index
        && is_empty m.recently_closed
        && tabs_restored m.tabs ss
    then refuse m true
    else (
      record m { tabs = map dormant_state ss; recently_closed = []; active_index = active_index },
      removals 0 m.tabs
          ++ (insertions 0 ss
              ++ (if is_empty ss && eq_ℤ m.active_index (negsuc 0)
                  then []
                  else active_tab_changed m.active_index active_index ∷ [])),
      true,
    )
