-- ===== src/Tabs.antt =====
-- The open tabs of a browser window: apps/host/BrowserTabModel.h and .cpp.
--
-- A method returns the new model, the signals that it emits in order, and its result. Qt's table
-- of control characters is the argument `is_control`, and the identifiers that `QUuid::createUuid`
-- draws are an argument too.
pub mod Title
pub mod Methods
pub mod Restore
pub mod Invariant
pub mod Behaviour
pub mod History
pub mod RoundTrip
pub mod Reopen
mod Tests
use q_browser.Base.{
  ℕ, suc, ◌+◌, ◌-◌, min, Bool, true, false, not, ◌&&◌, ◌||◌, Option, none, some, List, [], ◌∷◌,
  ◌++◌, map, ltb, leb, ◌==◌, if◌then◌else◌, length, get_elem?, take, drop, set, remove_at,
  insert_at,
}
use q_browser.Base.Int.{ℤ, pos, negsuc, leb_ℤ, ltb_ℤ}
use q_browser.Base.Text.{Text, text_eq}

pub data BrowserTabKind : Type 0 where
  host app web trusted_error : BrowserTabKind

pub data BrowserTabLifecycle : Type 0 where
  dormant starting loading_page active background error_page closing retired : BrowserTabLifecycle

pub record BrowserTabSnapshot : Type 0 where
  pub id : Text
  pub kind : BrowserTabKind
  pub title : Text
  pub address : Text
  pub history : List Text
  pub history_index : ℤ

pub data BrowserContentIdentity : Type 0 where
  q_browser_content signed_application restricted_web : BrowserContentIdentity

pub data BrowserVisualState : Type 0 where
  normal recovering crashed error_shown : BrowserVisualState

pub record BrowserTabPresentation : Type 0 where
  pub loading : Bool
  pub progress : ℤ
  pub content_identity : BrowserContentIdentity
  pub visual_state : BrowserVisualState

pub record TabState : Type 0 where
  pub snapshot : BrowserTabSnapshot
  pub lifecycle : BrowserTabLifecycle
  pub loading : Bool
  pub progress : ℤ
  pub visual_state : BrowserVisualState

pub record BrowserTabModel : Type 0 where
  pub tabs : List TabState
  pub recently_closed : List BrowserTabSnapshot
  pub active_index : ℤ
  pub mutation_in_progress : Bool

pub data Signal : Type 0 where
  tab_inserted tab_removed : ℤ → Text → Signal
  tab_moved active_tab_changed : ℤ → ℤ → Signal
  tab_changed : ℤ → Signal
  persistence_needed : Signal

abbrev pub max_open_tabs : ℕ
max_open_tabs = 16

abbrev pub max_recently_closed : ℕ
max_recently_closed = 16

abbrev pub max_history_entries : ℕ
max_history_entries = 256

abbrev pub initial : BrowserTabModel
initial = record {
  tabs = [];
  recently_closed = [];
  active_index = negsuc 0;
  mutation_in_progress = false;
}

abbrev pub eq_ℤ : ℤ → ℤ → Bool
eq_ℤ (pos a) (pos b) = a == b
eq_ℤ (negsuc a) (negsuc b) = a == b
eq_ℤ _ _ = false

abbrev pub is_empty {ℓ} : {A : Type ℓ} → List A → Bool
is_empty [] = true
is_empty (x ∷ xs) = false

abbrev pub eq_kind : BrowserTabKind → BrowserTabKind → Bool
eq_kind host host = true
eq_kind app app = true
eq_kind web web = true
eq_kind trusted_error trusted_error = true
eq_kind _ _ = false

abbrev pub count : BrowserTabModel → ℕ
count m = length m.tabs

abbrev pub is_valid_index : BrowserTabModel → ℤ → Bool
is_valid_index m (pos i) = ltb i (count m)
is_valid_index m (negsuc i) = false

-- The first tab with the identifier, behind its index.
unfoldable pub find_tab : Text → List TabState → Option (ℕ × TabState)
find_tab id [] = none
find_tab id (tab ∷ tabs) =
    if text_eq tab.snapshot.id id
    then some (0, tab)
    else elim (find_tab id tabs) [ none ↦ none | some (i, found) ↦ some (suc i, found) ]

abbrev pub index_of_id : BrowserTabModel → Text → ℤ
index_of_id m id = elim (find_tab id m.tabs) [ none ↦ negsuc 0 | some (i, tab) ↦ pos i ]

abbrev pub tab_at : List TabState → ℤ → Option TabState
tab_at tabs (pos i) = get_elem? tabs i
tab_at tabs (negsuc i) = none

abbrev pub active_id : BrowserTabModel → Text
active_id m = elim (tab_at m.tabs m.active_index) [ none ↦ [] | some tab ↦ tab.snapshot.id ]

abbrev pub snapshots : BrowserTabModel → List BrowserTabSnapshot
snapshots m = map (λ tab. tab.snapshot) m.tabs

abbrev pub is_valid_kind : BrowserTabKind → Bool
is_valid_kind host = true
is_valid_kind app = true
is_valid_kind web = true
is_valid_kind trusted_error = true

unfoldable pub content_identity_for : BrowserTabKind → BrowserContentIdentity
content_identity_for host = q_browser_content
content_identity_for trusted_error = q_browser_content
content_identity_for app = signed_application
content_identity_for web = restricted_web

unfoldable pub default_visual_state_for : BrowserTabKind → BrowserVisualState
default_visual_state_for trusted_error = error_shown
default_visual_state_for _ = normal

unfoldable pub presentation_of : TabState → BrowserTabPresentation
presentation_of tab = record {
  loading = tab.loading;
  progress = tab.progress;
  content_identity = content_identity_for tab.snapshot.kind;
  visual_state = tab.visual_state;
}

unfoldable pub apply_validated_kind : TabState → BrowserTabKind → TabState
apply_validated_kind tab kind = if eq_kind tab.snapshot.kind kind then tab else record tab {
  snapshot = record tab.snapshot { kind = kind };
  lifecycle = dormant;
  loading = false;
  progress = pos 0;
  visual_state = default_visual_state_for kind;
}

unfoldable pub dormant_state : BrowserTabSnapshot → TabState
dormant_state s = record {
  snapshot = s;
  lifecycle = dormant;
  loading = false;
  progress = pos 0;
  visual_state = default_visual_state_for s.kind;
}

unfoldable pub closed_has_id : Text → List BrowserTabSnapshot → Bool
closed_has_id id [] = false
closed_has_id id (s ∷ closed) = text_eq s.id id || closed_has_id id closed

abbrev pub has_tab : Text → List TabState → Bool
has_tab id tabs = elim (find_tab id tabs) [ none ↦ false | some found ↦ true ]

-- The loop of `generateId` over the identifiers that are drawn, up to the first that no open or
-- recently closed tab has; `none` if it is not among them.
unfoldable pub generate_id : BrowserTabModel → List Text → Option Text
generate_id m [] = none
generate_id m (id ∷ drawn) =
    let rest = generate_id m drawn in
    if has_tab id m.tabs || closed_has_id id m.recently_closed then rest else some id

abbrev pub Result {ℓ} : Type ℓ → Type ℓ
Result A = BrowserTabModel × List Signal × A

-- A method that returns early.
abbrev pub refuse {ℓ} : {A : Type ℓ} → BrowserTabModel → A → Result A
refuse m a = (m, [], a)

-- `if (activeIndex_ != oldActive) emit activeTabChanged(oldActive, activeIndex_)`
abbrev pub active_change : ℤ → ℤ → List Signal
active_change old new = if eq_ℤ new old then [] else active_tab_changed old new ∷ []
