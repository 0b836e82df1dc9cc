-- ===== src/Tabs/Tests.antt =====
-- A model with two tabs.
use q_browser.Base.{
  ℕ, Bool, true, false, some, List, [], ◌∷◌, ◌++◌, ◌≡◌, ◌≤◌, remove_at, refl, arith, length, ltb,
  All,
}
use q_browser.Base.Int.{pos}
use q_browser.Base.Text.{Text, codes, text_eq}
use q_browser.Tabs.Title.{
  canonical_title, scan_title, add_unit, is_high_surrogate, is_low_surrogate, is_bidi_control,
}
use q_browser.Tabs.Title.Canonical.{IsClean, canonical_title_idem}
use q_browser.Tabs.Methods.{
  go_back, navigate_tab, create_tab, close_tab, append_tab, close_found,
  reopen_most_recently_closed,
}
use q_browser.Tabs.Restore.{is_valid_id, replace_from_validated_snapshot}
use q_browser.Tabs.Invariant.Valid.{IsValid}
use q_browser.Tabs.Invariant.Run.{Call, create_call, DrawsIds, perform, run, run-initial-IsValid}
use q_browser.Tabs.Behaviour.{active_id-close_tab}
use q_browser.Tabs.History.{navigate_tab-go_back}
use q_browser.Tabs.RoundTrip.{replace-snapshots}
use q_browser.Tabs.Reopen.{reopen_most_recently_closed-close_tab}
use q_browser.Tabs.{
  TabState, dormant, normal, snapshots, default_visual_state_for, BrowserTabModel, dormant_state,
  find_tab, closed_has_id, generate_id, app, web, initial, active_id,
}

abbrev below_32 : ℕ → Bool
below_32 c = ltb c 32

abbrev first_id : Text
first_id = codes "00000000000000000000000000000001"

abbrev second_id : Text
second_id = codes "00000000000000000000000000000002"

abbrev address : Text
address = codes "https://example.org/"

abbrev two_tabs : List Call
two_tabs =
    create_call (first_id ∷ []) app (codes "One") address true
    ∷ create_call (first_id ∷ second_id ∷ []) web (codes "Two") address false
    ∷ []

abbrev two : BrowserTabModel
two = run below_32 initial two_tabs

drawn_ids : All DrawsIds two_tabs
unfolding is_valid_id
drawn_ids = ((refl, tt), ((refl, (refl, tt)), tt))

two-IsValid : IsValid below_32 two
two-IsValid = run-initial-IsValid below_32 two_tabs drawn_ids

run-initial-IsValid_example : IsValid below_32 two
run-initial-IsValid_example = run-initial-IsValid below_32 two_tabs drawn_ids

two_active : two.active_index ≡ pos 0
unfolding run perform create_tab append_tab generate_id find_tab closed_has_id canonical_title
    scan_title add_unit is_high_surrogate is_low_surrogate is_bidi_control text_eq dormant_state
two_active = refl

active_id-close_tab_example : active_id (close_tab two (pos 1)).0 ≡ active_id two
active_id-close_tab_example =
    active_id-close_tab below_32 two 1 two-IsValid (λ e. absurd (ground (arith, two_active)))

abbrev first_tab : TabState
first_tab = record {
  snapshot = record {
    id = first_id;
    kind = app;
    title = codes "One";
    address = address;
    history = address ∷ [];
    history_index = pos 0;
  };
  lifecycle = dormant;
  loading = false;
  progress = pos 0;
  visual_state = normal;
}

two_first : find_tab first_id two.tabs ≡ some (0, first_tab)
unfolding run perform create_tab append_tab generate_id find_tab closed_has_id canonical_title
    scan_title add_unit is_high_surrogate is_low_surrogate is_bidi_control text_eq dormant_state
    default_visual_state_for
two_first = refl

two_quiet : two.mutation_in_progress ≡ false
unfolding run perform create_tab append_tab generate_id find_tab closed_has_id canonical_title
    scan_title add_unit is_high_surrogate is_low_surrogate is_bidi_control text_eq dormant_state
two_quiet = refl

navigate_tab-go_back_example :
    (new : TabState) × (find_tab first_id
        (go_back
          (navigate_tab two first_id web (codes "https://example.net/")).0
          first_id
          app).0.tabs
      ≡ some (0, new))
    × (new.snapshot.address ≡ address)
    × (new.snapshot.history_index ≡ pos 0)
    × (new.snapshot.kind ≡ app)
unfolding text_eq
navigate_tab-go_back_example =
    navigate_tab-go_back below_32 two first_id (codes "https://example.net/") web app two-IsValid
      two_quiet two_first refl (omega arith) refl refl

replace-snapshots_example :
    ((replace_from_validated_snapshot below_32 initial (snapshots two) two.active_index).2 ≡ true)
    × (snapshots
          (replace_from_validated_snapshot below_32 initial (snapshots two) two.active_index).0
        ≡ snapshots two)
    × ((replace_from_validated_snapshot below_32 initial
          (snapshots two)
          two.active_index).0.active_index
        ≡ two.active_index)
replace-snapshots_example = replace-snapshots below_32 two initial two-IsValid refl

bell : canonical_title below_32 (7 ∷ codes "Hi") ≡ some (codes "Hi")
unfolding canonical_title scan_title add_unit is_high_surrogate is_low_surrogate is_bidi_control
    text_eq dormant_state
bell = refl

canonical_title_idem_example :
    IsClean below_32 (codes "Hi")
    × (length (codes "Hi") ≤ 256)
    × (canonical_title below_32 (codes "Hi") ≡ some (codes "Hi"))
canonical_title_idem_example = canonical_title_idem below_32 (7 ∷ codes "Hi") bell

abbrev third_id : Text
third_id = codes "00000000000000000000000000000003"

third_drawn : generate_id (close_tab two (pos 0)).0 (first_id ∷ third_id ∷ []) ≡ some third_id
unfolding run perform create_tab append_tab generate_id find_tab closed_has_id canonical_title
    scan_title add_unit is_high_surrogate is_low_surrogate is_bidi_control text_eq dormant_state
    close_tab close_found
third_drawn = refl

reopen_most_recently_closed-close_tab_example :
    let reopened =
      reopen_most_recently_closed (close_tab two (pos 0)).0 (first_id ∷ third_id ∷ []) true in
    (reopened.2 ≡ some third_id)
    × (text_eq first_id third_id ≡ false)
    × (reopened.0.tabs
        ≡ remove_at two.tabs 0 ++ dormant_state (record first_tab.snapshot { id = third_id }) ∷ [])
    × (reopened.0.recently_closed ≡ [])
    × (active_id reopened.0 ≡ third_id)
unfolding run perform create_tab append_tab generate_id find_tab closed_has_id canonical_title
    scan_title add_unit is_high_surrogate is_low_surrogate is_bidi_control text_eq dormant_state
    default_visual_state_for
reopen_most_recently_closed-close_tab_example =
    reopen_most_recently_closed-close_tab below_32 two 0 (first_id ∷ third_id ∷ []) true two-IsValid
      two_quiet refl third_drawn
