-- ===== src/Tabs/Invariant/Run.antt =====
-- The invariant after any history of calls of a tab model.
use q_browser.Base.{ℕ, ◌≤◌, Bool, true, false, List, [], ◌∷◌, ◌≡◌, refl, arith, length, map, All}
use q_browser.Base.Int.{ℤ}
use q_browser.Base.Text.{Text, text_eq_iff}
use q_browser.Tabs.Methods.{
  create_tab, activate_tab, move_tab, close_tab, reopen_most_recently_closed, navigate_tab, go_back,
  go_forward, set_title, set_lifecycle, set_load_state, set_visual_state,
}
use q_browser.Tabs.Restore.{
  is_valid_id, is_active_choice, snapshots_valid, contains_id, replace_from_validated_snapshot,
}
use q_browser.Tabs.Invariant.Lookup.{Distinct}
use q_browser.Tabs.Invariant.Valid.{
  IsStoredTab, IsValid, initial-IsValid, activate_tab-IsValid, navigate_tab-IsValid,
  move_tab-IsValid, close_tab-IsValid, create_tab-IsValid, reopen-IsValid,
}
use q_browser.Tabs.{
  BrowserTabSnapshot, BrowserTabKind, BrowserTabLifecycle, BrowserVisualState, BrowserTabModel,
  Result, Signal, initial, find_tab, has_tab, dormant_state,
}
use q_browser.Tabs.Invariant.Change.{
  go_back-IsValid, go_forward-IsValid, set_title-IsValid, set_lifecycle-IsValid,
  set_load_state-IsValid, set_visual_state-IsValid,
}

length-map : (ss : List BrowserTabSnapshot) → length (map dormant_state ss) ≡ length ss
length-map [] = refl
length-map (s ∷ ss) = ground (arith, length-map ss)

-- A snapshot behind one that was accepted has another identifier.
restored_fresh :
    (is_control : ℕ → Bool) (ids : List Text) (ss : List BrowserTabSnapshot) (id : Text)
    → snapshots_valid is_control ids ss ≡ true
    → contains_id id ids ≡ true
    → has_tab id (map dormant_state ss) ≡ false
unfolding snapshots_valid find_tab dormant_state contains_id
restored_fresh c ids [] id h k = refl
restored_fresh c ids (s ∷ ss) id h k =
    ground (arith, restored_fresh c (s.id ∷ ids) ss id, text_eq_iff s.id id)

restored-Distinct :
    (is_control : ℕ → Bool) (ids : List Text) (ss : List BrowserTabSnapshot)
    → snapshots_valid is_control ids ss ≡ true
    → Distinct (map dormant_state ss)
unfolding snapshots_valid dormant_state contains_id
restored-Distinct c ids [] h = tt
restored-Distinct c ids (s ∷ ss) h = ground (
  arith,
  restored_fresh c (s.id ∷ ids) ss s.id,
  restored-Distinct c (s.id ∷ ids) ss,
  text_eq_iff s.id s.id,
)

restored_stored :
    (is_control : ℕ → Bool) (ids : List Text) (ss : List BrowserTabSnapshot)
    → snapshots_valid is_control ids ss ≡ true
    → All (IsStoredTab is_control) (map dormant_state ss)
unfolding snapshots_valid dormant_state
restored_stored c ids [] h = tt
restored_stored c ids (s ∷ ss) h = ground (arith, restored_stored c (s.id ∷ ids) ss)

-- One call of a method.
pub data Call : Type 0 where
  create_call : List Text → BrowserTabKind → Text → Text → Bool → Call
  activate_call close_call : ℤ → Call
  move_call : ℤ → ℤ → Call
  reopen_call : List Text → Bool → Call
  navigate_call : Text → BrowserTabKind → Text → Call
  back_call forward_call : Text → BrowserTabKind → Call
  title_call : Text → Text → Call
  lifecycle_call : Text → BrowserTabLifecycle → Call
  load_call : Text → Bool → ℤ → Call
  visual_call : Text → BrowserVisualState → Call
  replace_call : List BrowserTabSnapshot → ℤ → Call

-- The identifiers that the call draws are 32 hexadecimal digits, as `toString(QUuid::Id128)` says.
abbrev pub DrawsIds : Call → Type 0
DrawsIds (create_call drawn _ _ _ _) = All (λ id. is_valid_id id ≡ true) drawn
DrawsIds (reopen_call drawn _) = All (λ id. is_valid_id id ≡ true) drawn
DrawsIds _ = Unit

abbrev observed {ℓ} : {A : Type ℓ} → Result A → BrowserTabModel × List Signal
observed (m, signals, a) = (m, signals)

module _ (is_control : ℕ → Bool) where
  -- The model after a call, and the signals that the call emits.
  unfoldable pub perform : BrowserTabModel → Call → BrowserTabModel × List Signal
  perform m (create_call drawn kind title address make_active) =
      observed (create_tab is_control m drawn kind title address make_active)
  perform m (activate_call i) = observed (activate_tab m i)
  perform m (close_call i) = observed (close_tab m i)
  perform m (move_call from to) = observed (move_tab m from to)
  perform m (reopen_call drawn make_active) =
      observed (reopen_most_recently_closed m drawn make_active)
  perform m (navigate_call id kind address) = observed (navigate_tab m id kind address)
  perform m (back_call id kind) = observed (go_back m id kind)
  perform m (forward_call id kind) = observed (go_forward m id kind)
  perform m (title_call id title) = observed (set_title is_control m id title)
  perform m (lifecycle_call id l) = observed (set_lifecycle m id l)
  perform m (load_call id loading progress) = observed (set_load_state m id loading progress)
  perform m (visual_call id s) = observed (set_visual_state m id s)
  perform m (replace_call ss active) =
      observed (replace_from_validated_snapshot is_control m ss active)

  abbrev pub step : BrowserTabModel → Call → BrowserTabModel
  step m c = (perform m c).0

  unfoldable pub run : BrowserTabModel → List Call → BrowserTabModel
  run m [] = m
  run m (c ∷ cs) = run (step m c) cs

  replaced-IsValid :
      (m : BrowserTabModel) (ss : List BrowserTabSnapshot) (active : ℤ)
      → length ss ≤ 16
      → is_active_choice (length ss) active ≡ true
      → snapshots_valid is_control [] ss ≡ true
      → IsValid is_control
          (record m { tabs = map dormant_state ss; recently_closed = []; active_index = active })
  replaced-IsValid m ss active few choice ok = record {
    tabs_bound = omega (arith, length-map ss);
    closed_bound = omega arith;
    tabs_stored = restored_stored is_control [] ss ok;
    closed_stored = tt;
    ids_distinct = restored-Distinct is_control [] ss ok;
    active_choice = rw (length-map ss) choice;
  }

  replace-IsValid :
      (m : BrowserTabModel) (ss : List BrowserTabSnapshot) (active : ℤ)
      → IsValid is_control m
      → IsValid is_control (replace_from_validated_snapshot is_control m ss active).0
  unfolding replace_from_validated_snapshot
  replace-IsValid m ss active v = ground (arith, replaced-IsValid m ss active)

  pub step-IsValid :
      (m : BrowserTabModel) (c : Call)
      → DrawsIds c
      → IsValid is_control m
      → IsValid is_control (step m c)
  unfolding perform
  step-IsValid m (create_call drawn kind title address make_active) d v =
      create_tab-IsValid is_control m drawn kind title address make_active d v
  step-IsValid m (activate_call i) d v = activate_tab-IsValid is_control m i v
  step-IsValid m (close_call i) d v = close_tab-IsValid is_control m i v
  step-IsValid m (move_call from to) d v = move_tab-IsValid is_control m from to v
  step-IsValid m (reopen_call drawn make_active) d v =
      reopen-IsValid is_control m drawn make_active d v
  step-IsValid m (navigate_call id kind address) d v =
      navigate_tab-IsValid is_control m id kind address v
  step-IsValid m (back_call id kind) d v = go_back-IsValid is_control m id kind v
  step-IsValid m (forward_call id kind) d v = go_forward-IsValid is_control m id kind v
  step-IsValid m (title_call id title) d v = set_title-IsValid is_control m id title v
  step-IsValid m (lifecycle_call id l) d v = set_lifecycle-IsValid is_control m id l v
  step-IsValid m (load_call id loading progress) d v =
      set_load_state-IsValid is_control m id loading progress v
  step-IsValid m (visual_call id s) d v = set_visual_state-IsValid is_control m id s v
  step-IsValid m (replace_call ss active) d v = replace-IsValid m ss active v

  run-IsValid :
      (m : BrowserTabModel) (cs : List Call)
      → All DrawsIds cs
      → IsValid is_control m
      → IsValid is_control (run m cs)
  unfolding run
  run-IsValid m [] d v = v
  run-IsValid m (c ∷ cs) d v = run-IsValid (step m c) cs d.1 (step-IsValid m c d.0 v)

  -- After any history of calls of a new model, where each identifier that is drawn is 32 lower-case
  -- hexadecimal digits: at most 16 tabs and 16 recently closed tabs, the
  -- identifiers of the tabs differ, the active index names a tab or is -1 where there is none, and
  -- the snapshot of every open and every recently closed tab is one that
  -- `isValidRestoredSnapshot` accepts.
  pub run-initial-IsValid : (cs : List Call) → All DrawsIds cs → IsValid is_control (run initial cs)
  run-initial-IsValid cs d = run-IsValid initial cs d (initial-IsValid is_control)
