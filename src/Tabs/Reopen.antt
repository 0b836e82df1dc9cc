-- ===== src/Tabs/Reopen.antt =====
-- A tab that is closed and opened again: `closeTab` and `reopenMostRecentlyClosed` of
-- apps/host/BrowserTabModel.cpp.
use q_browser.Base.{
  ℕ, zero, suc, ◌-◌, ◌<◌, ◌≤◌, Bool, true, false, ◌||◌, some, List, [], ◌∷◌, ◌++◌, ◌≡◌, refl, ap,
  arith, length, get_elem?, drop, remove_at, length-append, length-remove_at, get_elem?-bound,
  if◌then◌else◌,
}
use q_browser.Base.Int.{ℤ, pos, negsuc}
use q_browser.Base.Text.{Text, text_eq}
use q_browser.Tabs.Methods.{
  append_tab, close_found, close_tab, remember_closed, unsnoc, reopen_most_recently_closed,
}
use q_browser.Tabs.Restore.{is_active_choice}
use q_browser.Tabs.Invariant.Valid.{IsValid, close_tab-IsValid}
use q_browser.Tabs.{
  BrowserTabSnapshot, TabState, BrowserTabModel, active_id, dormant_state, closed_has_id,
  generate_id, is_empty, max_open_tabs,
}

unsnoc-append {ℓ} : {A : Type ℓ} (xs : List A) (x : A) → unsnoc (xs ++ x ∷ []) ≡ some (xs, x)
unfolding unsnoc
unsnoc-append [] x = refl
unsnoc-append (y ∷ xs) x = ground (arith, unsnoc-append xs x)

module _ {ℓ} {A : Type ℓ} where
  drop-append : (n : ℕ) (xs ys : List A) → n ≤ length xs → drop n (xs ++ ys) ≡ drop n xs ++ ys
  drop-append zero xs ys h = refl
  drop-append (suc n) [] ys h = absurd (omega arith)
  drop-append (suc n) (x ∷ xs) ys h = drop-append n xs ys (omega arith)

  get_elem?-append :
      (xs ys : List A) (k : ℕ) → k < length xs → get_elem? (xs ++ ys) k ≡ get_elem? xs k
  get_elem?-append [] ys k h = absurd (omega arith)
  get_elem?-append (x ∷ xs) ys zero h = refl
  get_elem?-append (x ∷ xs) ys (suc k) h = get_elem?-append xs ys k (omega arith)

  get_elem?-last : (xs : List A) (x : A) → get_elem? (xs ++ x ∷ []) (length xs) ≡ some x
  get_elem?-last [] x = refl
  get_elem?-last (y ∷ xs) x = get_elem?-last xs x

-- Only the oldest entry makes room for a tab that is closed.
remember_closed_lem :
    (s : BrowserTabSnapshot) (closed : List BrowserTabSnapshot)
    → remember_closed s closed ≡ drop (length closed - 15) closed ++ s ∷ []
remember_closed_lem s closed =
    let n = length-append closed (s ∷ []) in
    let kept = drop-append (length closed - 15) closed (s ∷ []) (omega arith) in
    let dropped : length (closed ++ s ∷ []) - 16 ≡ length closed - 15 = omega (arith, n) in
    rw dropped kept

closed_has_id-append :
    (id : Text) (closed : List BrowserTabSnapshot) (s : BrowserTabSnapshot)
    → text_eq s.id id ≡ true
    → closed_has_id id (closed ++ s ∷ []) ≡ true
unfolding closed_has_id
closed_has_id-append id [] s h = ground arith
closed_has_id-append id (c ∷ closed) s h = ground (arith, closed_has_id-append id closed s h)

generate_id-unused :
    (m : BrowserTabModel) (drawn : List Text) {id : Text}
    → generate_id m drawn ≡ some id
    → closed_has_id id m.recently_closed ≡ false
unfolding generate_id
generate_id-unused m [] h = cc
generate_id-unused m (x ∷ drawn) {id} h = ground (arith, generate_id-unused m drawn {id = id})

appended :
    (m : BrowserTabModel) (s : BrowserTabSnapshot) (make_active : Bool)
    → let o = append_tab m s make_active in
      (o.0.tabs ≡ m.tabs ++ dormant_state s ∷ [])
      × (o.0.recently_closed ≡ m.recently_closed)
      × (o.2 ≡ s.id)
unfolding append_tab
appended m s make_active = (refl, refl, refl)

-- The tab that is active once one has been appended.
active_id-append :
    (m : BrowserTabModel) (s : BrowserTabSnapshot) (make_active : Bool)
    → is_active_choice (length m.tabs) m.active_index ≡ true
    → active_id (append_tab m s make_active).0
      ≡ (if make_active || is_empty m.tabs then s.id else active_id m)
unfolding append_tab dormant_state
active_id-append m s make_active h = go m.active_index refl m.tabs refl
  where
    go :
        (i : ℤ)
        → m.active_index ≡ i
        → (tabs : List TabState) → m.tabs ≡ tabs
        → active_id (append_tab m s make_active).0
          ≡ (if make_active || is_empty m.tabs then s.id else active_id m)
    go (negsuc n) e [] f = ground (arith, get_elem?-last m.tabs (dormant_state s))
    go (negsuc n) e (t ∷ tabs) f = absurd (ground arith)
    go (pos k) e [] f = absurd (ground arith)
    go (pos k) e (t ∷ tabs) f = ground (
      arith,
      get_elem?-last m.tabs (dormant_state s),
      get_elem?-append m.tabs (dormant_state s ∷ []) k,
    )

-- What `closeTab` leaves behind.
close_tab-found :
    (m : BrowserTabModel) (i : ℕ) {tab : TabState}
    → m.mutation_in_progress ≡ false
    → get_elem? m.tabs i ≡ some tab
    → let closed = (close_tab m (pos i)).0 in
      (closed.tabs ≡ remove_at m.tabs i)
      × (closed.recently_closed
          ≡ drop (length m.recently_closed - 15) m.recently_closed ++ tab.snapshot ∷ [])
      × (closed.mutation_in_progress ≡ false)
unfolding close_tab close_found
close_tab-found m i {tab} quiet g =
    ground (arith, remember_closed_lem tab.snapshot m.recently_closed)

-- What `reopenMostRecentlyClosed` does where there is a closed tab and room for it.
reopen-found :
    (m : BrowserTabModel) (drawn : List Text) (make_active : Bool) (rest : List BrowserTabSnapshot)
    (last : BrowserTabSnapshot) {id : Text}
    → m.mutation_in_progress ≡ false
    → m.recently_closed ≡ rest ++ last ∷ []
    → length m.tabs < max_open_tabs
    → generate_id m drawn ≡ some id
    → let o =
        append_tab (record m { recently_closed = rest }) (record last { id = id }) make_active in
      reopen_most_recently_closed m drawn make_active ≡ (o.0, o.1, some o.2)
unfolding reopen_most_recently_closed
reopen-found m drawn make_active rest last {id} quiet e room g =
    let back : unsnoc m.recently_closed ≡ some (rest, last) =
      ground (arith, unsnoc-append rest last) in
    ground arith

module _ (is_control : ℕ → Bool) where
  -- In a model that satisfies the invariant and is not under way, the tab at an index is closed and
  -- the most recently closed tab opened again, where `generateId` ends with an identifier. This
  -- opens the same tab, behind the others, dormant and under an identifier other than its old one.
  -- What was closed before stays remembered, but for the oldest entry where there were 16. The tab
  -- is active if that is asked for or if no other is open; otherwise the tab that was active after
  -- the close stays active.
  pub reopen_most_recently_closed-close_tab :
      (m : BrowserTabModel) (i : ℕ) (drawn : List Text) (make_active : Bool) {tab : TabState}
      {id : Text}
      → IsValid is_control m
      → m.mutation_in_progress ≡ false
      → get_elem? m.tabs i ≡ some tab
      → generate_id (close_tab m (pos i)).0 drawn ≡ some id
      → let closed = (close_tab m (pos i)).0 in
        let reopened = reopen_most_recently_closed closed drawn make_active in
        (reopened.2 ≡ some id)
        × (text_eq tab.snapshot.id id ≡ false)
        × (reopened.0.tabs
            ≡ remove_at m.tabs i ++ dormant_state (record tab.snapshot { id = id }) ∷ [])
        × (reopened.0.recently_closed ≡ drop (length m.recently_closed - 15) m.recently_closed)
        × (active_id reopened.0
            ≡ (if make_active || is_empty (remove_at m.tabs i) then id else active_id closed))
  reopen_most_recently_closed-close_tab m i drawn make_active {tab} {id} v quiet g fresh =
      let closed = (close_tab m (pos i)).0 in
      let rest = drop (length m.recently_closed - 15) m.recently_closed in
      let (tabs_are, closed_are, still) = close_tab-found m i quiet g in
      let v' = close_tab-IsValid is_control m (pos i) v in
      let fewer = length-remove_at m.tabs i (get_elem?-bound m.tabs i g) in
      let room : length closed.tabs < max_open_tabs =
        rw tabs_are omega (arith, v.tabs_bound, fewer) in
      let made =
        reopen-found closed drawn make_active rest tab.snapshot still closed_are room fresh in
      let before : BrowserTabModel = record closed { recently_closed = rest } in
      let active =
        active_id-append before (record tab.snapshot { id = id }) make_active v'.active_choice in
      let own = closed_has_id-append id rest tab.snapshot in
      let unused = generate_id-unused closed drawn fresh in
      let (tabs', closed', made_id) =
        appended before (record tab.snapshot { id = id }) make_active in
      rw made (
        ap some made_id,
        ground (arith, own, unused),
        ground (arith, tabs', tabs_are),
        closed',
        ground (arith, active, tabs_are),
      )
