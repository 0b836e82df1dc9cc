-- ===== src/Tabs/Invariant/Valid.antt =====
-- The invariant of a tab model, kept by each method.
use q_browser.Base.{
  ℕ, zero, suc, ◌-◌, ◌<◌, ◌≤◌, Bool, true, false, some, List, [], ◌∷◌, ◌++◌, ◌≡◌, refl, arith,
  length, get_elem?, drop, set, remove_at, insert_at, length-append, length-drop, length-set,
  length-remove_at, length-insert_at, All, Option-cases, inl, inr, get_elem?-lt, get_elem?-bound,
}
use q_browser.Base.Int.{ℤ, pos, negsuc}
use q_browser.Base.Text.{Text, text_eq_iff}
use q_browser.Tabs.Title.{canonical_title}
use q_browser.Tabs.Methods.{
  append_tab, create_tab, activate_tab, move, move_tab, active_after_close, close_found, close_tab,
  unsnoc, reopen_most_recently_closed, visit, navigate_found, navigate_tab,
}
use q_browser.Tabs.Restore.{is_valid_id, is_active_choice}
use q_browser.Tabs.Invariant.Lookup.{
  find_tab-found, Distinct, find_tab-get_elem?, Distinct-set, Distinct-concat, Distinct-remove_at,
  Distinct-insert_at, has_tab-remove_at, has_tab-insert_at, All-get_elem?, All-set, All-remove_at,
  All-insert_at,
}
use q_browser.Tabs.Invariant.Snapshots.{
  IsStored, visit-IsStored, kind-IsStored, new-IsStored, id-IsStored,
}
use q_browser.Tabs.{
  BrowserTabSnapshot, BrowserTabKind, TabState, BrowserTabModel, initial, max_open_tabs,
  max_recently_closed, find_tab, has_tab, index_of_id, active_id, apply_validated_kind,
  dormant_state, generate_id,
}

visited_id : (s : BrowserTabSnapshot) (address : Text) → (visit s address).id ≡ s.id
unfolding visit
visited_id s address = refl

-- What the methods choose as the active tab is one of the tabs.
index_choice :
    (m : BrowserTabModel) (id : Text)
    → has_tab id m.tabs ≡ true
    → is_active_choice (length m.tabs) (index_of_id m id) ≡ true
index_choice m id h = elim (Option-cases (find_tab id m.tabs)) [
  | inl e ↦ ground arith
  | inr ((i, tab), e) ↦ ground (arith, find_tab-found id m.tabs e)
]

-- The active tab of a model with tabs.
pub active_tab :
    (m : BrowserTabModel)
    → 0 < length m.tabs
    → is_active_choice (length m.tabs) m.active_index ≡ true
    → Distinct m.tabs
    → (k : ℕ) × (tab : TabState) × (m.active_index ≡ pos k)
      × (get_elem? m.tabs k ≡ some tab)
      × (active_id m ≡ tab.snapshot.id)
      × (find_tab tab.snapshot.id m.tabs ≡ some (k, tab))
active_tab m some_tab choice d = go m.active_index refl
  where
    go :
        (i : ℤ)
        → m.active_index ≡ i
        → (k : ℕ) × (tab : TabState) × (m.active_index ≡ pos k)
          × (get_elem? m.tabs k ≡ some tab)
          × (active_id m ≡ tab.snapshot.id)
          × (find_tab tab.snapshot.id m.tabs ≡ some (k, tab))
    go (negsuc n) e = absurd (ground arith)
    go (pos k) e =
        let (tab, g) = get_elem?-lt m.tabs k (ground arith) in
        (k, tab, e, g, ground arith, find_tab-get_elem? m.tabs k d g)

All-drop {ℓ κ} : {A : Type ℓ} (P : A → Type κ) (n : ℕ) (xs : List A) → All P xs → All P (drop n xs)
All-drop P zero xs a = a
All-drop P (suc n) [] a = tt
All-drop P (suc n) (x ∷ xs) a = All-drop P n xs a.1

All-append {ℓ κ} :
    {A : Type ℓ} (P : A → Type κ) (xs ys : List A) → All P xs → All P ys → All P (xs ++ ys)
All-append P [] ys a b = b
All-append P (x ∷ xs) ys a b = (a.0, All-append P xs ys a.1 b)

-- An identifier that `generateId` ends with is one of those drawn, and no open tab has it.
pub generate_id-fresh :
    (m : BrowserTabModel) (drawn : List Text) {id : Text}
    → All (λ x. is_valid_id x ≡ true) drawn
    → generate_id m drawn ≡ some id
    → (is_valid_id id ≡ true) × (has_tab id m.tabs ≡ false)
unfolding generate_id
generate_id-fresh m [] ok h = cc
generate_id-fresh m (x ∷ drawn) {id} ok h =
    ground (arith, generate_id-fresh m drawn {id = id} ok.1, ok.0)

unsnoc-IsStored :
    (is_control : ℕ → Bool) (xs : List BrowserTabSnapshot) {ys : List BrowserTabSnapshot}
    {y : BrowserTabSnapshot}
    → unsnoc xs ≡ some (ys, y)
    → All (IsStored is_control) xs
    → All (IsStored is_control) ys × IsStored is_control y × (length ys ≤ length xs)
unfolding unsnoc
unsnoc-IsStored c [] h a = cc
unsnoc-IsStored c (x ∷ xs) {ys} {y} h a = elim (Option-cases (unsnoc xs)) [
  | inl n ↦ ground (arith, a.0)
  | inr ((zs, z), n) ↦ ground (arith, unsnoc-IsStored c xs n a.1, a.0)
]

module _ (is_control : ℕ → Bool) where
  abbrev pub IsStoredTab : TabState → Type 0
  IsStoredTab tab = IsStored is_control tab.snapshot

  pub record IsValid (m : BrowserTabModel) : Type 0 where
    pub tabs_bound : length m.tabs ≤ max_open_tabs
    pub closed_bound : length m.recently_closed ≤ max_recently_closed
    pub tabs_stored : All IsStoredTab m.tabs
    pub closed_stored : All (IsStored is_control) m.recently_closed
    pub ids_distinct : Distinct m.tabs
    pub active_choice : is_active_choice (length m.tabs) m.active_index ≡ true

  pub initial-IsValid : IsValid initial
  initial-IsValid = record {
    tabs_bound = omega arith;
    closed_bound = omega arith;
    tabs_stored = tt;
    closed_stored = tt;
    ids_distinct = tt;
    active_choice = refl;
  }

  -- A tab is replaced by one with the same identifier.
  pub changed-IsValid :
      (m : BrowserTabModel) (i : ℕ) (old new : TabState)
      → IsValid m
      → get_elem? m.tabs i ≡ some old
      → new.snapshot.id ≡ old.snapshot.id
      → IsStoredTab new
      → IsValid (record m { tabs = set m.tabs i new })
  changed-IsValid m i old new v g e s =
      let same = length-set m.tabs i new in
      record {
        tabs_bound = omega (arith, v.tabs_bound);
        closed_bound = v.closed_bound;
        tabs_stored = All-set IsStoredTab m.tabs i new v.tabs_stored s;
        closed_stored = v.closed_stored;
        ids_distinct = Distinct-set m.tabs i new g e v.ids_distinct;
        active_choice = rw same v.active_choice;
      }

  pub id_of_kind :
      (tab : TabState) (kind : BrowserTabKind)
      → (apply_validated_kind tab kind).snapshot.id ≡ tab.snapshot.id
  unfolding apply_validated_kind
  id_of_kind tab kind = ground arith

  pub activate_tab-IsValid :
      (m : BrowserTabModel) (i : ℤ) → IsValid m → IsValid (activate_tab m i).0
  unfolding activate_tab
  activate_tab-IsValid m (pos i) v = ground arith
  activate_tab-IsValid m (negsuc i) v = ground arith

  pub navigate_tab-IsValid :
      (m : BrowserTabModel) (id : Text) (kind : BrowserTabKind) (address : Text)
      → IsValid m
      → IsValid (navigate_tab m id kind address).0
  unfolding navigate_tab navigate_found
  navigate_tab-IsValid m id kind address v = elim (Option-cases (find_tab id m.tabs)) [
    | inl e ↦ ground arith
    | inr ((i, tab), e) ↦
        let (g, same, bound) = find_tab-found id m.tabs e in
        let stored = All-get_elem? IsStoredTab m.tabs i v.tabs_stored g in
        let visited : TabState = record tab { snapshot = visit tab.snapshot address } in
        ground (
          arith,
          changed-IsValid m i tab (apply_validated_kind tab kind) v g (id_of_kind tab kind)
              (kind-IsStored is_control tab kind stored),
          changed-IsValid m i tab (apply_validated_kind visited kind) v g,
          id_of_kind visited kind,
          visited_id tab.snapshot address,
          kind-IsStored is_control visited kind,
          visit-IsStored is_control tab.snapshot address,
          stored,
        )
  ]

  moved-IsValid :
      (m : BrowserTabModel) (from to : ℕ)
      → from < length m.tabs
      → IsValid m
      → IsValid (record m {
        tabs = move m.tabs from to;
        active_index = index_of_id (record m { tabs = move m.tabs from to }) (active_id m);
      })
  moved-IsValid m from to h v =
      let (x, g) = get_elem?-lt m.tabs from h in
      let rest = remove_at m.tabs from in
      let moved = insert_at rest to x in
      let (k, tab, _, _, id_is, found) =
        active_tab m (omega arith) v.active_choice v.ids_distinct in
      let there : has_tab (active_id m) moved ≡ true = ground (
        arith,
        has_tab-insert_at (active_id m) rest to x,
        has_tab-remove_at (active_id m) m.tabs from v.ids_distinct g,
      ) in
      let gone : has_tab x.snapshot.id rest ≡ false = ground (
        arith,
        has_tab-remove_at x.snapshot.id m.tabs from v.ids_distinct g,
        text_eq_iff x.snapshot.id x.snapshot.id,
      ) in
      rw (g, move)
        (record {
          tabs_bound =
              omega
                (arith, v.tabs_bound, length-insert_at rest to x, length-remove_at m.tabs from h);
          closed_bound = v.closed_bound;
          tabs_stored =
              All-insert_at IsStoredTab rest to x
                (All-remove_at IsStoredTab m.tabs from v.tabs_stored)
                (All-get_elem? IsStoredTab m.tabs from v.tabs_stored g);
          closed_stored = v.closed_stored;
          ids_distinct =
              Distinct-insert_at rest to x gone (Distinct-remove_at m.tabs from g v.ids_distinct);
          active_choice = index_choice (record m { tabs = moved }) (active_id m) there;
        })

  pub move_tab-IsValid :
      (m : BrowserTabModel) (from to : ℤ) → IsValid m → IsValid (move_tab m from to).0
  unfolding move_tab
  move_tab-IsValid m (pos from) (pos to) v = ground (arith, moved-IsValid m from to)
  move_tab-IsValid m (pos from) (negsuc to) v = ground arith
  move_tab-IsValid m (negsuc from) to v = ground arith

  active_after_close-choice :
      (m : BrowserTabModel) (i : ℕ) (tab : TabState) (tabs : List TabState)
      → IsValid m
      → get_elem? m.tabs i ≡ some tab
      → i < length m.tabs
      → remove_at m.tabs i ≡ tabs
      → is_active_choice (length tabs) (active_after_close m i tabs) ≡ true
  unfolding active_after_close
  active_after_close-choice m i tab [] v g b e = refl
  active_after_close-choice m i tab (t ∷ tabs) v g b e =
      let (k, active, at_k, _, id_is, found) =
        active_tab m (omega arith) v.active_choice v.ids_distinct in
      let here : find_tab tab.snapshot.id m.tabs ≡ some (i, tab) =
        find_tab-get_elem? m.tabs i v.ids_distinct g in
      ground (
        arith,
        index_choice (record m { tabs = t ∷ tabs }) (active_id m),
        has_tab-remove_at (active_id m) m.tabs i v.ids_distinct g,
        text_eq_iff tab.snapshot.id (active_id m),
        e,
      )

  close_found-IsValid :
      (m : BrowserTabModel) (i : ℕ) (tab : TabState)
      → IsValid m
      → get_elem? m.tabs i ≡ some tab
      → i < length m.tabs
      → IsValid (close_found m i tab).0
  unfolding close_found
  close_found-IsValid m i tab v g b =
      let more = m.recently_closed ++ tab.snapshot ∷ [] in
      let n = length more - max_recently_closed in
      record {
        tabs_bound = omega (arith, v.tabs_bound, length-remove_at m.tabs i b);
        closed_bound = omega (arith, length-drop n more);
        tabs_stored = All-remove_at IsStoredTab m.tabs i v.tabs_stored;
        closed_stored = All-drop (IsStored is_control) n more (
            All-append (IsStored is_control) m.recently_closed (tab.snapshot ∷ []) v.closed_stored
              (All-get_elem? IsStoredTab m.tabs i v.tabs_stored g, tt));
        ids_distinct = Distinct-remove_at m.tabs i g v.ids_distinct;
        active_choice = active_after_close-choice m i tab (remove_at m.tabs i) v g b refl;
      }

  pub close_tab-IsValid : (m : BrowserTabModel) (i : ℤ) → IsValid m → IsValid (close_tab m i).0
  unfolding close_tab
  close_tab-IsValid m (negsuc i) v = ground arith
  close_tab-IsValid m (pos i) v = elim (Option-cases (get_elem? m.tabs i)) [
    | inl e ↦ ground arith
    | inr (tab, e) ↦ ground (arith, close_found-IsValid m i tab v e (get_elem?-bound m.tabs i e))
  ]

  append_tab-IsValid :
      (m : BrowserTabModel) (s : BrowserTabSnapshot) (make_active : Bool)
      → IsValid m
      → length m.tabs < max_open_tabs
      → has_tab s.id m.tabs ≡ false
      → IsStored is_control s
      → IsValid (append_tab m s make_active).0
  unfolding append_tab dormant_state
  append_tab-IsValid m s make_active v room fresh stored =
      let len = length-append m.tabs (dormant_state s ∷ []) in
      record {
        tabs_bound = omega (arith, len);
        closed_bound = v.closed_bound;
        tabs_stored =
            All-append IsStoredTab m.tabs (dormant_state s ∷ []) v.tabs_stored (stored, tt);
        closed_stored = v.closed_stored;
        ids_distinct = Distinct-concat m.tabs (dormant_state s) fresh v.ids_distinct;
        active_choice = ground (arith, v.active_choice, len);
      }

  pub create_tab-IsValid :
      (m : BrowserTabModel) (drawn : List Text) (kind : BrowserTabKind) (title address : Text)
      (make_active : Bool)
      → All (λ id. is_valid_id id ≡ true) drawn
      → IsValid m
      → IsValid (create_tab is_control m drawn kind title address make_active).0
  unfolding create_tab
  create_tab-IsValid m drawn kind title address make_active ok v =
      elim (Option-cases (canonical_title is_control title)) [
        | inl e ↦ ground arith
        | inr (safe, e) ↦ elim (Option-cases (generate_id m drawn)) [
          | inl n ↦ ground arith
          | inr (id, n) ↦
              let (valid, fresh) = generate_id-fresh m drawn ok n in
              let s : BrowserTabSnapshot = record {
                id = id;
                kind = kind;
                title = safe;
                address = address;
                history = address ∷ [];
                history_index = pos 0;
              } in
              ground (
                arith,
                append_tab-IsValid m s make_active v,
                fresh,
                new-IsStored is_control id kind title address {safe = safe} valid,
              )
        ]
      ]

  pub reopen-IsValid :
      (m : BrowserTabModel) (drawn : List Text) (make_active : Bool)
      → All (λ id. is_valid_id id ≡ true) drawn
      → IsValid m
      → IsValid (reopen_most_recently_closed m drawn make_active).0
  unfolding reopen_most_recently_closed
  reopen-IsValid m drawn make_active ok v = elim (Option-cases (unsnoc m.recently_closed)) [
    | inl e ↦ ground arith
    | inr ((rest, last), e) ↦ elim (Option-cases (generate_id m drawn)) [
      | inl n ↦ ground arith
      | inr (id, n) ↦
          let (valid, fresh) = generate_id-fresh m drawn ok n in
          let (stored_rest, stored_last, shorter) =
            unsnoc-IsStored is_control m.recently_closed e v.closed_stored in
          let m' : BrowserTabModel = record m { recently_closed = rest } in
          let v' : IsValid m' = record {
            tabs_bound = v.tabs_bound;
            closed_bound = omega (arith, v.closed_bound);
            tabs_stored = v.tabs_stored;
            closed_stored = stored_rest;
            ids_distinct = v.ids_distinct;
            active_choice = v.active_choice;
          } in
          ground (
            arith,
            append_tab-IsValid m' (record last { id = id }) make_active v',
            fresh,
            id-IsStored is_control last id valid stored_last,
          )
    ]
  ]
