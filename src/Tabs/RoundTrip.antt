-- ===== src/Tabs/RoundTrip.antt =====
-- The open tabs as `snapshots` stores them and `replaceFromValidatedSnapshot` restores them:
-- apps/host/BrowserTabModel.cpp.
use q_browser.Base.{
  ℕ, suc, Bool, true, false, none, List, [], ◌∷◌, map, ◌≡◌, refl, ap, arith, length, Option-cases,
  inl, inr, All,
}
use q_browser.Base.Text.{Text, text_eq_iff}
use q_browser.Tabs.Restore.{
  eq_texts, eq_snapshot, tabs_restored, contains_id, snapshots_valid,
  replace_from_validated_snapshot,
}
use q_browser.Tabs.Invariant.Lookup.{Distinct}
use q_browser.Tabs.Invariant.Valid.{IsValid, IsStoredTab}
use q_browser.Tabs.{
  BrowserTabKind, host, app, web, trusted_error, BrowserTabSnapshot, TabState, BrowserTabModel,
  find_tab, dormant_state, snapshots, eq_kind,
}

eq_texts_iff : (a b : List Text) → eq_texts a b ≡ true → a ≡ b
eq_texts_iff [] [] h = refl
eq_texts_iff (x ∷ a) (y ∷ b) h = ground (arith, eq_texts_iff a b, text_eq_iff x y)
eq_texts_iff _ _ h = ground arith

eq_kind_iff : (a b : BrowserTabKind) → eq_kind a b ≡ true → a ≡ b
eq_kind_iff host host h = refl
eq_kind_iff app app h = refl
eq_kind_iff web web h = refl
eq_kind_iff trusted_error trusted_error h = refl
eq_kind_iff _ _ h = ground arith

eq_snapshot_iff : (a b : BrowserTabSnapshot) → eq_snapshot a b ≡ true → a ≡ b
unfolding eq_snapshot
eq_snapshot_iff a b h = ground (
  arith,
  text_eq_iff a.id b.id,
  eq_kind_iff a.kind b.kind,
  text_eq_iff a.title b.title,
  text_eq_iff a.address b.address,
  eq_texts_iff a.history b.history,
)

-- Where `replaceFromValidatedSnapshot` finds nothing to do, the tabs have the snapshots given.
tabs_restored-snapshots :
    (tabs : List TabState) (ss : List BrowserTabSnapshot)
    → tabs_restored tabs ss ≡ true
    → map (λ tab. tab.snapshot) tabs ≡ ss
unfolding tabs_restored
tabs_restored-snapshots [] [] h = refl
tabs_restored-snapshots (t ∷ tabs) (s ∷ ss) h =
    ground (arith, tabs_restored-snapshots tabs ss, eq_snapshot_iff t.snapshot s)
tabs_restored-snapshots _ _ h = ground arith

snapshots_dormant :
    (ss : List BrowserTabSnapshot) → map (λ tab. tab.snapshot) (map dormant_state ss) ≡ ss
unfolding dormant_state
snapshots_dormant [] = refl
snapshots_dormant (s ∷ ss) = ap (λ rest. s ∷ rest) (snapshots_dormant ss)

length-snapshots : (tabs : List TabState) → length (map (λ tab. tab.snapshot) tabs) ≡ length tabs
length-snapshots [] = refl
length-snapshots (t ∷ tabs) = ap suc (length-snapshots tabs)

-- No tab has one of the identifiers.
abbrev IsApart : List Text → List TabState → Type 0
IsApart ids tabs = All (λ (t : TabState). contains_id t.snapshot.id ids ≡ false) tabs

IsApart-cons :
    (id : Text) (ids : List Text) (tabs : List TabState)
    → find_tab id tabs ≡ none
    → IsApart ids tabs
    → IsApart (id ∷ ids) tabs
unfolding find_tab contains_id
IsApart-cons id ids [] h a = tt
IsApart-cons id ids (t ∷ tabs) h a = elim (Option-cases (find_tab id tabs)) [
  | inl e ↦ (
    ground (arith, text_eq_iff t.snapshot.id id, text_eq_iff id t.snapshot.id),
    IsApart-cons id ids tabs e a.1,
  )
  | inr (f, e) ↦ absurd (ground arith)
]

module _ (is_control : ℕ → Bool) where
  stored_valid :
      (ids : List Text) (tabs : List TabState)
      → All (IsStoredTab is_control) tabs
      → Distinct tabs
      → IsApart ids tabs
      → snapshots_valid is_control ids (map (λ tab. tab.snapshot) tabs) ≡ true
  unfolding snapshots_valid
  stored_valid ids [] s d a = refl
  stored_valid ids (t ∷ tabs) s d a = ground (
    arith,
    stored_valid (t.snapshot.id ∷ ids) tabs s.1 d.1 (IsApart-cons t.snapshot.id ids tabs d.0 a.1),
  )

  IsApart-nothing : (tabs : List TabState) → IsApart [] tabs
  unfolding contains_id
  IsApart-nothing [] = tt
  IsApart-nothing (t ∷ tabs) = (refl, IsApart-nothing tabs)

  -- The snapshots and the active index of a model that satisfies the invariant are accepted by any
  -- model that is not under way, and it then has these snapshots and this active index.
  pub replace-snapshots :
      (m n : BrowserTabModel)
      → IsValid is_control m
      → n.mutation_in_progress ≡ false
      → ((replace_from_validated_snapshot is_control n (snapshots m) m.active_index).2 ≡ true)
        × (snapshots (replace_from_validated_snapshot is_control n (snapshots m) m.active_index).0
            ≡ snapshots m)
        × ((replace_from_validated_snapshot is_control n
              (snapshots m)
              m.active_index).0.active_index
            ≡ m.active_index)
  unfolding replace_from_validated_snapshot
  replace-snapshots m n v quiet =
      let same = length-snapshots m.tabs in
      let bound = v.tabs_bound in
      let choice = v.active_choice in
      let ok = stored_valid [] m.tabs v.tabs_stored v.ids_distinct (IsApart-nothing m.tabs) in
      ground (arith, tabs_restored-snapshots n.tabs (snapshots m), snapshots_dormant (snapshots m))
