-- ===== src/Router/Registry/Best.antt =====
-- Which route a path matches.
use q_browser.Base.{
  true, false, Option, none, some, List, [], ◌∷◌, ◌≡◌, ◌⊎◌, inl, inr, refl, sym, arith,
  Option-cases, Bool-cases, if◌then◌else◌,
}
use mathlib.Core.List.{Memᴰ}
use q_browser.Base.Text.{Text}
use q_browser.Router.Registry.Precedence.{
  shape_of, fits, match_segments-fits, precedence_total, precedence_trans,
}
use q_browser.Router.Registry.{
  Segment, CompiledRoute, Parameters, Match, has_higher_precedence, match_segments, better, choose,
}

-- A route yields to another: it does not match, is the same, or has the lower precedence.
abbrev pub Yields : List Text → CompiledRoute → CompiledRoute → Type 0
Yields path best c =
    (fits c.segments path ≡ true)
    → (c ≡ best) ⊎ (has_higher_precedence best.segments c.segments ≡ true)

-- The outcome of the loop over the routes that satisfy `P`: no route matches, or the route that is
-- returned does, with its parameters, and every other yields to it.
pub record IsBest (path : List Text) (P : CompiledRoute → Type 0) (m : Match) : Type 0 where
  pub matched : match_segments m.0.segments path [] ≡ some m.1
  pub chosen : P m.0
  pub yielding : (c : CompiledRoute) → P c → Yields path m.0 c

abbrev pub IsOutcome : List Text → (CompiledRoute → Type 0) → Option Match → Type 0
IsOutcome path P none = (c : CompiledRoute) → P c → fits c.segments path ≡ false
IsOutcome path P (some m) = IsBest path P m

-- The routes that satisfy `P` have different shapes.
abbrev pub HasDistinctShapes : (CompiledRoute → Type 0) → Type 0
HasDistinctShapes P =
    (c d : CompiledRoute) → P c → P d → shape_of c.segments ≡ shape_of d.segments → c ≡ d

pub IsOutcome-iff :
    (path : List Text) {P Q : CompiledRoute → Type 0} (o : Option Match)
    → ((c : CompiledRoute) → P c → Q c)
    → ((c : CompiledRoute) → Q c → P c)
    → IsOutcome path P o
    → IsOutcome path Q o
IsOutcome-iff path none f g h = λ c q. h c (g c q)
IsOutcome-iff path (some m) f g h = record {
  matched = h.matched;
  chosen = f m.0 h.chosen;
  yielding = λ c q. h.yielding c (g c q);
}

pub fits_of_match :
    (ss : List Segment) (vs : List Text) {bound : Parameters}
    → match_segments ss vs [] ≡ some bound
    → fits ss vs ≡ true
fits_of_match ss vs h = ground (arith, match_segments-fits ss vs [])

-- `best` behind one round of the loop
abbrev next_best : List Text → CompiledRoute → Option Match → Option Match
next_best path c best = elim (match_segments c.segments path []) [
  | none ↦ best
  | some bound ↦ if better c best then some (c, bound) else best
]

module _ (path : List Text) (P : CompiledRoute → Type 0) (c : CompiledRoute) where
  abbrev More : CompiledRoute → Type 0
  More d = P d ⊎ (d ≡ c)

  -- One round of the loop, where the route does not match
  skipped-Yields :
      (m : Match) (d : CompiledRoute)
      → match_segments c.segments path [] ≡ none
      → IsBest path P m
      → More d
      → Yields path m.0 d
  skipped-Yields m d e h (inl p) = h.yielding d p
  skipped-Yields m d e h (inr same) = λ f.
      let here : fits c.segments path ≡ true = rw (sym same) f in
      absurd (ground (arith, match_segments-fits c.segments path []))

  skipped_none :
      (d : CompiledRoute)
      → match_segments c.segments path [] ≡ none
      → ((d : CompiledRoute) → P d → fits d.segments path ≡ false)
      → More d
      → fits d.segments path ≡ false
  skipped_none d e h (inl p) = h d p
  skipped_none d e h (inr same) = rw same (ground (arith, match_segments-fits c.segments path []))

  skipped :
      (best : Option Match)
      → match_segments c.segments path [] ≡ none
      → IsOutcome path P best
      → IsOutcome path More best
  skipped none e h = λ d q. skipped_none d e h q
  skipped (some m) e h = record {
    matched = h.matched;
    chosen = inl h.chosen;
    yielding = λ d q. skipped-Yields m d e h q;
  }

  -- The first route that matches
  first-Yields :
      (d : CompiledRoute)
      → ((d : CompiledRoute) → P d → fits d.segments path ≡ false)
      → More d
      → Yields path c d
  first-Yields d h (inl p) = λ f. absurd (ground (arith, h d p))
  first-Yields d h (inr same) = λ f. inl same

  -- A route that has precedence over the best one so far
  won-Yields :
      (m : Match) (d : CompiledRoute)
      → has_higher_precedence c.segments m.0.segments ≡ true
      → IsBest path P m
      → More d
      → Yields path c d
  won-Yields m d w h (inl p) = λ f. elim (h.yielding d p f) [
    | inl same ↦ inr (rw same w)
    | inr over ↦ inr (precedence_trans c.segments m.0.segments d.segments w over)
  ]
  won-Yields m d w h (inr same) = λ f. inl same

  -- A route that has none
  lost-Yields :
      (m : Match) (d : CompiledRoute)
      → HasDistinctShapes More
      → has_higher_precedence c.segments m.0.segments ≡ false
      → IsBest path P m
      → More d
      → Yields path m.0 d
  lost-Yields m d u w h (inl p) = h.yielding d p
  lost-Yields m d u w h (inr same) = λ f.
      elim (precedence_total m.0.segments d.segments path
        (fits_of_match m.0.segments path h.matched) f) [
          | inl over ↦ inr over
          | inr (inl under) ↦
              let over : has_higher_precedence c.segments m.0.segments ≡ true =
                rw (sym same) under in
              absurd (ground arith)
          | inr (inr shapes) ↦ inl (u d m.0 (inr same) (inl h.chosen) (sym shapes))
        ]

  matching :
      (best : Option Match) {bound : Parameters}
      → HasDistinctShapes More
      → match_segments c.segments path [] ≡ some bound
      → IsOutcome path P best
      → IsOutcome path More (if better c best then some (c, bound) else best)
  matching none u e h = record {
    matched = e;
    chosen = inr refl;
    yielding = λ d q. first-Yields d h q;
  }
  matching (some m) u e h = elim (Bool-cases (has_higher_precedence c.segments m.0.segments)) [
    | inl w ↦ rw w record { matched = e; chosen = inr refl; yielding = λ d q. won-Yields m d w h q }
    | inr w ↦ rw w record {
      matched = h.matched;
      chosen = inl h.chosen;
      yielding = λ d q. lost-Yields m d u w h q;
    }
  ]

  round :
      (best : Option Match)
      → HasDistinctShapes More
      → IsOutcome path P best
      → IsOutcome path More (next_best path c best)
  round best u h = elim (Option-cases (match_segments c.segments path [])) [
    | inl e ↦ rw (IsOutcome, e) (skipped best e h)
    | inr (bound, e) ↦ rw (IsOutcome, e) (matching best u e h)
  ]

choose_cons :
    (path : List Text) (c : CompiledRoute) (cs : List CompiledRoute) (best : Option Match)
    → choose path (c ∷ cs) best ≡ choose path cs (next_best path c best)
unfolding choose
choose_cons path c cs best = elim (Option-cases (match_segments c.segments path [])) [
  | inl e ↦ ground arith
  | inr (bound, e) ↦ ground arith
]

-- The loop over the remaining routes
pub choose-IsOutcome :
    (path : List Text) (P : CompiledRoute → Type 0) (cs : List CompiledRoute) (best : Option Match)
    → HasDistinctShapes (λ c. P c ⊎ Memᴰ c cs)
    → IsOutcome path P best
    → IsOutcome path (λ c. P c ⊎ Memᴰ c cs) (choose path cs best)
unfolding choose
choose-IsOutcome path P [] best u h = IsOutcome-iff path best (λ c p. inl p) (λ c. only c) h
  where
    only : (c : CompiledRoute) → P c ⊎ Memᴰ c [] → P c
    only c (inl p) = p
    only c (inr m) = elim m [ ]
choose-IsOutcome path P (c ∷ cs) best u h = IsOutcome-iff path _ inward outward (
    rw (choose_cons path c cs best) (
      choose-IsOutcome path (More path P c) cs (next_best path c best)
        (λ a b p q. u a b (inward a p) (inward b q))
        (round path P c best (λ a b p q. u a b (inward a (inl p)) (inward b (inl q))) h)))
  where
    inward : (d : CompiledRoute) → More path P c d ⊎ Memᴰ d cs → P d ⊎ Memᴰ d (c ∷ cs)
    inward d (inl (inl p)) = inl p
    inward d (inl (inr same)) = inr (Memᴰ.head same)
    inward d (inr m) = inr (Memᴰ.tail m)

    outward : (d : CompiledRoute) → P d ⊎ Memᴰ d (c ∷ cs) → More path P c d ⊎ Memᴰ d cs
    outward d (inl p) = inl (inl p)
    outward d (inr (Memᴰ.head same)) = inl (inr same)
    outward d (inr (Memᴰ.tail m)) = inr m
