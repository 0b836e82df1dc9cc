-- ===== src/Router/Registry/Precedence.antt =====
-- The order of precedence among routes that match the same path.
use q_browser.Base.{
  Bool, true, false, ◌&&◌, ◌||◌, Option, none, some, List, [], ◌∷◌, ◌++◌, ◌≡◌, ◌⊎◌, inr, refl,
  arith, if◌then◌else◌,
}
use q_browser.Base.Text.{Text, text_eq, text_eq_iff, text_key}
use q_browser.Base.Assoc.{insert}
use q_browser.Router.Registry.{Segment, Parameters, has_higher_precedence, match_segments}

-- The shape of a route, from its segments.
abbrev pub shape_of : List Segment → Text
shape_of [] = []
shape_of (s ∷ ss) = (if s.parameter then b'/' ∷ b':' ∷ [] else b'/' ∷ s.value) ++ shape_of ss

-- Whether a path has the static segments of a route at their places.
abbrev pub fits : List Segment → List Text → Bool
fits [] [] = true
fits (s ∷ ss) (v ∷ vs) = (s.parameter || text_eq s.value v) && fits ss vs
fits _ _ = false

abbrev pub is_some {ℓ} : {A : Type ℓ} → Option A → Bool
is_some none = false
is_some (some a) = true

pub match_segments-fits :
    (ss : List Segment) (vs : List Text) (bound : Parameters)
    → is_some (match_segments ss vs bound) ≡ fits ss vs
unfolding match_segments
match_segments-fits [] [] bound = refl
match_segments-fits [] (v ∷ vs) bound = refl
match_segments-fits (s ∷ ss) [] bound = refl
match_segments-fits (s ∷ ss) (v ∷ vs) bound =
    ground
      (arith, match_segments-fits ss vs bound, match_segments-fits ss vs (insert s.value v bound))

-- Of two routes that fit a path one has precedence, or they have the same shape.
pub precedence_total :
    (cs ds : List Segment) (vs : List Text)
    → fits cs vs ≡ true
    → fits ds vs ≡ true
    → (has_higher_precedence cs ds ≡ true)
      ⊎ (has_higher_precedence ds cs ≡ true)
      ⊎ (shape_of cs ≡ shape_of ds)
unfolding has_higher_precedence
precedence_total [] [] [] h k = inr (inr refl)
precedence_total (c ∷ cs) (d ∷ ds) (v ∷ vs) h k =
    ground (arith, precedence_total cs ds vs, text_eq_iff c.value v, text_eq_iff d.value v)
precedence_total [] (d ∷ ds) [] h k = ground arith
precedence_total (c ∷ cs) [] [] h k = ground arith
precedence_total [] ds (v ∷ vs) h k = ground arith
precedence_total (c ∷ cs) [] (v ∷ vs) h k = ground arith
precedence_total (c ∷ cs) (d ∷ ds) [] h k = ground arith

pub precedence_trans :
    (xs bs cs : List Segment)
    → has_higher_precedence xs bs ≡ true
    → has_higher_precedence bs cs ≡ true
    → has_higher_precedence xs cs ≡ true
unfolding has_higher_precedence
precedence_trans (a ∷ xs) (b ∷ bs) (c ∷ cs) h k = ground (arith, precedence_trans xs bs cs)
precedence_trans [] bs cs h k = ground arith
precedence_trans (a ∷ xs) [] cs h k = ground arith
precedence_trans (a ∷ xs) (b ∷ bs) [] h k = ground arith

pub precedence_asym :
    (xs bs : List Segment)
    → has_higher_precedence xs bs ≡ true
    → has_higher_precedence bs xs ≡ false
unfolding has_higher_precedence
precedence_asym (a ∷ xs) (b ∷ bs) h = ground (arith, precedence_asym xs bs)
precedence_asym [] bs h = ground arith
precedence_asym (a ∷ xs) [] h = ground arith
