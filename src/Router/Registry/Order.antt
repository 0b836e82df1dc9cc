-- ===== src/Router/Registry/Order.antt =====
-- The registry that a list of added routes makes, and its matches whatever the order of the routes.
use q_browser.Base.{
  ℕ, Bool, true, false, ◌||◌, Option, none, some, List, [], ◌∷◌, ◌++◌, ◌≡◌, ◌≢◌, ◌⊎◌, inl, inr,
  refl, sym, ◌∙◌, arith, Option-cases, Bool-cases,
}
use mathlib.Core.List.{Memᴰ}
use mathlib.Core.Path.{subst}
use q_browser.Base.Text.{Text, text_eq, text_eq_iff}
use q_browser.Router.Path.{is_valid, sliced_1, split, root_path, parse}
use q_browser.Router.Registry.Precedence.{shape_of, fits, precedence_asym}
use q_browser.Router.Registry.Best.{
  IsBest, IsOutcome, IsOutcome-iff, HasDistinctShapes, fits_of_match, choose-IsOutcome,
}
use q_browser.Router.Registry.{
  Segment, RouteRecord, CompiledRoute, RouteRegistry, Parameters, Match, compile, compile_pattern,
  has_shape, add, add_compiled, has_higher_precedence, match_segments, choose, match_path,
}

-- The shape that `add` builds, from the segments.
abbrev route_shape : List Segment → Text
route_shape [] = root_path
route_shape (s ∷ ss) = shape_of (s ∷ ss)

-- No two routes have the same shape, and each has that of its segments.
abbrev IsRegistry : RouteRegistry → Type 0
IsRegistry [] = Unit
IsRegistry (c ∷ rs) =
    (c.normalized_shape ≡ route_shape c.segments)
    × (has_shape c.normalized_shape rs ≡ false)
    × IsRegistry rs

List-cases {ℓ} :
    {A : Type ℓ} (xs : List A) → (xs ≡ []) ⊎ ((x : A) × (rest : List A) × (xs ≡ x ∷ rest))
List-cases [] = inl refl
List-cases (x ∷ xs) = inr (x, xs, refl)

compile-shape_of :
    (names raws : List Text) {ss : List Segment} {shape : Text}
    → compile names raws ≡ some (ss, shape)
    → shape ≡ shape_of ss
unfolding compile
compile-shape_of names [] h = ground arith
compile-shape_of names (raw ∷ raws) h = elim (Option-cases (compile (sliced_1 raw ∷ names) raws)) [
  | inl e ↦ elim (Option-cases (compile names raws)) [
    | inl f ↦ ground arith
    | inr ((ss', shape'), f) ↦ ground (arith, compile-shape_of names raws f)
  ]
  | inr ((ss', shape'), e) ↦ elim (Option-cases (compile names raws)) [
    | inl f ↦ ground (arith, compile-shape_of (sliced_1 raw ∷ names) raws e)
    | inr ((ss'', shape''), f) ↦
        ground
          (arith, compile-shape_of (sliced_1 raw ∷ names) raws e, compile-shape_of names raws f)
  ]
]

compile_nonempty :
    (names : List Text) (raw : Text) (raws : List Text) {shape : Text}
    → compile names (raw ∷ raws) ≢ some ([], shape)
unfolding compile
compile_nonempty names raw raws h = elim (Option-cases (compile (sliced_1 raw ∷ names) raws)) [
  | inl e ↦ elim (Option-cases (compile names raws)) [
    | inl f ↦ ground arith
    | inr (found, f) ↦ ground arith
  ]
  | inr (found, e) ↦ elim (Option-cases (compile names raws)) [
    | inl f ↦ ground arith
    | inr (other, f) ↦ ground arith
  ]
]

compile-route_shape :
    (raws : List Text) {ss : List Segment} {shape : Text}
    → raws ≢ []
    → compile [] raws ≡ some (ss, shape)
    → shape ≡ route_shape ss
compile-route_shape [] ne h = absurd (ne refl)
compile-route_shape (raw ∷ raws) {ss = []} ne h = absurd (compile_nonempty [] raw raws h)
compile-route_shape (raw ∷ raws) {ss = s ∷ ss} ne h = compile-shape_of [] (raw ∷ raws) h

split_nonempty : (separator : ℕ) (t : Text) → split separator t ≢ []
unfolding split
split_nonempty separator [] h = ground arith
split_nonempty separator (c ∷ cs) h = elim (List-cases (split separator cs)) [
  | inl e ↦ ground arith
  | inr (part, parts, e) ↦ ground arith
]

compile_pattern-route_shape :
    (pattern : Text) {ss : List Segment} {shape : Text}
    → compile_pattern pattern ≡ some (ss, shape)
    → shape ≡ route_shape ss
unfolding compile_pattern
compile_pattern-route_shape pattern {ss} {shape} h = elim (Bool-cases (text_eq pattern root_path)) [
  | inl e ↦ ground (arith, text_eq_iff pattern root_path)
  | inr e ↦
      compile-route_shape (split b'/' (sliced_1 pattern)) (split_nonempty b'/' (sliced_1 pattern))
        (ground arith)
]

has_shape-member :
    (rs : RouteRegistry) {c : CompiledRoute} → Memᴰ c rs → has_shape c.normalized_shape rs ≡ true
unfolding has_shape
has_shape-member [] m = elim m [ ]
has_shape-member (x ∷ rs) {c} (Memᴰ.head e) =
    ground (arith, text_eq_iff x.normalized_shape c.normalized_shape)
has_shape-member (x ∷ rs) (Memᴰ.tail m) = ground (arith, has_shape-member rs m)

shape_of_member :
    (rs : RouteRegistry) {c : CompiledRoute}
    → IsRegistry rs
    → Memᴰ c rs
    → c.normalized_shape ≡ route_shape c.segments
shape_of_member [] h m = elim m [ ]
shape_of_member (x ∷ rs) {c} h (Memᴰ.head e) = rw e h.0
shape_of_member (x ∷ rs) h (Memᴰ.tail m) = shape_of_member rs h.2 m

same_route :
    (rs : RouteRegistry) {c d : CompiledRoute}
    → IsRegistry rs
    → Memᴰ c rs
    → Memᴰ d rs
    → c.normalized_shape ≡ d.normalized_shape
    → c ≡ d
same_route [] h m n same = elim m [ ]
same_route (x ∷ rs) h (Memᴰ.head e) (Memᴰ.head f) same = e ∙ sym f
same_route (x ∷ rs) {c} {d} h (Memᴰ.head e) (Memᴰ.tail n) same =
    absurd (ground (arith, has_shape-member rs n))
same_route (x ∷ rs) h (Memᴰ.tail m) (Memᴰ.head f) same =
    absurd (ground (arith, has_shape-member rs m))
same_route (x ∷ rs) h (Memᴰ.tail m) (Memᴰ.tail n) same = same_route rs h.2 m n same

route_shape_of :
    (ss ts : List Segment) → shape_of ss ≡ shape_of ts → route_shape ss ≡ route_shape ts
route_shape_of [] [] h = refl
route_shape_of [] (t ∷ ts) h = ground arith
route_shape_of (s ∷ ss) [] h = ground arith
route_shape_of (s ∷ ss) (t ∷ ts) h = h

has_shape-append :
    (shape : Text) (rs : RouteRegistry) (c : CompiledRoute)
    → has_shape shape (rs ++ c ∷ []) ≡ (has_shape shape rs || text_eq c.normalized_shape shape)
unfolding has_shape
has_shape-append shape [] c = ground arith
has_shape-append shape (x ∷ rs) c = ground (arith, has_shape-append shape rs c)

IsRegistry-append :
    (rs : RouteRegistry) (c : CompiledRoute)
    → IsRegistry rs
    → c.normalized_shape ≡ route_shape c.segments
    → has_shape c.normalized_shape rs ≡ false
    → IsRegistry (rs ++ c ∷ [])
unfolding has_shape
IsRegistry-append [] c h e n = (e, refl, tt)
IsRegistry-append (x ∷ rs) c h e n = ground (
  arith,
  IsRegistry-append rs c h.2 e,
  has_shape-append x.normalized_shape rs c,
  text_eq_iff x.normalized_shape c.normalized_shape,
  text_eq_iff c.normalized_shape x.normalized_shape,
)

add_pattern-IsRegistry :
    (rs : RouteRegistry) (r : RouteRecord)
    → IsRegistry rs
    → IsRegistry (add_compiled rs r (compile_pattern r.pattern)).0
add_pattern-IsRegistry rs r h = elim (Option-cases (compile_pattern r.pattern)) [
  | inl e ↦ rw (add_compiled, e) h
  | inr ((ss, shape), e) ↦
      let new : CompiledRoute = record { route = r; segments = ss; normalized_shape = shape } in
      ground (arith, IsRegistry-append rs new h (compile_pattern-route_shape r.pattern e))
]

add-IsRegistry : (rs : RouteRegistry) (r : RouteRecord) → IsRegistry rs → IsRegistry (add rs r).0
unfolding add
add-IsRegistry rs r h = ground (arith, add_pattern-IsRegistry rs r h)

-- The registry behind a sequence of additions, the refused ones included
unfoldable pub add_all : RouteRegistry → List RouteRecord → RouteRegistry
add_all rs [] = rs
add_all rs (r ∷ more) = add_all (add rs r).0 more

add_all-IsRegistry :
    (rs : RouteRegistry) (more : List RouteRecord) → IsRegistry rs → IsRegistry (add_all rs more)
unfolding add_all
add_all-IsRegistry rs [] h = h
add_all-IsRegistry rs (r ∷ more) h = add_all-IsRegistry (add rs r).0 more (add-IsRegistry rs r h)

distinct_shapes : (rs : RouteRegistry) → IsRegistry rs → HasDistinctShapes (λ c. Memᴰ c rs)
distinct_shapes rs h c d m n same = same_route rs h m n (
    shape_of_member rs h m
    ∙ route_shape_of c.segments d.segments same
    ∙ sym (shape_of_member rs h n))

registry-IsOutcome :
    (path : List Text) (rs : RouteRegistry)
    → IsRegistry rs
    → IsOutcome path (λ c. Memᴰ c rs) (choose path rs none)
registry-IsOutcome path rs h =
    IsOutcome-iff path (choose path rs none) (λ c. only c) (λ c m. inr m)
      (choose-IsOutcome path (λ c. c ≢ c) rs none
        (λ c d p q. distinct_shapes rs h c d (only c p) (only d q)) (λ c p. absurd (p refl)))
  where
    only : (c : CompiledRoute) → (c ≢ c) ⊎ Memᴰ c rs → Memᴰ c rs
    only c (inl p) = absurd (p refl)
    only c (inr m) = m

outcome_none :
    (path : List Text) (rs : RouteRegistry) {d : CompiledRoute}
    → IsRegistry rs
    → choose path rs none ≡ none
    → Memᴰ d rs
    → fits d.segments path ≡ false
outcome_none path rs {d} h e m =
    subst (λ o. IsOutcome path (λ c. Memᴰ c rs) o) e (registry-IsOutcome path rs h) d m

outcome_some :
    (path : List Text) (rs : RouteRegistry) {m : Match}
    → IsRegistry rs
    → choose path rs none ≡ some m
    → IsBest path (λ c. Memᴰ c rs) m
outcome_some path rs h e =
    subst (λ o. IsOutcome path (λ c. Memᴰ c rs) o) e (registry-IsOutcome path rs h)

same_best :
    (path : List Text) {P Q : CompiledRoute → Type 0} {m n : Match}
    → m.0 ≡ n.0
    → IsBest path P m
    → IsBest path Q n
    → some m ≡ some n
same_best path {m = (c, bound)} {n = (d, other)} e h k =
    let one = h.matched in let two = k.matched in ground arith

outcomes_agree :
    (path : List Text) {P Q : CompiledRoute → Type 0} {o o' : Option Match}
    → ((c : CompiledRoute) → P c → Q c)
    → ((c : CompiledRoute) → Q c → P c)
    → IsOutcome path P o
    → IsOutcome path Q o'
    → o ≡ o'
outcomes_agree path {o = none} {o' = none} f g h k = refl
outcomes_agree path {o = none} {o' = some n} f g h k =
    absurd (ground (arith, h n.0 (g n.0 k.chosen), fits_of_match n.0.segments path k.matched))
outcomes_agree path {o = some m} {o' = none} f g h k =
    absurd (ground (arith, k m.0 (f m.0 h.chosen), fits_of_match m.0.segments path h.matched))
outcomes_agree path {o = some m} {o' = some n} f g h k =
    elim (h.yielding n.0 (g n.0 k.chosen) (fits_of_match n.0.segments path k.matched)) [
      | inl same ↦ same_best path (sym same) h k
      | inr over ↦
          elim (k.yielding m.0 (f m.0 h.chosen) (fits_of_match m.0.segments path h.matched)) [
            | inl same ↦ same_best path same h k
            | inr under ↦
                absurd (ground (arith, over, under, precedence_asym m.0.segments n.0.segments over))
          ]
    ]

module _ (is_control : ℕ → Bool) (utf8 : Text → Option Text) where
  -- The best match: for a valid path and any route of a registry that has the static segments of
  -- the path at their places, `match` returns a route of the registry with the parameters that the
  -- path gives it, and that is the route itself or has precedence over it.
  pub match_path-best :
      (records : List RouteRecord) (text : Text) (d : CompiledRoute)
      → is_valid (parse is_control utf8 text) ≡ true
      → Memᴰ d (add_all [] records)
      → fits d.segments (parse is_control utf8 text).decoded_segments ≡ true
      → (c : CompiledRoute) × (bound : Parameters) × (match_path is_control utf8
            (add_all [] records)
            text
          ≡ some (c.route, bound))
        × Memᴰ c (add_all [] records)
        × (match_segments c.segments (parse is_control utf8 text).decoded_segments [] ≡ some bound)
        × ((d ≡ c) ⊎ (has_higher_precedence c.segments d.segments ≡ true))
  unfolding match_path
  match_path-best records text d valid m f =
      let rs = add_all [] records in
      let path = (parse is_control utf8 text).decoded_segments in
      let registry = add_all-IsRegistry [] records tt in
      elim (Option-cases (choose path rs none)) [
        | inl e ↦ absurd (ground (arith, outcome_none path rs registry e m))
        | inr ((c, bound), e) ↦
            let best : IsBest path (λ c. Memᴰ c rs) (c, bound) = outcome_some path rs registry e in
            (c, bound, ground arith, best.chosen, best.matched, best.yielding d m f)
      ]

  -- The order of the additions does not matter: two registries with the same routes match every
  -- path alike, in route and parameters.
  pub match_path-order :
      (records others : List RouteRecord) (text : Text)
      → ((c : CompiledRoute) → Memᴰ c (add_all [] records) → Memᴰ c (add_all [] others))
      → ((c : CompiledRoute) → Memᴰ c (add_all [] others) → Memᴰ c (add_all [] records))
      → match_path is_control utf8 (add_all [] records) text
        ≡ match_path is_control utf8 (add_all [] others) text
  unfolding match_path
  match_path-order records others text there back = ground (
    arith,
    outcomes_agree (parse is_control utf8 text).decoded_segments there back
        (registry-IsOutcome _ (add_all [] records) (add_all-IsRegistry [] records tt))
        (registry-IsOutcome _ (add_all [] others) (add_all-IsRegistry [] others tt)),
  )
