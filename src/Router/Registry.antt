-- ===== src/Router/Registry.antt =====
-- The routes of the host: runtime/router/RouteRegistry.h and .cpp, with RouteRecord.h.
pub mod Precedence
pub mod Best
pub mod Order
use q_browser.Base.{
  ℕ, Bool, true, false, not, ◌&&◌, ◌||◌, Option, none, some, List, [], ◌∷◌, ◌++◌, ltb, leb, ◌==◌,
  if◌then◌else◌, length,
}
use q_browser.Base.Text.{Text, text_eq, text_key}
use q_browser.Base.Assoc.{insert}
use q_browser.Router.Path.{
  NormalizedPath, is_valid, contains, starts_with, ends_with, has_double_slash, sliced_1, split,
  root_path, parse,
}

pub data Engine : Type 0 where
  invalid trusted_qml qml_worker web_engine : Engine

pub record RouteRecord : Type 0 where
  pub pattern : Text
  pub engine : Engine
  pub package_id : Text
  pub entry_point : Text

pub data RouteAddResult : Type 0 where
  added invalid_engine invalid_pattern duplicate_shape : RouteAddResult

pub record Segment : Type 0 where
  pub parameter : Bool
  pub value : Text

pub record CompiledRoute : Type 0 where
  pub route : RouteRecord
  pub segments : List Segment
  pub normalized_shape : Text

abbrev pub RouteRegistry : Type 0
RouteRegistry = List CompiledRoute

abbrev pub Parameters : Type 0
Parameters = List (Text × Text)

abbrev pub is_ascii_letter : ℕ → Bool
is_ascii_letter c = (leb b'A' c && leb c b'Z') || (leb b'a' c && leb c b'z')

abbrev pub is_ascii_digit : ℕ → Bool
is_ascii_digit c = leb b'0' c && leb c b'9'

unfoldable pub all_of : (ℕ → Bool) → Text → Bool
all_of p [] = true
all_of p (c ∷ cs) = p c && all_of p cs

unfoldable pub is_valid_parameter_name : Text → Bool
is_valid_parameter_name [] = false
is_valid_parameter_name (c ∷ cs) =
    (is_ascii_letter c || c == b'_')
    && all_of (λ d. is_ascii_letter d || is_ascii_digit d || d == b'_') (c ∷ cs)

unfoldable pub is_valid_static_segment : Text → Bool
is_valid_static_segment [] = false
is_valid_static_segment (c ∷ cs) =
    not (text_eq (c ∷ cs) (b'.' ∷ []) || text_eq (c ∷ cs) (b'.' ∷ b'.' ∷ []))
    && all_of
        (λ d.
          is_ascii_letter d || is_ascii_digit d || d == b'-' || d == b'_' || d == b'.' || d == b'~')
        (c ∷ cs)

unfoldable pub has_name : Text → List Text → Bool
has_name name [] = false
has_name name (n ∷ ns) = text_eq n name || has_name name ns

-- One segment and its part of the shape, before those behind it
abbrev pub compiled_before :
    Segment → Text → Option (List Segment × Text) → Option (List Segment × Text)
compiled_before s shape none = none
compiled_before s shape (some (segments, rest)) = some (s ∷ segments, shape ++ rest)

-- The loop over the raw segments with the names seen; `none` for an invalid pattern
unfoldable pub compile : List Text → List Text → Option (List Segment × Text)
compile names [] = some ([], [])
compile names (raw ∷ raws) =
    let name = sliced_1 raw in
    let parameter = compile (name ∷ names) raws in
    let static = compile names raws in
    if starts_with b':' raw
    then (if not (is_valid_parameter_name name) || has_name name names
        then none
        else compiled_before (record { parameter = true; value = name }) (b'/' ∷ b':' ∷ [])
            parameter)
    else if not (is_valid_static_segment raw)
    then none
    else compiled_before (record { parameter = false; value = raw }) (b'/' ∷ raw) static

unfoldable pub compile_pattern : Text → Option (List Segment × Text)
compile_pattern pattern =
    if text_eq pattern root_path
    then some ([], pattern)
    else compile [] (split b'/' (sliced_1 pattern))

unfoldable pub has_shape : Text → RouteRegistry → Bool
has_shape shape [] = false
has_shape shape (r ∷ rs) = text_eq r.normalized_shape shape || has_shape shape rs

abbrev pub is_malformed : Text → Bool
is_malformed pattern =
    not (starts_with b'/' pattern)
    || contains b'?' pattern
    || contains b'#' pattern
    || has_double_slash pattern
    || (ltb 1 (length pattern) && ends_with b'/' pattern)

abbrev pub add_compiled :
    RouteRegistry → RouteRecord → Option (List Segment × Text) → RouteRegistry × RouteAddResult
add_compiled rs r none = (rs, invalid_pattern)
add_compiled rs r (some (segments, shape)) =
    if has_shape shape rs
    then (rs, duplicate_shape)
    else (rs ++ (record { route = r; segments = segments; normalized_shape = shape }) ∷ [], added)

unfoldable pub add : RouteRegistry → RouteRecord → RouteRegistry × RouteAddResult
add rs r = elim r.engine [
  | invalid ↦ (rs, invalid_engine)
  | _ ↦
      if is_malformed r.pattern
      then (rs, invalid_pattern)
      else add_compiled rs r (compile_pattern r.pattern)
]

-- The two lists have the same length where it is called.
unfoldable pub has_higher_precedence : List Segment → List Segment → Bool
has_higher_precedence (c ∷ cs) (d ∷ ds) =
    let rest = has_higher_precedence cs ds in
    if c.parameter
    then (if d.parameter then rest else false)
    else (if d.parameter then true else rest)
has_higher_precedence _ _ = false

-- The test of one route, with the parameters bound so far
unfoldable pub match_segments : List Segment → List Text → Parameters → Option Parameters
match_segments [] [] bound = some bound
match_segments (s ∷ ss) (v ∷ vs) bound =
    let binding = match_segments ss vs (insert s.value v bound) in
    let fixed = match_segments ss vs bound in
    if s.parameter then binding else if text_eq s.value v then fixed else none
match_segments _ _ bound = none

abbrev pub Match : Type 0
Match = CompiledRoute × Parameters

abbrev pub better : CompiledRoute → Option Match → Bool
better c none = true
better c (some (best, bound)) = has_higher_precedence c.segments best.segments

-- The loop over the routes with `best` and `bestParameters`
unfoldable pub choose : List Text → RouteRegistry → Option Match → Option Match
choose path [] best = best
choose path (c ∷ cs) best = elim (match_segments c.segments path []) [
  | none ↦ choose path cs best
  | some bound ↦ choose path cs (if better c best then some (c, bound) else best)
]

-- A match that is not valid is `none`.
unfoldable pub match_path :
    (ℕ → Bool) → (Text → Option Text) → RouteRegistry → Text → Option (RouteRecord × Parameters)
match_path is_control utf8 rs path_text =
    let path = parse is_control utf8 path_text in
    if not (is_valid path) then none else elim (choose path.decoded_segments rs none) [
      | none ↦ none
      | some (best, bound) ↦ some (best.route, bound)
    ]
