-- ===== src/Router/Tests.antt =====
-- A registry of two routes that fit the same path.
use q_browser.Base.{ℕ, Bool, true, false, some, [], ◌∷◌, ◌≡◌, ◌⊎◌, refl, sym, arith, All, ltb}
use mathlib.Core.List.{Memᴰ}
use mathlib.Core.Path.{subst}
use q_browser.Base.Text.{codes, text_eq}
use q_browser.Router.Path.{
  scanned, is_valid, is_unreserved_ascii, is_allowed_literal_path_character, contains, starts_with,
  ends_with, has_double_slash, split, scan_literal, scan_segment, has_control, check_decoded,
  decode_segment, decode_segments, parse,
}
use q_browser.Router.Path.Safe.{IsSafe, parse-IsSafe}
use q_browser.Router.Path.Encode.{encode, scan_segment-encode}
use q_browser.Router.Registry.{
  RouteRecord, qml_worker, web_engine, CompiledRoute, Parameters, all_of, is_valid_parameter_name,
  is_valid_static_segment, has_name, compile, compile_pattern, has_shape, add,
  has_higher_precedence, match_segments, match_path,
}
use q_browser.Router.Registry.Precedence.{fits}
use q_browser.Router.Registry.Order.{add_all, match_path-best, match_path-order}

abbrev below_32 : ℕ → Bool
below_32 c = ltb c 32

abbrev item : RouteRecord
item = record { pattern = codes "/a/:id"; engine = qml_worker; package_id = []; entry_point = [] }

abbrev fixed : RouteRecord
fixed = record { pattern = codes "/a/b"; engine = web_engine; package_id = []; entry_point = [] }

abbrev item_route : CompiledRoute
item_route = record {
  route = item;
  segments =
      record { parameter = false; value = codes "a" }
      ∷ record { parameter = true; value = codes "id" }
      ∷ [];
  normalized_shape = codes "/a/:";
}

abbrev fixed_route : CompiledRoute
fixed_route = record {
  route = fixed;
  segments =
      record { parameter = false; value = codes "a" }
      ∷ record { parameter = false; value = codes "b" }
      ∷ [];
  normalized_shape = codes "/a/b";
}

one_order : add_all [] (item ∷ fixed ∷ []) ≡ item_route ∷ fixed_route ∷ []
unfolding add_all add compile_pattern compile is_valid_parameter_name is_valid_static_segment all_of
    has_name has_shape contains ends_with has_double_slash split text_eq
one_order = refl

other_order : add_all [] (fixed ∷ item ∷ []) ≡ fixed_route ∷ item_route ∷ []
unfolding add_all add compile_pattern compile is_valid_parameter_name is_valid_static_segment all_of
    has_name has_shape contains ends_with has_double_slash split text_eq
other_order = refl

swapped : (a b c : CompiledRoute) → Memᴰ c (a ∷ b ∷ []) → Memᴰ c (b ∷ a ∷ [])
swapped a b c (Memᴰ.head e) = Memᴰ.tail (Memᴰ.head e)
swapped a b c (Memᴰ.tail (Memᴰ.head e)) = Memᴰ.head e
swapped a b c (Memᴰ.tail (Memᴰ.tail m)) = elim m [ ]

parsed : is_valid (parse below_32 some (codes "/a/b")) ≡ true
unfolding parse has_double_slash ends_with split decode_segments decode_segment scan_segment
    scan_literal is_allowed_literal_path_character is_unreserved_ascii check_decoded contains
    has_control text_eq
parsed = refl

fitting : fits item_route.segments (parse below_32 some (codes "/a/b")).decoded_segments ≡ true
unfolding parse has_double_slash ends_with split decode_segments decode_segment scan_segment
    scan_literal is_allowed_literal_path_character is_unreserved_ascii check_decoded contains
    has_control text_eq
fitting = refl

match_path-best_example :
    (c : CompiledRoute) × (bound : Parameters) × (match_path below_32 some
        (add_all [] (item ∷ fixed ∷ []))
        (codes "/a/b")
      ≡ some (c.route, bound))
    × Memᴰ c (add_all [] (item ∷ fixed ∷ []))
    × (match_segments c.segments (parse below_32 some (codes "/a/b")).decoded_segments []
        ≡ some bound)
    × ((item_route ≡ c) ⊎ (has_higher_precedence c.segments item_route.segments ≡ true))
match_path-best_example =
    match_path-best below_32 some (item ∷ fixed ∷ []) (codes "/a/b") item_route parsed
      (subst (λ rs. Memᴰ item_route rs) (sym one_order) (Memᴰ.head refl)) fitting

there :
    (c : CompiledRoute)
    → Memᴰ c (add_all [] (item ∷ fixed ∷ []))
    → Memᴰ c (add_all [] (fixed ∷ item ∷ []))
there c m =
    subst (λ rs. Memᴰ c rs) (sym other_order)
      (swapped item_route fixed_route c (subst (λ rs. Memᴰ c rs) one_order m))

back :
    (c : CompiledRoute)
    → Memᴰ c (add_all [] (fixed ∷ item ∷ []))
    → Memᴰ c (add_all [] (item ∷ fixed ∷ []))
back c m =
    subst (λ rs. Memᴰ c rs) (sym one_order)
      (swapped fixed_route item_route c (subst (λ rs. Memᴰ c rs) other_order m))

match_path-order_example :
    match_path below_32 some (add_all [] (item ∷ fixed ∷ [])) (codes "/a/b")
    ≡ match_path below_32 some (add_all [] (fixed ∷ item ∷ [])) (codes "/a/b")
match_path-order_example =
    match_path-order below_32 some (item ∷ fixed ∷ []) (fixed ∷ item ∷ []) (codes "/a/b") there back

parse-IsSafe_example :
    (starts_with b'/' (codes "/a/b") ≡ true)
    × (has_double_slash (codes "/a/b") ≡ false)
    × ((parse below_32 some (codes "/a/b")).encoded ≡ codes "/a/b")
    × All (IsSafe below_32) (parse below_32 some (codes "/a/b")).decoded_segments
parse-IsSafe_example = parse-IsSafe below_32 some (codes "/a/b") parsed

unreserved_printable : (c : ℕ) → is_unreserved_ascii c ≡ true → below_32 c ≡ false
unfolding is_unreserved_ascii
unreserved_printable c u = ground arith

scan_segment-encode_example :
    scan_segment below_32 (encode (codes "a b/c")) ≡ scanned (codes "a b/c") false
scan_segment-encode_example =
    scan_segment-encode below_32 (codes "a b/c") unreserved_printable
      (omega arith, (omega arith, (omega arith, (omega arith, (omega arith, tt)))))
