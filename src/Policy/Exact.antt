-- ===== src/Policy/Exact.antt =====
-- What the intersection of a manifest with a host policy permits.
use q_browser.Base.{
  Bool, true, false, ◌&&◌, ◌||◌, Option, none, some, List, [], ◌∷◌, ◌≡◌, refl, ap, arith, inl, inr,
  Option-cases,
}
use q_browser.Base.Text.{Text, codes, text_eq, text_eq_iff}
use q_browser.Policy.{
  HttpMethod, get, post, put, patch, NetworkAllowRule, HostNetworkPolicy, HostPolicy,
  ManifestPermissions, no_items, has_method, has_text, eq_method, parse_http_method,
  http_method_name, same_key, validated_network,
}
use q_browser.Policy.Engine.{
  declared_methods, intersect_methods, intersect_rules, network_of, intersect_network, intersect,
}

-- Whether one of the rules covers a method for the scheme, host, port and path prefix of `q`.
unfoldable pub covers : HttpMethod → NetworkAllowRule → List NetworkAllowRule → Bool
covers m q [] = false
covers m q (r ∷ rs) = (same_key r q && has_method m r.methods) || covers m q rs

abbrev pub covers_network : HttpMethod → NetworkAllowRule → Option HostNetworkPolicy → Bool
covers_network m q none = false
covers_network m q (some n) = covers m q n.rules

eq_method-true : (m n : HttpMethod) → eq_method m n ≡ true → m ≡ n
eq_method-true get get h = refl
eq_method-true post post h = refl
eq_method-true put put h = refl
eq_method-true patch patch h = refl
eq_method-true _ _ h = ground arith

has_method-intersect :
    (m : HttpMethod) (ms ns : List HttpMethod)
    → has_method m (intersect_methods ms ns) ≡ (has_method m ms && has_method m ns)
unfolding has_method intersect_methods
has_method-intersect m [] ns = refl
has_method-intersect m (n ∷ ms) ns =
    ground (arith, has_method-intersect m ms ns, eq_method-true n m)

has_method-empty :
    (m : HttpMethod) (ms : List HttpMethod) → no_items ms ≡ true → has_method m ms ≡ false
unfolding has_method
has_method-empty m [] h = refl
has_method-empty m (n ∷ ms) h = ground arith

same_key-host :
    (r q : NetworkAllowRule) (hosts : List Text)
    → same_key r q ≡ true
    → has_text r.host hosts ≡ has_text q.host hosts
unfolding same_key
same_key-host r q hosts h = ap (λ t. has_text t hosts) (ground (arith, text_eq_iff r.host q.host))

same_key-methods :
    (r q : NetworkAllowRule) (ms : List HttpMethod)
    → same_key (record r { methods = ms }) q ≡ same_key r q
unfolding same_key
same_key-methods r q ms = refl

covers-intersect_rules :
    (m : HttpMethod) (q : NetworkAllowRule) (hosts : List Text) (methods : List HttpMethod)
    (rs : List NetworkAllowRule)
    → covers m q (intersect_rules hosts methods rs)
      ≡ (covers m q rs && has_text q.host hosts && has_method m methods)
unfolding covers intersect_rules
covers-intersect_rules m q hosts methods [] = refl
covers-intersect_rules m q hosts methods (r ∷ rs) = ground (
  arith,
  covers-intersect_rules m q hosts methods rs,
  has_method-intersect m r.methods methods,
  has_method-empty m (intersect_methods r.methods methods),
  same_key-methods r q (intersect_methods r.methods methods),
  same_key-host r q hosts,
)

eq_method_refl : (m : HttpMethod) → eq_method m m ≡ true
eq_method_refl get = refl
eq_method_refl post = refl
eq_method_refl put = refl
eq_method_refl patch = refl

method_of_name : (m : HttpMethod) → parse_http_method (http_method_name m) ≡ some m
unfolding parse_http_method http_method_name text_eq
method_of_name get = refl
method_of_name post = refl
method_of_name put = refl
method_of_name patch = refl

name_of_method :
    (name : Text) {m : HttpMethod} → parse_http_method name ≡ some m → name ≡ http_method_name m
unfolding parse_http_method http_method_name
name_of_method name {m} h = ground (
  arith,
  text_eq_iff name (codes "GET"),
  text_eq_iff name (codes "POST"),
  text_eq_iff name (codes "PUT"),
  text_eq_iff name (codes "PATCH"),
)

parsed_name :
    (m : HttpMethod) (name : Text)
    → text_eq name (http_method_name m)
      ≡ elim (parse_http_method name) [ none ↦ false | some n ↦ eq_method n m ]
parsed_name m name = elim (Option-cases (parse_http_method name)) [
  | inl e ↦ ground (arith, text_eq_iff name (http_method_name m), method_of_name m)
  | inr (n, e) ↦ ground (
    arith,
    text_eq_iff name (http_method_name m),
    name_of_method name e,
    method_of_name m,
    eq_method-true n m,
    eq_method_refl m,
  )
]

-- The manifest names the method.
declared_method :
    (m : HttpMethod) (names : List Text)
    → has_method m (declared_methods names) ≡ has_text (http_method_name m) names
unfolding declared_methods has_method has_text
declared_method get [] = refl
declared_method post [] = refl
declared_method put [] = refl
declared_method patch [] = refl
declared_method m (name ∷ names) = elim (Option-cases (parse_http_method name)) [
  | inl e ↦ ground (arith, declared_method m names, parsed_name m name)
  | inr (n, e) ↦ ground (arith, declared_method m names, parsed_name m name, eq_method-true n m)
]

covers_empty :
    (m : HttpMethod) (q : NetworkAllowRule) (rs : List NetworkAllowRule)
    → no_items rs ≡ true
    → covers m q rs ≡ false
unfolding covers
covers_empty m q [] h = refl
covers_empty m q (r ∷ rs) h = ground arith

has_text-empty : (t : Text) (ts : List Text) → no_items ts ≡ true → has_text t ts ≡ false
unfolding has_text
has_text-empty t [] h = refl
has_text-empty t (u ∷ ts) h = ground arith

module _ (to_ace : Text → Option Text)
    (is_hostname_pattern is_numeric_component : Text → Bool) where
  -- The rules that a host policy has once it is validated.
  abbrev pub host_network : Option HostNetworkPolicy → Option HostNetworkPolicy
  host_network none = none
  host_network (some n) = validated_network to_ace is_hostname_pattern is_numeric_component n

  covers-network_of :
      (manifest : ManifestPermissions) (v : HostNetworkPolicy) (m : HttpMethod)
      (q : NetworkAllowRule)
      → covers_network m q (network_of manifest v) ≡ (
          covers m q v.rules
          && has_text q.host manifest.hosts
          && has_text (http_method_name m) manifest.methods)
  covers-network_of manifest v m q =
      let named = declared_methods manifest.methods in
      ground (
        arith,
        covers-intersect_rules m q manifest.hosts named v.rules,
        declared_method m manifest.methods,
        covers_empty m q (intersect_rules manifest.hosts named v.rules),
      )

  covers-intersect_network :
      (manifest : ManifestPermissions) (host : Option HostNetworkPolicy) (m : HttpMethod)
      (q : NetworkAllowRule)
      → covers_network m q
          (intersect_network to_ace is_hostname_pattern is_numeric_component manifest host)
        ≡ (covers_network m q (host_network host)
            && has_text q.host manifest.hosts
            && has_text (http_method_name m) manifest.methods)
  unfolding intersect_network
  covers-intersect_network manifest none m q = refl
  covers-intersect_network manifest (some host) m q =
      elim (Option-cases (validated_network to_ace is_hostname_pattern is_numeric_component host)) [
        | inl e ↦ ground arith
        | inr (v, e) ↦ ground (
          arith,
          covers-network_of manifest v m q,
          has_text-empty q.host manifest.hosts,
          has_text-empty (http_method_name m) manifest.methods,
        )
      ]

  -- The effective network policy covers a method for a scheme, host, port and path prefix exactly
  -- when the validated host policy does and the manifest names the host and the method.
  pub covers-intersect :
      (manifest : ManifestPermissions) (host : HostPolicy) (m : HttpMethod) (q : NetworkAllowRule)
      → covers_network m q
          (intersect to_ace is_hostname_pattern is_numeric_component manifest host).network
        ≡ (covers_network m q (host_network host.network)
            && has_text q.host manifest.hosts
            && has_text (http_method_name m) manifest.methods)
  unfolding intersect
  covers-intersect manifest host m q = covers-intersect_network manifest host.network m q
