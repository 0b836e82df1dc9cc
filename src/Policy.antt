-- ===== src/Policy.antt =====
-- What a package may do: runtime/policy/HostPolicy.h and .cpp, EffectivePolicy.h, PolicyEngine.h and
-- .cpp, with the permissions of runtime/package/Manifest.h.
--
-- A `QSet` of methods or of address classes is a list. Of Qt three functions are arguments: `to_ace`
-- stands for `QUrl::toAce` and the lower-casing of its result, `none` for an empty one, and
-- `is_hostname_pattern` and `is_numeric_component` for the matches of the two regular expressions.
pub mod Engine
pub mod Exact
pub mod Rest
mod Tests
use q_browser.Base.{
  ℕ, ◌+◌, ◌-◌, ◌*◌, Bool, true, false, not, ◌&&◌, ◌||◌, Option, none, some, List, [], ◌∷◌, ◌++◌,
  ltb, leb, ◌==◌, if◌then◌else◌, length,
}
use q_browser.Base.Int.{ℤ, pos, leb_ℤ, ltb_ℤ}
use q_browser.Base.Text.{Text, codes, text_eq}
use q_browser.Router.Path.{contains, starts_with, ends_with, split}

pub data HttpMethod : Type 0 where
  get post put patch : HttpMethod

pub data NetworkScheme : Type 0 where
  http https : NetworkScheme

pub data NetworkAddressClass : Type 0 where
  public loopback private link_local : NetworkAddressClass

pub record NetworkAllowRule : Type 0 where
  pub scheme : NetworkScheme
  pub host : Text
  pub port : ℕ
  pub path_prefix : Text
  pub methods : List HttpMethod
  pub address_classes : List NetworkAddressClass

-- `EffectiveNetworkPolicy` has the same fields.
pub record HostNetworkPolicy : Type 0 where
  pub rules : List NetworkAllowRule
  pub maximum_request_bytes : ℤ
  pub maximum_response_bytes : ℤ
  pub timeout_ms : ℤ

pub record HostClipboardPolicy : Type 0 where
  pub write : Bool
  pub read_with_user_gesture : Bool

pub record HostFilePolicy : Type 0 where
  pub can_open : Bool
  pub maximum_bytes : ℤ

-- The storage policy is its quota in bytes; `EffectivePolicy` has the same fields.
pub record HostPolicy : Type 0 where
  pub network : Option HostNetworkPolicy
  pub storage : Option ℤ
  pub clipboard : Option HostClipboardPolicy
  pub file : Option HostFilePolicy
  pub audio_playback : Bool

-- The three enumerations of two values are Booleans: application-private storage, reading the
-- clipboard on a user gesture, and opening files through the user.
pub record ManifestPermissions : Type 0 where
  pub hosts : List Text
  pub methods : List Text
  pub app_private_storage : Bool
  pub clipboard_write : Bool
  pub clipboard_user_gesture : Bool
  pub file_user_brokered : Bool
  pub audio_playback : Bool

abbrev pub maximum_broker_bytes : ℕ
maximum_broker_bytes = 1048576

abbrev pub maximum_storage_bytes : ℕ
maximum_storage_bytes = 16777216

-- `candidate <= 0 || candidate > maximum`, negated
abbrev pub in_range : ℕ → ℤ → Bool
in_range maximum n = not (leb_ℤ n (pos 0)) && not (ltb_ℤ (pos maximum) n)

abbrev pub eq_method : HttpMethod → HttpMethod → Bool
eq_method get get = true
eq_method post post = true
eq_method put put = true
eq_method patch patch = true
eq_method _ _ = false

abbrev pub eq_scheme : NetworkScheme → NetworkScheme → Bool
eq_scheme http http = true
eq_scheme https https = true
eq_scheme _ _ = false

abbrev pub no_items {ℓ} : {A : Type ℓ} → List A → Bool
no_items [] = true
no_items (x ∷ xs) = false

unfoldable pub has_method : HttpMethod → List HttpMethod → Bool
has_method m [] = false
has_method m (n ∷ ns) = eq_method n m || has_method m ns

unfoldable pub has_text : Text → List Text → Bool
has_text t [] = false
has_text t (u ∷ us) = text_eq u t || has_text t us

unfoldable pub parse_http_method : Text → Option HttpMethod
parse_http_method name =
    if text_eq name (codes "GET")
    then some get
    else if text_eq name (codes "POST")
    then some post
    else if text_eq name (codes "PUT")
    then some put
    else if text_eq name (codes "PATCH")
    then some patch
    else none

unfoldable pub http_method_name : HttpMethod → Text
http_method_name get = codes "GET"
http_method_name post = codes "POST"
http_method_name put = codes "PUT"
http_method_name patch = codes "PATCH"

abbrev pub is_digit : ℕ → Bool
is_digit c = leb b'0' c && leb c b'9'

unfoldable pub all_digits : Text → Bool
all_digits [] = true
all_digits (c ∷ cs) = is_digit c && all_digits cs

-- The value of decimal digits behind those read so far
unfoldable pub decimal : ℕ → Text → ℕ
decimal n [] = n
decimal n (c ∷ cs) = decimal (n * 10 + (c - b'0')) cs

-- A value beyond the range of an `int` is refused by `toInt`, and is above 255.
unfoldable pub is_octet : Text → Bool
is_octet part =
    not (no_items part)
    && not (ltb 1 (length part) && starts_with b'0' part)
    && all_digits part
    && leb (decimal 0 part) 255

unfoldable pub all_parts : (Text → Bool) → List Text → Bool
all_parts p [] = true
all_parts p (t ∷ ts) = p t && all_parts p ts

unfoldable pub is_canonical_ipv4 : Text → Bool
is_canonical_ipv4 host =
    let parts = split b'.' host in length parts == 4 && all_parts is_octet parts

unfoldable pub valid_path_prefix : Text → Bool
valid_path_prefix path =
    not (no_items path)
    && leb (length path) 2048
    && starts_with b'/' path
    && not (contains 0x5c path)
    && not (contains b'?' path)
    && not (contains b'#' path)
    && all_parts (λ s. not (text_eq s (codes ".") || text_eq s (codes ".."))) (split b'/' path)

-- The parts of `key` are compared one by one: only the last can hold the separator.
unfoldable pub same_key : NetworkAllowRule → NetworkAllowRule → Bool
same_key a b =
    eq_scheme a.scheme b.scheme
    && text_eq a.host b.host
    && a.port == b.port
    && text_eq a.path_prefix b.path_prefix

unfoldable pub has_key : NetworkAllowRule → List NetworkAllowRule → Bool
has_key r [] = false
has_key r (s ∷ ss) = same_key s r || has_key r ss

unfoldable pub validated_storage : ℤ → Option ℤ
validated_storage quota = if in_range maximum_storage_bytes quota then some quota else none

unfoldable pub validated_file : HostFilePolicy → Option HostFilePolicy
validated_file c =
    if c.can_open && in_range maximum_broker_bytes c.maximum_bytes then some c else none

module _ (to_ace : Text → Option Text)
    (is_hostname_pattern is_numeric_component : Text → Bool) where
  unfoldable pub is_canonical_hostname : Text → Bool
  is_canonical_hostname host =
      leb (length host) 253
      && is_hostname_pattern host
      && all_parts (λ label. leb (length label) 63) (split b'.' host)

  unfoldable pub is_legacy_ipv4_alias : Text → Bool
  is_legacy_ipv4_alias host =
      let parts = split b'.' host in
      not (no_items parts) && leb (length parts) 4 && all_parts is_numeric_component parts

  unfoldable pub canonical_network_host : Text → Option Text
  canonical_network_host host =
      if no_items host || ends_with b'.' host || contains 0 host
      then none
      else if is_canonical_ipv4 host
      then some host
      else if is_legacy_ipv4_alias host
      then none
      else elim (to_ace host) [
        | none ↦ none
        | some ace ↦ if is_canonical_hostname ace then some ace else none
      ]

  -- The loop over the rules, with those that have a key in the set
  unfoldable pub validated_rules :
      List NetworkAllowRule → List NetworkAllowRule → Option (List NetworkAllowRule)
  validated_rules seen [] = some []
  validated_rules seen (rule ∷ rules) = elim (canonical_network_host rule.host) [
    | none ↦ none
    | some host ↦
        let canonical = record rule { host = host } in
        let rest = validated_rules (canonical ∷ seen) rules in
        if rule.port == 0
          || not (valid_path_prefix rule.path_prefix)
          || no_items rule.methods
          || no_items rule.address_classes
          || has_key canonical seen
        then none
        else elim rest [ none ↦ none | some more ↦ some (canonical ∷ more) ]
  ]

  unfoldable pub validated_network : HostNetworkPolicy → Option HostNetworkPolicy
  validated_network c =
      if no_items c.rules
        || not (in_range maximum_broker_bytes c.maximum_request_bytes)
        || not (in_range maximum_broker_bytes c.maximum_response_bytes)
        || not (in_range 60000 c.timeout_ms)
      then none
      else elim (validated_rules [] c.rules) [
        | none ↦ none
        | some rules ↦ some (record c { rules = rules })
      ]
