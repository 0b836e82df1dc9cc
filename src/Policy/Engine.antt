-- ===== src/Policy/Engine.antt =====
-- `PolicyEngine::intersect` of runtime/policy/PolicyEngine.cpp.
use q_browser.Base.{Bool, true, not, ◌&&◌, ◌||◌, Option, none, some, List, [], ◌∷◌, if◌then◌else◌}
use q_browser.Base.Int.{ℤ}
use q_browser.Base.Text.{Text}
use q_browser.Policy.{
  HttpMethod, NetworkAllowRule, HostNetworkPolicy, HostClipboardPolicy, HostFilePolicy, HostPolicy,
  ManifestPermissions, no_items, has_method, has_text, parse_http_method, validated_storage,
  validated_file, validated_network,
}

-- The set of the methods that the manifest names
unfoldable pub declared_methods : List Text → List HttpMethod
declared_methods [] = []
declared_methods (name ∷ names) =
    let rest = declared_methods names in
    elim (parse_http_method name) [ none ↦ rest | some m ↦ m ∷ rest ]

-- `QSet::intersect`
unfoldable pub intersect_methods : List HttpMethod → List HttpMethod → List HttpMethod
intersect_methods [] ns = []
intersect_methods (m ∷ ms) ns =
    let rest = intersect_methods ms ns in if has_method m ns then m ∷ rest else rest

unfoldable pub intersect_rules :
    List Text → List HttpMethod → List NetworkAllowRule → List NetworkAllowRule
intersect_rules hosts methods [] = []
intersect_rules hosts methods (rule ∷ rules) =
    let rest = intersect_rules hosts methods rules in
    let common = intersect_methods rule.methods methods in
    if not (has_text rule.host hosts)
    then rest
    else if no_items common
    then rest
    else record rule { methods = common } ∷ rest

abbrev pub network_of : ManifestPermissions → HostNetworkPolicy → Option HostNetworkPolicy
network_of manifest validated =
    let rules =
      intersect_rules manifest.hosts (declared_methods manifest.methods) validated.rules in
    if no_items rules then none else some (record validated { rules = rules })

unfoldable pub intersect_clipboard :
    ManifestPermissions → Option HostClipboardPolicy → Option HostClipboardPolicy
intersect_clipboard manifest none = none
intersect_clipboard manifest (some host) =
    let write = manifest.clipboard_write && host.write in
    let read = manifest.clipboard_user_gesture && host.read_with_user_gesture in
    if write || read then some (record { write = write; read_with_user_gesture = read }) else none

unfoldable pub intersect_storage : ManifestPermissions → Option ℤ → Option ℤ
intersect_storage manifest none = none
intersect_storage manifest (some quota) =
    if manifest.app_private_storage then validated_storage quota else none

unfoldable pub intersect_file : ManifestPermissions → Option HostFilePolicy → Option HostFilePolicy
intersect_file manifest none = none
intersect_file manifest (some host) =
    if manifest.file_user_brokered
    then elim (validated_file host) [
      | none ↦ none
      | some valid ↦ some (record { can_open = true; maximum_bytes = valid.maximum_bytes })
    ]
    else none

module _ (to_ace : Text → Option Text)
    (is_hostname_pattern is_numeric_component : Text → Bool) where
  unfoldable pub intersect_network :
      ManifestPermissions → Option HostNetworkPolicy → Option HostNetworkPolicy
  intersect_network manifest none = none
  intersect_network manifest (some host) =
      if no_items manifest.hosts || no_items manifest.methods
      then none
      else elim (validated_network to_ace is_hostname_pattern is_numeric_component host) [
        | none ↦ none
        | some validated ↦ network_of manifest validated
      ]

  unfoldable pub intersect : ManifestPermissions → HostPolicy → HostPolicy
  intersect manifest host = record {
    network = intersect_network manifest host.network;
    storage = intersect_storage manifest host.storage;
    clipboard = intersect_clipboard manifest host.clipboard;
    file = intersect_file manifest host.file;
    audio_playback = manifest.audio_playback && host.audio_playback;
  }
