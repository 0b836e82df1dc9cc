-- ===== src/Policy/Tests.antt =====
-- A manifest that asks for one host and two methods, and a host policy with one rule.
use q_browser.Base.{Bool, true, false, ◌&&◌, none, some, [], ◌∷◌, ◌≡◌}
use q_browser.Base.Int.{pos}
use q_browser.Base.Text.{Text, codes}
use q_browser.Policy.{
  get, post, https, public, NetworkAllowRule, HostPolicy, ManifestPermissions, has_text,
  http_method_name,
}
use q_browser.Policy.Engine.{intersect}
use q_browser.Policy.Exact.{covers_network, host_network, covers-intersect}
use q_browser.Policy.Rest.{may_write, may_read, quota, file_limit, intersect_exact}

abbrev always : Text → Bool
always t = true

abbrev never : Text → Bool
never t = false

abbrev manifest : ManifestPermissions
manifest = record {
  hosts = codes "example.org" ∷ [];
  methods = codes "GET" ∷ codes "POST" ∷ [];
  app_private_storage = true;
  clipboard_write = true;
  clipboard_user_gesture = false;
  file_user_brokered = true;
  audio_playback = false;
}

abbrev rule : NetworkAllowRule
rule = record {
  scheme = https;
  host = codes "example.org";
  port = 443;
  path_prefix = codes "/";
  methods = get ∷ [];
  address_classes = public ∷ [];
}

abbrev host : HostPolicy
host = record {
  network = some (record {
    rules = rule ∷ [];
    maximum_request_bytes = pos 1024;
    maximum_response_bytes = pos 1024;
    timeout_ms = pos 1000;
  });
  storage = some (pos 4096);
  clipboard = none;
  file = some (record { can_open = true; maximum_bytes = pos 2048 });
  audio_playback = true;
}

covers-intersect_example :
    covers_network post rule (intersect some always never manifest host).network ≡ (
      covers_network post rule (host_network some always never host.network)
      && has_text rule.host manifest.hosts
      && has_text (http_method_name post) manifest.methods)
covers-intersect_example = covers-intersect some always never manifest host post rule

intersect_exact_example :
    (may_write (intersect some always never manifest host).clipboard ≡ false)
    × (may_read (intersect some always never manifest host).clipboard ≡ false)
    × ((intersect some always never manifest host).audio_playback ≡ false)
    × (quota (intersect some always never manifest host).storage ≡ pos 4096)
    × (file_limit (intersect some always never manifest host).file ≡ pos 2048)
intersect_exact_example = intersect_exact some always never manifest host
