-- ===== src/Capability/Tests.antt =====
-- A queue and a broker with concrete requests. A service counts its calls.
use q_browser.Base.{ℕ, suc, true, false, ◌&&◌, none, some, List, [], ◌∷◌, ◌≡◌, refl, ltb}
use q_browser.Base.Int.{pos}
use q_browser.Base.Text.{Text, codes, text_eq}
use q_browser.Ipc.Frame.{not_object, QtJson, encode}
use q_browser.Ipc.Json.{JsonObject, no_members, size, value, in_set}
use q_browser.Ipc.Payload.{
  QtText, keys_in, has_exact_keys, all_units, valid_token, valid_payload, valid_response,
  valid_error,
}
use q_browser.Ipc.Protocol.{
  type_name, find_type, parse_type, to_int, needs_request_id, to_json, parse_payload, parse_typed,
  parse, validated, error_response,
}
use q_browser.Policy.{HostPolicy, ManifestPermissions}
use q_browser.Policy.Engine.{intersect}
use q_browser.Capability.Pending.{PendingCapabilityRequest, create, at_least_one}
use q_browser.Capability.Pending.Valid.{IsValid}
use q_browser.Capability.Pending.Spec.{
  Call, push, pop, run_spec, run_queue, queue_after, queue_after-IsValid, run_queue-run_spec,
}
use q_browser.Capability.Dispatch.{
  HostRequestContext, success, CapabilityService, CapabilityServices, denied, payload_too_large,
  response_too_large, valid_host_identity, valid_request_context, operation_allowed,
  response_fits_ipc, dispatch,
}
use q_browser.Capability.Dispatch.Safe.{
  permits, declares, dispatch-refused, dispatch-undeclared, dispatch-fits,
}

abbrev ascii : QtText
ascii = record { is_control = λ c. ltb c 32; to_unsigned = λ t. none; number = λ n. [] }

abbrev two_bytes : JsonObject → Text
two_bytes o = codes "{}"

abbrev json : QtJson JsonObject
json = record {
  utf8 = λ t. some t;
  from_json = λ t. not_object;
  to_json = two_bytes;
  is_digit = λ c. false;
}

abbrev get_key : Text → PendingCapabilityRequest
get_key id = record {
  request_id = id;
  capability = codes "storage";
  operation = codes "get";
  payload = no_members;
}

abbrev calls : List Call
calls = push (get_key (codes "a")) ∷ push (get_key (codes "a")) ∷ pop ∷ pop ∷ []

queue_after-IsValid_example : IsValid (queue_after ascii two_bytes (create (pos 2) (pos 100)) calls)
queue_after-IsValid_example = queue_after-IsValid ascii two_bytes (pos 2) (pos 100) calls

run_queue-run_spec_example :
    run_queue ascii two_bytes (create (pos 2) (pos 100)) calls
    ≡ run_spec ascii two_bytes (at_least_one (pos 2)) (at_least_one (pos 100)) [] calls
run_queue-run_spec_example = run_queue-run_spec ascii two_bytes (pos 2) (pos 100) calls

abbrev counter : CapabilityService ℕ
counter n operation payload context = (suc n, success no_members)

abbrev services : CapabilityServices ℕ
services = record {
  network = none;
  storage = some counter;
  clipboard = some counter;
  file = none;
  audio = none;
}

abbrev storage_only : HostPolicy
storage_only = record {
  network = none;
  storage = some (pos 1024);
  clipboard = none;
  file = none;
  audio_playback = false;
}

abbrev context : HostRequestContext
context = record { app_identity = codes "app"; request_id = codes "r-1"; user_gesture_grant = none }

abbrev no_permissions : ManifestPermissions
no_permissions = record {
  hosts = [];
  methods = [];
  app_private_storage = false;
  clipboard_write = false;
  clipboard_user_gesture = false;
  file_user_brokered = false;
  audio_playback = false;
}

good_context : valid_request_context context ≡ true
unfolding valid_request_context valid_host_identity all_units
good_context = refl

not_permitted :
    (valid_request_context context
      && permits storage_only (codes "clipboard")
      && operation_allowed (codes "clipboard") (codes "read"))
    ≡ false
unfolding valid_request_context valid_host_identity all_units permits text_eq
not_permitted = refl

not_declared : declares no_permissions (codes "storage") ≡ false
unfolding declares text_eq
not_declared = refl

denied_fits : response_fits_ipc ascii json (codes "r-1") denied ≡ true
unfolding denied parse value text_eq to_int parse_type find_type type_name parse_typed
    needs_request_id has_exact_keys size keys_in in_set valid_token all_units parse_payload
    valid_payload to_json validated error_response valid_response valid_error response_fits_ipc
    encode
denied_fits = refl

payload_fits : response_fits_ipc ascii json (codes "r-1") payload_too_large ≡ true
unfolding payload_too_large parse value text_eq to_int parse_type find_type type_name parse_typed
    needs_request_id has_exact_keys size keys_in in_set valid_token all_units parse_payload
    valid_payload to_json validated error_response valid_response valid_error response_fits_ipc
    encode
payload_fits = refl

response_fits : response_fits_ipc ascii json (codes "r-1") response_too_large ≡ true
unfolding response_too_large parse value text_eq to_int parse_type find_type type_name parse_typed
    needs_request_id has_exact_keys size keys_in in_set valid_token all_units parse_payload
    valid_payload to_json validated error_response valid_response valid_error response_fits_ipc
    encode
response_fits = refl

dispatch-refused_example :
    dispatch ascii json storage_only services 0
      (codes "clipboard")
      (codes "read")
      no_members
      context
    ≡ (0, denied)
dispatch-refused_example =
    dispatch-refused ascii json storage_only services 0 (codes "clipboard") (codes "read")
      no_members context not_permitted

dispatch-undeclared_example :
    dispatch ascii json
      (intersect (λ t. some t) (λ t. true) (λ t. false) no_permissions storage_only)
      services
      0
      (codes "storage")
      (codes "get")
      no_members
      context
    ≡ (0, denied)
dispatch-undeclared_example =
    dispatch-undeclared (λ t. some t) (λ t. true) (λ t. false) ascii json no_permissions
      storage_only services 0 (codes "storage") (codes "get") no_members context not_declared

dispatch-fits_example :
    response_fits_ipc ascii json
      (codes "r-1")
      (dispatch ascii json storage_only services 0
        (codes "storage")
        (codes "get")
        no_members
        context).1
    ≡ true
dispatch-fits_example =
    dispatch-fits ascii json storage_only services 0 (codes "storage") (codes "get") no_members
      context denied_fits payload_fits response_fits
