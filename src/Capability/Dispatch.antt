-- ===== src/Capability/Dispatch.antt =====
-- The broker of the host: runtime/broker/CapabilityBroker.h and .cpp.
--
-- A service is a function of the state `W` of all services. A user gesture grant is the address at
-- which it stands.
pub mod Safe
use q_browser.Base.{
  ℕ, ◌+◌, Bool, true, false, not, ◌&&◌, ◌||◌, Option, none, some, List, [], ◌∷◌, ltb, leb, ◌==◌,
  if◌then◌else◌, length,
}
use q_browser.Base.Text.{Text, codes, text_eq}
use q_browser.Ipc.Frame.{QtJson, encode}
use q_browser.Ipc.Json.{JsonObject, no_members, is_some, in_set}
use q_browser.Ipc.Payload.{QtText, all_units, is_empty}
use q_browser.Ipc.Protocol.{ProtocolMessage, to_json, request, success_response, error_response}
use q_browser.Policy.{HostPolicy}

pub record HostRequestContext : Type 0 where
  pub app_identity : Text
  pub request_id : Text
  pub user_gesture_grant : Option ℕ

pub record BrokerResult : Type 0 where
  pub ok : Bool
  pub result : JsonObject
  pub error_code : Text
  pub error_message : Text

abbrev pub success : JsonObject → BrokerResult
success result = record { ok = true; result = result; error_code = []; error_message = [] }

abbrev pub failure : Text → Text → BrokerResult
failure code message = record {
  ok = false;
  result = no_members;
  error_code = code;
  error_message = message;
}

unfoldable pub denied : BrokerResult
denied = failure (codes "capability.denied") (codes "Capability is not permitted.")

unfoldable pub payload_too_large : BrokerResult
payload_too_large =
    failure (codes "capability.payload_too_large") (codes "Capability request is too large.")

unfoldable pub response_too_large : BrokerResult
response_too_large =
    failure (codes "capability.response_too_large") (codes "Capability response is too large.")

abbrev pub CapabilityService : Type 0 → Type 0
CapabilityService W = W → Text → JsonObject → HostRequestContext → W × BrokerResult

-- A null pointer is `none`.
pub record CapabilityServices (W : Type 0) : Type 0 where
  pub network : Option (CapabilityService W)
  pub storage : Option (CapabilityService W)
  pub clipboard : Option (CapabilityService W)
  pub file : Option (CapabilityService W)
  pub audio : Option (CapabilityService W)

unfoldable pub valid_host_identity : Text → Bool
valid_host_identity identity =
    not (is_empty identity || ltb 256 (length identity))
    && all_units (λ c. not (ltb c 0x21 || ltb 0x7e c)) identity

unfoldable pub valid_request_context : HostRequestContext → Bool
valid_request_context c = valid_host_identity c.app_identity && not (is_empty c.request_id)

abbrev pub audio_operations : List Text
audio_operations =
    codes "catalog"
    ∷ codes "play"
    ∷ codes "pause"
    ∷ codes "stop"
    ∷ codes "seek"
    ∷ codes "setVolume"
    ∷ codes "status"
    ∷ []

unfoldable pub operation_allowed : Text → Text → Bool
operation_allowed capability operation =
    if text_eq capability (codes "audio")
    then in_set audio_operations operation
    else if text_eq capability (codes "network")
    then text_eq operation (codes "request")
    else if text_eq capability (codes "storage")
    then text_eq operation (codes "get")
      || text_eq operation (codes "set")
      || text_eq operation (codes "remove")
    else if text_eq capability (codes "clipboard")
    then text_eq operation (codes "read") || text_eq operation (codes "write")
    else if text_eq capability (codes "file")
    then text_eq operation (codes "open")
    else false

-- The variable `service` behind the tests of the capability
unfoldable pub select_service :
    {W : Type 0} → HostPolicy → CapabilityServices W → Text → Option (CapabilityService W)
select_service policy services capability =
    let audio =
      if text_eq capability (codes "audio") && policy.audio_playback
      then services.audio
      else none in
    if text_eq capability (codes "network") && is_some policy.network
    then services.network
    else if text_eq capability (codes "storage") && is_some policy.storage
    then services.storage
    else if text_eq capability (codes "clipboard") && is_some policy.clipboard
    then services.clipboard
    else if text_eq capability (codes "file") && is_some policy.file
    then services.file
    else audio

module _ (qt : QtText) (json : QtJson JsonObject) where
  -- Whether there is a message, and it makes a frame
  abbrev pub is_sendable : Option ProtocolMessage → Bool
  is_sendable none = false
  is_sendable (some m) = not (is_empty (encode json (to_json m)))

  abbrev pub response_message : Text → BrokerResult → Option ProtocolMessage
  response_message id r =
      if r.ok
      then success_response qt id r.result
      else error_response qt id r.error_code r.error_message

  unfoldable pub response_fits_ipc : Text → BrokerResult → Bool
  response_fits_ipc id r = is_sendable (response_message id r)

  unfoldable pub request_fits_ipc : Text → Text → Text → JsonObject → Bool
  request_fits_ipc id capability operation payload =
      is_sendable (request qt id capability operation payload)

  unfoldable pub bound_response_to_ipc : Text → BrokerResult → BrokerResult
  bound_response_to_ipc id r = if response_fits_ipc id r then r else response_too_large

  module _ {W : Type 0} (policy : HostPolicy) (services : CapabilityServices W) where
    -- `dispatch` behind the choice of the service
    unfoldable pub invoke_service :
        Option (CapabilityService W)
        → W
        → Text
        → Text
        → JsonObject
        → HostRequestContext
        → W × BrokerResult
    invoke_service none w capability operation payload context = (w, denied)
    invoke_service (some service) w capability operation payload context =
        if not (operation_allowed capability operation)
        then (w, denied)
        else if not (request_fits_ipc context.request_id capability operation payload)
        then (w, payload_too_large)
        else (let answer = service w operation payload context in
            (answer.0, bound_response_to_ipc context.request_id answer.1))

    unfoldable pub dispatch : W → Text → Text → JsonObject → HostRequestContext → W × BrokerResult
    dispatch w capability operation payload context =
        if not (valid_request_context context)
        then (w, denied)
        else invoke_service (select_service policy services capability) w capability operation
            payload context
