-- ===== src/Ipc/Protocol.antt =====
-- The messages of the protocol: runtime/ipc/ProtocolMessage.h and .cpp.
pub mod Envelope
pub mod Read
mod Tests
use q_browser.Base.{
  ℕ, zero, suc, ◌+◌, Bool, true, false, not, ◌&&◌, ◌||◌, Option, none, some, List, [], ◌∷◌, ltb,
  leb, ◌==◌, if◌then◌else◌, length,
}
use Prim.Native.String.{String}
use q_browser.Base.Int.{ℤ, pos, negsuc, leb_ℤ}
use q_browser.Base.Text.{Text, codes, text_eq}
use q_browser.Router.Path.{contains, starts_with}
use q_browser.Tabs.Title.{is_high_surrogate, is_low_surrogate}
use q_browser.Ipc.Json.{
  JsonValue, null, boolean, double, text, array, object, JsonObject, no_members, member, size,
  value, is_string, to_string, is_bool, to_bool, is_object, to_object, contains_key, in_set,
}
use q_browser.Ipc.Payload.{
  ProtocolType, handshake_type, handshake_ack_type, surface_ready_type, route_load_type,
  navigation_request_type, page_metadata_type, ready_type, request_type, response_type,
  heartbeat_type, visibility_changed_type, structured_log_type, shutdown_type, QtText,
  has_exact_keys, is_empty, valid_token, valid_payload,
}

pub data ProtocolError : Type 0 where
  no_error invalid_envelope unsupported_version unknown_type invalid_request_id
        unexpected_request_id invalid_payload :
      ProtocolError

pub record ProtocolMessage : Type 0 where
  pub message_type : ProtocolType
  pub request_id : Text
  pub payload : JsonObject

-- `ProtocolParseResult`: a message, or an error with its code
pub data ParseResult : Type 0 where
  parsed : ProtocolMessage → ParseResult
  failed : ProtocolError → Text → ParseResult

-- The field `message`
abbrev pub message_of : ParseResult → Option ProtocolMessage
message_of (parsed m) = some m
message_of (failed e code) = none

abbrev pub current_version : ℕ
current_version = 1

unfoldable pub type_name : ProtocolType → Text
type_name handshake_type = codes "handshake"
type_name handshake_ack_type = codes "handshakeAck"
type_name surface_ready_type = codes "surfaceReady"
type_name route_load_type = codes "routeLoad"
type_name navigation_request_type = codes "navigationRequest"
type_name page_metadata_type = codes "pageMetadata"
type_name ready_type = codes "ready"
type_name request_type = codes "request"
type_name response_type = codes "response"
type_name heartbeat_type = codes "heartbeat"
type_name visibility_changed_type = codes "visibilityChanged"
type_name structured_log_type = codes "structuredLog"
type_name shutdown_type = codes "shutdown"

abbrev pub all_types : List ProtocolType
all_types =
    handshake_type ∷ handshake_ack_type ∷ surface_ready_type ∷ route_load_type
    ∷ navigation_request_type ∷ page_metadata_type ∷ ready_type ∷ request_type ∷ response_type
    ∷ heartbeat_type ∷ visibility_changed_type ∷ structured_log_type ∷ shutdown_type ∷ []

unfoldable pub find_type : List ProtocolType → Text → Option ProtocolType
find_type [] name = none
find_type (t ∷ ts) name = if text_eq name (type_name t) then some t else find_type ts name

unfoldable pub parse_type : Text → Option ProtocolType
parse_type name = find_type all_types name

-- `QJsonValue::toInt`: 0 for what is no integer of 32 bits
unfoldable pub to_int : Option ℤ → ℤ
to_int none = pos 0
to_int (some n) = if leb_ℤ (negsuc 2147483647) n && leb_ℤ n (pos 2147483647) then n else pos 0

unfoldable pub needs_request_id : ProtocolType → Bool
needs_request_id request_type = true
needs_request_id response_type = true
needs_request_id route_load_type = true
needs_request_id navigation_request_type = true
needs_request_id _ = false

-- `error` of the source
abbrev pub failure : ProtocolError → String → ParseResult
failure e code = failed e (codes code)

unfoldable pub to_json : ProtocolMessage → JsonObject
to_json m = member (codes "protocolVersion") (double (some (pos current_version))) (
    member (codes "type") (text (type_name m.message_type)) (
      member (codes "payload") (object m.payload) (
        if is_empty m.request_id
        then no_members
        else member (codes "requestId") (text m.request_id) no_members)))

-- The members of the envelope, with a request id or without
abbrev pub envelope_keys : Bool → List Text
envelope_keys true =
    codes "protocolVersion" ∷ codes "type" ∷ codes "requestId" ∷ codes "payload" ∷ []
envelope_keys false = codes "protocolVersion" ∷ codes "type" ∷ codes "payload" ∷ []

-- `isDouble`, finite and without a fraction
abbrev pub is_integer : Option JsonValue → Bool
is_integer (some (double (some n))) = true
is_integer _ = false

-- Whether `toInt` is the version
abbrev pub is_current : Option JsonValue → Bool
is_current (some (double n)) =
    leb_ℤ (to_int n) (pos current_version) && leb_ℤ (pos current_version) (to_int n)
is_current _ = false

module _ (qt : QtText) where
  -- The end of `parse`, behind the checks of the envelope
  unfoldable pub parse_payload : ProtocolType → Text → JsonObject → ParseResult
  parse_payload type id o =
      let payload = value o (codes "payload") in
      if not (is_object payload) || not (valid_payload qt type (to_object payload))
      then failure invalid_payload "ipc.protocol.invalid_payload"
      else parsed (record { message_type = type; request_id = id; payload = to_object payload })

  unfoldable pub parse_typed : ProtocolType → JsonObject → ParseResult
  parse_typed type o =
      let id = value o (codes "requestId") in
      if needs_request_id type && not (contains_key o (codes "requestId"))
      then failure invalid_request_id "ipc.protocol.invalid_request_id"
      else if not (has_exact_keys o (envelope_keys (needs_request_id type)))
      then (if not (needs_request_id type) && contains_key o (codes "requestId")
          then failure unexpected_request_id "ipc.protocol.unexpected_request_id"
          else failure invalid_envelope "ipc.protocol.invalid_envelope")
      else if needs_request_id type
      then (if not (valid_token id)
          then failure invalid_request_id "ipc.protocol.invalid_request_id"
          else parse_payload type (to_string id) o)
      else parse_payload type [] o

  unfoldable pub parse : JsonObject → ParseResult
  parse o =
      let type = value o (codes "type") in
      if not (is_integer (value o (codes "protocolVersion")))
      then failure invalid_envelope "ipc.protocol.invalid_envelope"
      else if not (is_current (value o (codes "protocolVersion")))
      then failure unsupported_version "ipc.protocol.unsupported_version"
      else if not (is_string type)
      then failure invalid_envelope "ipc.protocol.invalid_envelope"
      else elim (parse_type (to_string type)) [
        | none ↦ failure unknown_type "ipc.protocol.unknown_type"
        | some t ↦ parse_typed t o
      ]

  unfoldable pub validated : ProtocolType → Text → JsonObject → Option ProtocolMessage
  validated type id payload =
      message_of
        (parse (to_json (record { message_type = type; request_id = id; payload = payload })))

  unfoldable pub handshake : Text → Option ProtocolMessage
  handshake nonce = validated handshake_type [] (member (codes "nonce") (text nonce) no_members)

  unfoldable pub handshake_ack : Text → Text → Option ProtocolMessage
  handshake_ack nonce app_identity = validated handshake_ack_type [] (
      member (codes "nonce") (text nonce)
        (member (codes "appIdentity") (text app_identity) no_members))

  unfoldable pub surface_ready : Text → Option ProtocolMessage
  surface_ready handle =
      validated surface_ready_type [] (member (codes "windowHandle") (text handle) no_members)

  unfoldable pub route_load : Text → Text → Option ProtocolMessage
  route_load id route =
      validated route_load_type id (member (codes "route") (text route) no_members)

  unfoldable pub navigation_request : Text → Text → Option ProtocolMessage
  navigation_request id route =
      validated navigation_request_type id (member (codes "route") (text route) no_members)

  unfoldable pub page_metadata : Text → Text → Option ProtocolMessage
  page_metadata title status = validated page_metadata_type [] (
      member (codes "title") (text title)
        (if is_empty status then no_members else member (codes "status") (text status) no_members))

  unfoldable pub request : Text → Text → Text → JsonObject → Option ProtocolMessage
  request id capability operation payload = validated request_type id (
      member (codes "capability") (text capability) (
        member (codes "operation") (text operation)
          (member (codes "payload") (object payload) no_members)))

  unfoldable pub success_response : Text → JsonObject → Option ProtocolMessage
  success_response id result =
      validated response_type id
        (member (codes "ok") (boolean true) (member (codes "result") (object result) no_members))

  unfoldable pub error_response : Text → Text → Text → Option ProtocolMessage
  error_response id code message = validated response_type id (
      member (codes "ok") (boolean false) (
        member (codes "error")
          (object (
            member (codes "code") (text code) (member (codes "message") (text message) no_members)))
          no_members))

  unfoldable pub visibility_changed : Bool → Option ProtocolMessage
  visibility_changed active =
      validated visibility_changed_type [] (member (codes "active") (boolean active) no_members)

  unfoldable pub structured_log : Text → Text → Text → Option ProtocolMessage
  structured_log level category message = validated structured_log_type [] (
      member (codes "level") (text level) (
        member (codes "category") (text category)
          (member (codes "message") (text message) no_members)))

  unfoldable pub shutdown : Text → Option ProtocolMessage
  shutdown reason = validated shutdown_type [] (member (codes "reason") (text reason) no_members)

abbrev pub ready : ProtocolMessage
ready = record { message_type = ready_type; request_id = []; payload = no_members }

abbrev pub heartbeat : ProtocolMessage
heartbeat = record { message_type = heartbeat_type; request_id = []; payload = no_members }
