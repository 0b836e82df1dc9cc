-- ===== src/Ipc/Protocol/Tests.antt =====
-- Concrete messages.
use q_browser.Base.{none, some, [], ◌≡◌, refl, ltb, if◌then◌else◌}
use q_browser.Base.Int.{pos}
use q_browser.Base.Text.{codes, text_eq}
use q_browser.Router.Path.{contains, starts_with}
use q_browser.Ipc.Json.{double, text, object, JsonObject, no_members, member, size, value, in_set}
use q_browser.Ipc.Payload.{
  request_type, heartbeat_type, handshake_type, QtText, keys_in, has_exact_keys, all_units,
  valid_token, valid_payload, valid_route, valid_text,
}
use q_browser.Ipc.Protocol.{
  ProtocolMessage, parsed, failed, unexpected_request_id, type_name, find_type, parse_type, to_int,
  needs_request_id, to_json, parse_payload, parse_typed, parse, validated, route_load,
}
use q_browser.Ipc.Protocol.Envelope.{message, fits, validated-fits}
use q_browser.Ipc.Protocol.Read.{parse-to_json, value-parse}

abbrev ascii : QtText
ascii = record { is_control = λ c. ltb c 32; to_unsigned = λ t. none; number = λ n. [] }

abbrev request_payload : JsonObject
request_payload = member (codes "operation") (text (codes "get")) (
    member (codes "capability") (text (codes "storage"))
      (member (codes "payload") (object no_members) no_members))

abbrev request_object : JsonObject
request_object = member (codes "requestId") (text (codes "r-1")) (
    member (codes "payload") (object request_payload) (
      member (codes "protocolVersion") (double (some (pos 1)))
        (member (codes "type") (text (codes "request")) no_members)))

abbrev request_message : ProtocolMessage
request_message = message request_type (codes "r-1") request_payload

request_read : parse ascii request_object ≡ parsed request_message
unfolding parse value text_eq to_int parse_type find_type type_name parse_typed needs_request_id
    has_exact_keys size keys_in in_set valid_token all_units parse_payload valid_payload
request_read = refl

heartbeat_with_id :
    parse ascii (to_json (message heartbeat_type (codes "r-1") no_members))
    ≡ failed unexpected_request_id (codes "ipc.protocol.unexpected_request_id")
unfolding parse value text_eq to_int parse_type find_type type_name parse_typed needs_request_id
    has_exact_keys size keys_in in_set valid_token all_units parse_payload valid_payload to_json
heartbeat_with_id = refl

outside_route : route_load ascii (codes "r-1") (codes "//host/") ≡ none
unfolding parse value text_eq to_int parse_type find_type type_name parse_typed needs_request_id
    has_exact_keys size keys_in in_set valid_token all_units parse_payload valid_payload to_json
    validated route_load valid_route valid_text starts_with contains
outside_route = refl

validated-fits_example :
    validated ascii handshake_type [] (member (codes "nonce") (text (codes "n")) no_members) ≡ (
      if fits ascii handshake_type [] (member (codes "nonce") (text (codes "n")) no_members)
      then some (message handshake_type [] (member (codes "nonce") (text (codes "n")) no_members))
      else none)
validated-fits_example =
    validated-fits ascii handshake_type [] (member (codes "nonce") (text (codes "n")) no_members)

parse-to_json_example : parse ascii (to_json request_message) ≡ parsed request_message
parse-to_json_example = parse-to_json ascii request_object request_read

value-parse_example :
    value (to_json request_message) (codes "payload") ≡ value request_object (codes "payload")
value-parse_example = value-parse ascii request_object (codes "payload") request_read
