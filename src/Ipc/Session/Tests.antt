-- ===== src/Ipc/Session/Tests.antt =====
-- A session of a host with a worker that says who it is and is ready.
use q_browser.Base.{true, false, none, some, List, [], ◌∷◌, ◌≡◌, refl, ltb}
use q_browser.Base.Text.{codes, text_eq}
use q_browser.Router.Path.{contains}
use q_browser.Ipc.Frame.{not_object, QtJson, encode}
use q_browser.Ipc.Json.{boolean, object, text, JsonObject, no_members, member, size, value, in_set}
use q_browser.Ipc.Payload.{
  handshake_type, response_type, QtText, keys_in, has_exact_keys, all_units, valid_token,
  valid_payload, valid_response, valid_route, valid_text,
}
use q_browser.Ipc.Protocol.{
  ProtocolMessage, type_name, find_type, parse_type, to_int, needs_request_id, to_json,
  parse_payload, parse_typed, parse, validated, handshake_ack, ready, route_load,
}
use q_browser.Ipc.Protocol.Envelope.{message}
use q_browser.Ipc.Session.{
  IpcSession, host, write_ok, create, outgoing_type_allowed, incoming_type_allowed, is_tracked,
  is_type, close, fail, note_accepted_send, send_refusal, encode_frame, prepare_send, send_internal,
  send, admit_authenticated, type_refusal, note_ready, note_request, acknowledge, admit_host, admit,
  process_frame, send_tracked, has_pending, remove_pending,
}
use q_browser.Ipc.Session.Admitted.{
  Event, frame, tracked_sent, IsAdmitted, step, delivered, delivered-IsAdmitted,
}
use q_browser.Ipc.Session.Paired.{IsPaired, log, log-create-IsPaired}

abbrev ascii : QtText
ascii = record { is_control = λ c. ltb c 32; to_unsigned = λ t. none; number = λ n. [] }

abbrev json : QtJson JsonObject
json = record {
  utf8 = λ t. some t;
  from_json = λ t. not_object;
  to_json = λ o. codes "{}";
  is_digit = λ c. false;
}

abbrev hello : ProtocolMessage
hello = message handshake_type [] (member (codes "nonce") (text (codes "n")) no_members)

-- The answer to the only request
abbrev answer : ProtocolMessage
answer =
    message response_type (codes "r-1")
      (member (codes "ok") (boolean true) (member (codes "result") (object no_members) no_members))

abbrev opened : IpcSession
opened = create true host (codes "n") (codes "app")

abbrev events : List Event
events =
    frame (to_json hello) write_ok 5
    ∷ frame (to_json ready) write_ok 7
    ∷ tracked_sent (codes "r-1") (route_load ascii (codes "r-1") (codes "/a")) write_ok 100 8
    ∷ frame (to_json answer) write_ok 9
    ∷ frame (to_json hello) write_ok 9
    ∷ frame (to_json ready) write_ok 9
    ∷ []

three_delivered : delivered ascii json opened events ≡ hello ∷ ready ∷ answer ∷ []
unfolding delivered step create process_frame admit admit_host admit_authenticated acknowledge
    handshake_ack validated send send_internal prepare_send send_refusal encode_frame encode
    note_accepted_send outgoing_type_allowed incoming_type_allowed is_tracked is_type close fail
    type_refusal note_ready note_request parse value text_eq to_int parse_type find_type type_name
    parse_typed needs_request_id has_exact_keys size keys_in in_set valid_token all_units
    parse_payload valid_payload valid_response valid_route valid_text contains route_load
    send_tracked has_pending remove_pending to_json
three_delivered = refl

delivered-IsAdmitted_example :
    IsAdmitted host (codes "n") false [] (delivered ascii json opened events)
delivered-IsAdmitted_example =
    delivered-IsAdmitted ascii json true host (codes "n") (codes "app") events

log-create-IsPaired_example : IsPaired [] (log ascii json opened events)
log-create-IsPaired_example =
    log-create-IsPaired ascii json true host (codes "n") (codes "app") events
