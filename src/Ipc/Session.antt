-- ===== src/Ipc/Session.antt =====
-- A session of the protocol: runtime/ipc/IpcSession.h and .cpp, without its waiting and without the
-- asynchronous writes.
--
-- What the transport says of a write and what the clock shows are arguments of the operations. The
-- hash table of the requests that wait for a response is a list.
pub mod Kept
pub mod Outcome
pub mod Admitted
pub mod Waits
pub mod Arrival
pub mod Paired
mod Tests
use q_browser.Base.{
  ℕ, ◌+◌, Bool, true, false, not, ◌&&◌, ◌||◌, Option, none, some, List, [], ◌∷◌, ◌++◌, ltb, leb,
  ◌==◌, if◌then◌else◌, length,
}
use q_browser.Base.Text.{Text, codes, text_eq}
use q_browser.Ipc.Frame.{QtJson, encode}
use q_browser.Ipc.Json.{JsonObject, value, to_string, in_set}
use q_browser.Ipc.Payload.{
  ProtocolType, handshake_type, handshake_ack_type, surface_ready_type, route_load_type,
  navigation_request_type, page_metadata_type, ready_type, request_type, response_type,
  heartbeat_type, visibility_changed_type, structured_log_type, shutdown_type, QtText, is_empty,
}
use q_browser.Ipc.Protocol.{
  ProtocolMessage, ParseResult, parsed, failed, parse, to_json, handshake_ack, request, route_load,
  navigation_request, visibility_changed, message_of,
}

pub data IpcRole : Type 0 where
  host worker : IpcRole

pub data SessionStatus : Type 0 where
  message_ready timed_out peer_closed session_failed : SessionStatus

-- `PipeIoStatus` of a write
pub data WriteStatus : Type 0 where
  write_ok write_timed_out write_peer_closed write_failed : WriteStatus

pub record ReceiveResult : Type 0 where
  pub status : SessionStatus
  pub received : Option ProtocolMessage
  pub error_code : Text

-- The phase of a request is left out: with synchronous writes it is published when the call is over.
pub record PendingRequest : Type 0 where
  pub request_id : Text
  pub deadline_ms : ℕ

pub record IpcSession : Type 0 where
  pub role : IpcRole
  pub nonce : Text
  pub app_identity : Text
  pub pending_requests : List PendingRequest
  pub received_request_ids : List Text
  pub authenticated : Bool
  pub closed : Bool
  pub last_error_code : Text
  pub outbound_nonce : Text
  pub peer_assigned_identity : Text
  pub last_peer_activity_ms : ℕ
  pub ready_sent : Bool
  pub peer_ready : Bool

unfoldable pub outgoing_type_allowed : IpcRole → ProtocolType → Bool
outgoing_type_allowed host handshake_ack_type = true
outgoing_type_allowed host route_load_type = true
outgoing_type_allowed host response_type = true
outgoing_type_allowed host heartbeat_type = true
outgoing_type_allowed host visibility_changed_type = true
outgoing_type_allowed host shutdown_type = true
outgoing_type_allowed host _ = false
outgoing_type_allowed worker handshake_type = true
outgoing_type_allowed worker surface_ready_type = true
outgoing_type_allowed worker ready_type = true
outgoing_type_allowed worker request_type = true
outgoing_type_allowed worker navigation_request_type = true
outgoing_type_allowed worker page_metadata_type = true
outgoing_type_allowed worker response_type = true
outgoing_type_allowed worker heartbeat_type = true
outgoing_type_allowed worker structured_log_type = true
outgoing_type_allowed worker shutdown_type = true
outgoing_type_allowed worker _ = false

abbrev pub peer : IpcRole → IpcRole
peer host = worker
peer worker = host

unfoldable pub incoming_type_allowed : IpcRole → ProtocolType → Bool
incoming_type_allowed role type = outgoing_type_allowed (peer role) type

-- The types whose request id is remembered, and that are sent only with tracking
unfoldable pub is_tracked : ProtocolType → Bool
is_tracked request_type = true
is_tracked route_load_type = true
is_tracked navigation_request_type = true
is_tracked _ = false

abbrev pub is_host : IpcRole → Bool
is_host host = true
is_host worker = false

unfoldable pub is_type : ProtocolType → ProtocolType → Bool
is_type handshake_type handshake_type = true
is_type handshake_ack_type handshake_ack_type = true
is_type page_metadata_type page_metadata_type = true
is_type ready_type ready_type = true
is_type response_type response_type = true
is_type _ _ = false

-- The session of a transport that is valid or not
unfoldable pub create : Bool → IpcRole → Text → Text → IpcSession
create transport_valid role nonce identity =
    let bad = not transport_valid || (is_host role && (is_empty nonce || is_empty identity)) in
    record {
      role = role;
      nonce = nonce;
      app_identity = identity;
      pending_requests = [];
      received_request_ids = [];
      authenticated = false;
      closed = bad;
      last_error_code = if bad then codes "ipc.session.invalid_context" else [];
      outbound_nonce = [];
      peer_assigned_identity = [];
      last_peer_activity_ms = 0;
      ready_sent = false;
      peer_ready = false;
    }

unfoldable pub close : IpcSession → IpcSession
close s = record s { closed = true; pending_requests = [] }

unfoldable pub fail : IpcSession → SessionStatus → Text → IpcSession × ReceiveResult
fail s status code = (
  close (record s { last_error_code = code }),
  record { status = status; received = none; error_code = code },
)

unfoldable pub note_accepted_send : IpcSession → ProtocolMessage → IpcSession
note_accepted_send s m =
    if is_host s.role
    then s
    else if is_type m.message_type handshake_type
    then record s { outbound_nonce = to_string (value m.payload (codes "nonce")) }
    else if is_type m.message_type ready_type
    then record s { ready_sent = true }
    else s

abbrev pub refuse_send : IpcSession → Text → IpcSession × Option Text
refuse_send s code = (record s { last_error_code = code }, none)

-- The tests of `prepareSend` before the message is validated: the code of a refusal
unfoldable pub send_refusal : IpcSession → ProtocolMessage → Bool → Option Text
send_refusal s m allow_tracked =
    if not allow_tracked && is_tracked m.message_type
    then some (codes "ipc.session.tracking_required")
    else if not s.authenticated
        && (is_host s.role
            || not (is_type m.message_type handshake_type)
            || not (is_empty s.outbound_nonce))
    then some (codes "ipc.session.authentication_required")
    else if s.authenticated && not (outgoing_type_allowed s.role m.message_type)
    then some (codes "ipc.session.unexpected_message_direction")
    else if not (is_host s.role) && is_type m.message_type page_metadata_type && not s.ready_sent
    then some (codes "ipc.session.ready_required")
    else none

module _ (qt : QtText) (json : QtJson JsonObject) where
  unfoldable pub encode_frame : IpcSession → ProtocolMessage → IpcSession × Option Text
  encode_frame s m =
      let frame = encode json (to_json m) in
      elim (parse qt (to_json m)) [
        | failed e code ↦ refuse_send s code
        | parsed valid ↦
            if is_empty frame
            then refuse_send s (codes "ipc.session.frame_encode_failed")
            else (s, some frame)
      ]

  unfoldable pub prepare_send : IpcSession → ProtocolMessage → Bool → IpcSession × Option Text
  prepare_send s m allow_tracked =
      if s.closed then (s, none) else elim (send_refusal s m allow_tracked) [
        | some code ↦ refuse_send s code
        | none ↦ encode_frame s m
      ]

  abbrev pub written : IpcSession → ProtocolMessage → WriteStatus → IpcSession × Bool
  written s m write_ok = (note_accepted_send s m, true)
  written s m write_timed_out = ((fail s timed_out (codes "ipc.session.timeout")).0, false)
  written s m write_peer_closed = ((fail s peer_closed (codes "ipc.session.peer_closed")).0, false)
  written s m write_failed = ((fail s session_failed (codes "ipc.session.write_failed")).0, false)

  unfoldable pub send_internal :
      IpcSession → ProtocolMessage → WriteStatus → Bool → IpcSession × Bool
  send_internal s m status allow_tracked =
      let ready = prepare_send s m allow_tracked in
      elim ready.1 [ none ↦ (ready.0, false) | some frame ↦ written ready.0 m status ]

  unfoldable pub send : IpcSession → ProtocolMessage → WriteStatus → IpcSession × Bool
  send s m status = send_internal s m status false

-- What a part of `processFrame` ends with: a call of `fail` with a code, or the session, and whether
-- the message was one of authentication
pub data Admission : Type 0 where
  refused : IpcSession → Text → Admission
  admitted : IpcSession → Bool → Admission

abbrev pub acknowledgement_code : IpcSession → Text
acknowledgement_code s =
    if is_empty s.last_error_code then codes "ipc.session.ack_failed" else s.last_error_code

unfoldable pub admit_worker : IpcSession → ProtocolMessage → Admission
admit_worker s m =
    if not (is_type m.message_type handshake_ack_type) || is_empty s.outbound_nonce
    then refused s (codes "ipc.session.handshake_ack_required")
    else if not (text_eq (to_string (value m.payload (codes "nonce"))) s.outbound_nonce)
    then refused s (codes "ipc.session.nonce_mismatch")
    else admitted
        (record s {
          peer_assigned_identity = to_string (value m.payload (codes "appIdentity"));
          authenticated = true;
        })
        true

unfoldable pub admit_authenticated : IpcSession → ProtocolMessage → Admission
admit_authenticated s m =
    if is_type m.message_type handshake_type || is_type m.message_type handshake_ack_type
    then refused s (codes "ipc.session.unexpected_handshake")
    else admitted s false

-- The tests of the direction and of `peerReady_`: the code of a refusal
unfoldable pub type_refusal : IpcSession → ProtocolMessage → Bool → Option Text
type_refusal s m authentication =
    if not authentication && not (incoming_type_allowed s.role m.message_type)
    then some (codes "ipc.session.unexpected_message_direction")
    else if is_host s.role && is_type m.message_type page_metadata_type && not s.peer_ready
    then some (codes "ipc.session.ready_required")
    else none

unfoldable pub note_ready : IpcSession → ProtocolMessage → IpcSession
note_ready s m =
    if is_host s.role && is_type m.message_type ready_type
    then record s { peer_ready = true }
    else s

abbrev pub maximum_remembered_request_ids : ℕ
maximum_remembered_request_ids = 4096

abbrev pub maximum_pending_requests : ℕ
maximum_pending_requests = 1024

unfoldable pub has_pending : List PendingRequest → Text → Bool
has_pending [] id = false
has_pending (p ∷ ps) id = text_eq p.request_id id || has_pending ps id

unfoldable pub remove_pending : List PendingRequest → Text → List PendingRequest
remove_pending [] id = []
remove_pending (p ∷ ps) id =
    let rest = remove_pending ps id in if text_eq p.request_id id then rest else p ∷ rest

unfoldable pub note_request : IpcSession → ProtocolMessage → Admission
note_request s m =
    if is_tracked m.message_type
    then (if in_set s.received_request_ids m.request_id
        then refused s (codes "ipc.session.duplicate_request_id")
        else if leb maximum_remembered_request_ids (length s.received_request_ids)
        then refused s (codes "ipc.session.request_id_limit")
        else admitted (record s { received_request_ids = m.request_id ∷ s.received_request_ids })
            false)
    else if is_type m.message_type response_type
    then (if has_pending s.pending_requests m.request_id
        then admitted
            (record s { pending_requests = remove_pending s.pending_requests m.request_id }) false
        else refused s (codes "ipc.session.unknown_response"))
    else admitted s false

-- `std::max(1, elapsed)` is the activity of the peer.
abbrev pub accept : ℕ → ProtocolMessage → Admission → IpcSession × ReceiveResult
accept elapsed m (refused s code) = fail s session_failed code
accept elapsed m (admitted s authentication) = (
  record s { last_peer_activity_ms = if leb 1 elapsed then elapsed else 1 },
  record { status = message_ready; received = some m; error_code = [] },
)

-- `processFrame` behind the authentication
abbrev pub finish : ℕ → ProtocolMessage → Admission → IpcSession × ReceiveResult
finish elapsed m (refused s code) = fail s session_failed code
finish elapsed m (admitted s authentication) = elim (type_refusal s m authentication) [
  | some code ↦ fail s session_failed code
  | none ↦ accept elapsed m (note_request (note_ready s m) m)
]

module _ (qt : QtText) (json : QtJson JsonObject) where
  -- The acknowledgement is sent when the session counts as authenticated already.
  unfoldable pub acknowledge : IpcSession → WriteStatus → Admission
  acknowledge s ack = elim (handshake_ack qt s.nonce s.app_identity) [
    | none ↦ refused s (acknowledgement_code s)
    | some m ↦
        let sent = send qt json s m ack in
        if sent.1 then admitted sent.0 true else refused sent.0 (acknowledgement_code sent.0)
  ]

  unfoldable pub admit_host : IpcSession → ProtocolMessage → WriteStatus → Admission
  admit_host s m ack =
      if not (is_type m.message_type handshake_type)
      then refused s (codes "ipc.session.handshake_required")
      else if not (text_eq (to_string (value m.payload (codes "nonce"))) s.nonce)
      then refused s (codes "ipc.session.nonce_mismatch")
      else acknowledge (record s { authenticated = true }) ack

  unfoldable pub admit : IpcSession → ProtocolMessage → WriteStatus → Admission
  admit s m ack =
      if s.authenticated
      then admit_authenticated s m
      else if is_host s.role
      then admit_host s m ack
      else admit_worker s m

  unfoldable pub process_frame :
      IpcSession → JsonObject → WriteStatus → ℕ → IpcSession × ReceiveResult
  process_frame s o ack elapsed = elim (parse qt o) [
    | failed e code ↦ fail s session_failed code
    | parsed m ↦ finish elapsed m (admit s m ack)
  ]

  -- The last part of `sendTracked`
  abbrev pub publish : IpcSession → Text → ℕ → IpcSession × Bool → IpcSession × Bool
  publish s id deadline (sent, true) = (
    record sent {
      pending_requests =
          record { request_id = id; deadline_ms = deadline }
          ∷ remove_pending sent.pending_requests id;
    },
    true,
  )
  publish s id deadline (sent, false) =
      (record sent { pending_requests = remove_pending sent.pending_requests id }, false)

  abbrev pub refuse_tracked : IpcSession → Text → IpcSession × Bool
  refuse_tracked s code = (record s { last_error_code = code }, false)

  -- The timeouts of the source are not negative here, and the time is that of the clock behind the
  -- write.
  unfoldable pub send_tracked :
      IpcSession → Text → Option ProtocolMessage → WriteStatus → ℕ → ℕ → IpcSession × Bool
  send_tracked s id message status response_timeout now =
      if s.closed
      then (s, false)
      else if has_pending s.pending_requests id
      then refuse_tracked s (codes "ipc.session.duplicate_request_id")
      else if leb maximum_pending_requests (length s.pending_requests)
      then refuse_tracked s (codes "ipc.session.pending_request_limit")
      else elim message [
        | none ↦ refuse_tracked s (codes "ipc.protocol.invalid_payload")
        | some m ↦
            let reserved = record s {
              pending_requests = record { request_id = id; deadline_ms = 0 } ∷ s.pending_requests;
            } in
            publish s id (now + response_timeout) (send_internal qt json reserved m status true)
      ]

  unfoldable pub send_request :
      IpcSession → Text → Text → Text → JsonObject → WriteStatus → ℕ → ℕ → IpcSession × Bool
  send_request s id capability operation payload status response_timeout now =
      send_tracked s id (request qt id capability operation payload) status response_timeout now

  unfoldable pub send_route_load :
      IpcSession → Text → Text → WriteStatus → ℕ → ℕ → IpcSession × Bool
  send_route_load s id route status timeout now =
      send_tracked s id (route_load qt id route) status timeout now

  unfoldable pub send_navigation_request :
      IpcSession → Text → Text → WriteStatus → ℕ → ℕ → IpcSession × Bool
  send_navigation_request s id route status timeout now =
      send_tracked s id (navigation_request qt id route) status timeout now

  unfoldable pub send_visibility_changed : IpcSession → Bool → WriteStatus → IpcSession × Bool
  send_visibility_changed s active status = elim (visibility_changed qt active) [
    | none ↦ refuse_tracked s (codes "ipc.protocol.invalid_payload")
    | some m ↦ send qt json s m status
  ]
