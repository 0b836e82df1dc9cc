-- ===== src/Ipc/Protocol/Envelope.antt =====
-- What `parse` makes of an envelope, and `toJson` of a message.
use q_browser.Base.{
  Bool, true, ◌&&◌, none, some, List, [], ◌∷◌, ◌≡◌, ◌⊎◌, inl, inr, refl, ap, ◌∙◌, arith,
  if◌then◌else◌, Bool-cases,
}
use q_browser.Base.Text.{Text, text_eq, text_eq_iff}
use q_browser.Ipc.Json.{text, JsonObject, size, value, in_set}
use q_browser.Ipc.Payload.{
  ProtocolType, handshake_type, handshake_ack_type, surface_ready_type, route_load_type,
  navigation_request_type, page_metadata_type, ready_type, request_type, response_type,
  heartbeat_type, visibility_changed_type, structured_log_type, shutdown_type, QtText, keys_in,
  has_exact_keys, is_empty, valid_token, valid_payload,
}
use q_browser.Ipc.Protocol.{
  ProtocolMessage, ProtocolError, ParseResult, parsed, failed, type_name, find_type, parse_type,
  to_int, needs_request_id, to_json, parse_payload, parse_typed, parse, validated, message_of,
}

parse-type_name : (t : ProtocolType) → parse_type (type_name t) ≡ some t
unfolding parse_type find_type type_name text_eq
parse-type_name handshake_type = refl
parse-type_name handshake_ack_type = refl
parse-type_name surface_ready_type = refl
parse-type_name route_load_type = refl
parse-type_name navigation_request_type = refl
parse-type_name page_metadata_type = refl
parse-type_name ready_type = refl
parse-type_name request_type = refl
parse-type_name response_type = refl
parse-type_name heartbeat_type = refl
parse-type_name visibility_changed_type = refl
parse-type_name structured_log_type = refl
parse-type_name shutdown_type = refl

pub find_type-name :
    (ts : List ProtocolType) (name : Text) {t : ProtocolType}
    → find_type ts name ≡ some t
    → name ≡ type_name t
unfolding find_type
find_type-name [] name h = absurd (ground arith)
find_type-name (x ∷ ts) name {t} h =
    ground (arith, text_eq_iff name (type_name x), find_type-name ts name {t = t})

abbrev pub message : ProtocolType → Text → JsonObject → ProtocolMessage
message t id p = record { message_type = t; request_id = id; payload = p }

-- Whether a message of a type may have the request id and the payload
unfoldable pub fits : QtText → ProtocolType → Text → JsonObject → Bool
fits qt t id p =
    (if needs_request_id t then valid_token (some (text id)) else is_empty id)
    && valid_payload qt t p

pub ParseResult-cases :
    (r : ParseResult)
    → ((m : ProtocolMessage) × (r ≡ parsed m))
      ⊎ ((e : ProtocolError) × (code : Text) × (r ≡ failed e code))
ParseResult-cases (parsed m) = inl (m, refl)
ParseResult-cases (failed e code) = inr (e, code, refl)

module _ (qt : QtText) where
  typed-to_json :
      (t : ProtocolType) (id : Text) (p : JsonObject)
      → message_of (parse_typed qt t (to_json (message t id p)))
        ≡ (if fits qt t id p then some (message t id p) else none)
  unfolding parse_typed to_json value has_exact_keys size keys_in in_set text_eq parse_payload
      valid_token fits
  typed-to_json t [] p = elim (Bool-cases (needs_request_id t)) [
    | inl e ↦ ground arith
    | inr e ↦ ground arith
  ]
  typed-to_json t (c ∷ cs) p = elim (Bool-cases (needs_request_id t)) [
    | inl e ↦ ground arith
    | inr e ↦ ground arith
  ]

  parse-to_json_typed :
      (t : ProtocolType) (id : Text) (p : JsonObject)
      → parse qt (to_json (message t id p)) ≡ parse_typed qt t (to_json (message t id p))
  unfolding parse to_json value text_eq to_int
  parse-to_json_typed t id p = ground (arith, parse-type_name t)

  -- `validated` makes the message of a type, a request id and a payload just where they fit: the
  -- payload is valid for the type, and the request id is a token for the four types that need one
  -- and empty for the others.
  pub validated-fits :
      (t : ProtocolType) (id : Text) (p : JsonObject)
      → validated qt t id p ≡ (if fits qt t id p then some (message t id p) else none)
  unfolding validated
  validated-fits t id p = ap message_of (parse-to_json_typed t id p) ∙ typed-to_json t id p

  -- What fits is read back.
  pub fits-parse :
      (t : ProtocolType) (id : Text) (p : JsonObject)
      → fits qt t id p ≡ true
      → parse qt (to_json (message t id p)) ≡ parsed (message t id p)
  fits-parse t id p h =
      let valid : message_of (parse qt (to_json (message t id p))) ≡ some (message t id p) =
        ap message_of (parse-to_json_typed t id p) ∙ typed-to_json t id p ∙ ground arith in
      elim (ParseResult-cases (parse qt (to_json (message t id p)))) [
        | inl (m, e) ↦ ground (arith, valid)
        | inr (x, code, e) ↦ absurd (ground (arith, valid))
      ]
