-- ===== src/Ipc/Payload.antt =====
-- What the payload of a message may be: the validators of runtime/ipc/ProtocolMessage.cpp.
--
-- Of Qt three functions are arguments: whether the category of a character is `Other_Control`,
-- `QString::toULongLong` in base 10 (`none` where it does not convert), and `QString::number`.
use q_browser.Base.{
  ℕ, Bool, true, false, not, ◌&&◌, ◌||◌, Option, none, some, List, [], ◌∷◌, leb, ◌==◌,
  if◌then◌else◌, length,
}
use q_browser.Base.Text.{Text, codes, text_eq}
use q_browser.Router.Path.{contains, starts_with}
use q_browser.Tabs.Title.{is_high_surrogate, is_low_surrogate}
use q_browser.Ipc.Json.{
  JsonValue, JsonObject, no_members, member, size, value, is_string, to_string, is_bool, to_bool,
  is_object, to_object, in_set,
}

pub data ProtocolType : Type 0 where
  handshake_type handshake_ack_type surface_ready_type route_load_type navigation_request_type
        page_metadata_type ready_type request_type response_type heartbeat_type
        visibility_changed_type structured_log_type shutdown_type :
      ProtocolType

pub record QtText : Type 0 where
  pub is_control : ℕ → Bool
  pub to_unsigned : Text → Option ℕ
  pub number : ℕ → Text

abbrev pub maximum_token_characters : ℕ
maximum_token_characters = 256

abbrev pub maximum_page_title_code_units : ℕ
maximum_page_title_code_units = 256

abbrev pub maximum_page_status_bytes : ℕ
maximum_page_status_bytes = 32

abbrev pub is_bidi_control : ℕ → Bool
is_bidi_control v =
    v == 0x061c
    || (leb 0x200e v && leb v 0x200f)
    || (leb 0x202a v && leb v 0x202e)
    || (leb 0x2066 v && leb v 0x206f)

-- Every key of the object is in the set.
unfoldable pub keys_in : JsonObject → List Text → Bool
keys_in no_members keys = true
keys_in (member k v o) keys = in_set keys k && keys_in o keys

unfoldable pub has_exact_keys : JsonObject → List Text → Bool
has_exact_keys o keys = size o == length keys && keys_in o keys

-- The loops of the validators: whether all the code units are admitted
unfoldable pub all_units : (ℕ → Bool) → Text → Bool
all_units ok [] = true
all_units ok (c ∷ cs) = ok c && all_units ok cs

abbrev pub is_empty : Text → Bool
is_empty [] = true
is_empty (c ∷ cs) = false

unfoldable pub valid_token : Option JsonValue → Bool
valid_token v =
    is_string v
    && not (is_empty (to_string v))
    && leb (length (to_string v)) maximum_token_characters
    && all_units (λ c. leb 0x21 c && leb c 0x7e) (to_string v)

unfoldable pub valid_page_status : Option JsonValue → Bool
valid_page_status v =
    let status = to_string v in
    is_string v
    && not (is_empty status)
    && leb (length status) maximum_page_status_bytes
    && all_units (λ c. leb c 0x7f) status
    && (text_eq status (codes "loading") || text_eq status (codes "ready"))

abbrev pub starts_with_two_slashes : Text → Bool
starts_with_two_slashes (a ∷ b ∷ rest) = a == b'/' && b == b'/'
starts_with_two_slashes _ = false

-- What `validPageTitle` admits besides the pairs of surrogates
abbrev pub plain_title_unit : (ℕ → Bool) → ℕ → Bool
plain_title_unit is_control c =
    not (is_low_surrogate c || is_control c || is_bidi_control c || c == b'<' || c == b'>')

module _ (qt : QtText) where
  -- The loop of `validPageTitle` takes a pair of surrogates in one round.
  unfoldable pub title_units : Text → Bool
  title_units [] = true
  title_units (c ∷ []) = not (is_high_surrogate c) && plain_title_unit qt.is_control c
  title_units (c ∷ d ∷ rest) =
      let behind_pair = title_units rest in
      let behind = title_units (d ∷ rest) in
      if is_high_surrogate c
      then is_low_surrogate d && behind_pair
      else plain_title_unit qt.is_control c && behind

  unfoldable pub valid_page_title : Option JsonValue → Bool
  valid_page_title v =
      let title = to_string v in
      is_string v
      && not (is_empty title)
      && leb (length title) maximum_page_title_code_units
      && title_units title

  unfoldable pub valid_text : Option JsonValue → ℕ → Bool
  valid_text v maximum =
      is_string v
      && not (is_empty (to_string v))
      && leb (length (to_string v)) maximum
      && all_units (λ c. not (c == 0 || qt.is_control c)) (to_string v)

  unfoldable pub valid_window_handle : JsonObject → Bool
  valid_window_handle payload =
      let handle = to_string (value payload (codes "windowHandle")) in
      has_exact_keys payload (codes "windowHandle" ∷ []) && elim (qt.to_unsigned handle) [
        | none ↦ false
        | some n ↦ not (n == 0) && text_eq (qt.number n) handle
      ]

  unfoldable pub valid_route : JsonObject → Bool
  valid_route payload =
      let route = to_string (value payload (codes "route")) in
      has_exact_keys payload (codes "route" ∷ [])
      && valid_text (value payload (codes "route")) 2048
      && starts_with b'/' route
      && not (starts_with_two_slashes route)
      && not (contains b'#' route)

  unfoldable pub valid_page_metadata : JsonObject → Bool
  valid_page_metadata payload =
      let title_only = has_exact_keys payload (codes "title" ∷ []) in
      let with_status = has_exact_keys payload (codes "title" ∷ codes "status" ∷ []) in
      (title_only || with_status)
      && valid_page_title (value payload (codes "title"))
      && (not with_status || valid_page_status (value payload (codes "status")))

  unfoldable pub valid_error : JsonObject → Bool
  valid_error error =
      has_exact_keys error (codes "code" ∷ codes "message" ∷ [])
      && valid_token (value error (codes "code"))
      && is_string (value error (codes "message"))
      && leb (length (to_string (value error (codes "message")))) maximum_token_characters

  unfoldable pub valid_response : JsonObject → Bool
  valid_response payload =
      let ok = value payload (codes "ok") in
      let error = value payload (codes "error") in
      is_bool ok
      && (if to_bool ok
          then has_exact_keys payload (codes "ok" ∷ codes "result" ∷ [])
            && is_object (value payload (codes "result"))
          else has_exact_keys payload (codes "ok" ∷ codes "error" ∷ [])
            && is_object error
            && valid_error (to_object error))

  unfoldable pub valid_log : JsonObject → Bool
  valid_log payload =
      let level = to_string (value payload (codes "level")) in
      has_exact_keys payload (codes "level" ∷ codes "category" ∷ codes "message" ∷ [])
      && (text_eq level (codes "debug")
          || text_eq level (codes "info")
          || text_eq level (codes "warning")
          || text_eq level (codes "error"))
      && valid_token (value payload (codes "category"))
      && valid_text (value payload (codes "message")) 4096

  unfoldable pub valid_payload : ProtocolType → JsonObject → Bool
  valid_payload handshake_type payload =
      has_exact_keys payload (codes "nonce" ∷ []) && valid_token (value payload (codes "nonce"))
  valid_payload handshake_ack_type payload =
      has_exact_keys payload (codes "nonce" ∷ codes "appIdentity" ∷ [])
      && valid_token (value payload (codes "nonce"))
      && valid_token (value payload (codes "appIdentity"))
  valid_payload surface_ready_type payload = valid_window_handle payload
  valid_payload ready_type payload = size payload == 0
  valid_payload heartbeat_type payload = size payload == 0
  valid_payload visibility_changed_type payload =
      has_exact_keys payload (codes "active" ∷ []) && is_bool (value payload (codes "active"))
  valid_payload route_load_type payload = valid_route payload
  valid_payload navigation_request_type payload = valid_route payload
  valid_payload page_metadata_type payload = valid_page_metadata payload
  valid_payload request_type payload =
      has_exact_keys payload (codes "capability" ∷ codes "operation" ∷ codes "payload" ∷ [])
      && valid_token (value payload (codes "capability"))
      && valid_token (value payload (codes "operation"))
      && is_object (value payload (codes "payload"))
  valid_payload response_type payload = valid_response payload
  valid_payload shutdown_type payload =
      has_exact_keys payload (codes "reason" ∷ []) && valid_token (value payload (codes "reason"))
  valid_payload structured_log_type payload = valid_log payload
