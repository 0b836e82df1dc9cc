-- ===== src/Ipc/Protocol/Read.antt =====
-- What `ProtocolMessage::parse` accepts.
use q_browser.Base.{
  Bool, true, false, Option, none, some, List, [], ◌≡◌, ◌⊎◌, inl, inr, refl, sym, ap, ◌∙◌, arith,
  if◌then◌else◌, Bool-cases, Option-cases,
}
use q_browser.Base.Int.{ℤ, pos, negsuc}
use q_browser.Base.Text.{Text, codes, text_eq, text_eq_iff}
use q_browser.Ipc.Json.{
  JsonValue, null, boolean, double, text, array, object, JsonObject, no_members, member, value,
  is_string, to_string, is_object, to_object, in_set,
}
use q_browser.Ipc.Payload.{
  ProtocolType, QtText, keys_in, has_exact_keys, is_empty, valid_token, valid_payload,
}
use q_browser.Ipc.Protocol.{
  ProtocolMessage, parsed, type_name, all_types, find_type, parse_type, to_int, needs_request_id,
  to_json, envelope_keys, is_integer, is_current, parse_payload, parse_typed, parse,
}
use q_browser.Ipc.Protocol.Envelope.{message, fits, find_type-name, fits-parse}

is_string-text : (v : Option JsonValue) → is_string v ≡ true → v ≡ some (text (to_string v))
is_string-text none h = ground arith
is_string-text (some null) h = ground arith
is_string-text (some (boolean b)) h = ground arith
is_string-text (some (double n)) h = ground arith
is_string-text (some (text t)) h = refl
is_string-text (some (array a)) h = ground arith
is_string-text (some (object o)) h = ground arith

is_object-object : (v : Option JsonValue) → is_object v ≡ true → v ≡ some (object (to_object v))
is_object-object none h = ground arith
is_object-object (some null) h = ground arith
is_object-object (some (boolean b)) h = ground arith
is_object-object (some (double n)) h = ground arith
is_object-object (some (text t)) h = ground arith
is_object-object (some (array a)) h = ground arith
is_object-object (some (object o)) h = refl

int-version : (n : ℤ) → is_current (some (double (some n))) ≡ true → n ≡ pos 1
unfolding to_int
int-version (pos n) h = ground arith
int-version (negsuc n) h = ground arith

current-version :
    (v : Option JsonValue)
    → is_integer v ≡ true
    → is_current v ≡ true
    → v ≡ some (double (some (pos 1)))
current-version none h g = ground arith
current-version (some null) h g = ground arith
current-version (some (boolean b)) h g = ground arith
current-version (some (double none)) h g = ground arith
current-version (some (double (some n))) h g = ap (λ m. some (double (some m))) (int-version n g)
current-version (some (text t)) h g = ground arith
current-version (some (array a)) h g = ground arith
current-version (some (object o)) h g = ground arith

-- A key that is not in the set of an object is no key of it.
value-outside :
    (o : JsonObject) (keys : List Text) (k : Text)
    → keys_in o keys ≡ true
    → in_set keys k ≡ false
    → value o k ≡ none
unfolding keys_in value
value-outside no_members keys k h g = refl
value-outside (member x v o) keys k h g = elim (Bool-cases (text_eq x k)) [
  | inl e ↦ absurd (ground (arith, text_eq_iff x k))
  | inr e ↦ ground (arith, value-outside o keys k)
]

token-text :
    (v : Option JsonValue)
    → valid_token v ≡ true
    → (v ≡ some (text (to_string v))) × (is_empty (to_string v) ≡ false)
unfolding valid_token
token-text v h = ground (arith, is_string-text v)

module _ (qt : QtText) where
  typed-envelope :
      (t : ProtocolType) (o : JsonObject) {m : ProtocolMessage}
      → parse_typed qt t o ≡ parsed m
      → has_exact_keys o (envelope_keys (needs_request_id t)) ≡ true
  unfolding parse_typed
  typed-envelope t o {m} h = ground arith

  payload-parsed :
      (t : ProtocolType) (id : Text) (o : JsonObject) {m : ProtocolMessage}
      → parse_payload qt t id o ≡ parsed m
      → (m ≡ message t id (to_object (value o (codes "payload"))))
        × (value o (codes "payload") ≡ some (object (to_object (value o (codes "payload")))))
        × (valid_payload qt t (to_object (value o (codes "payload"))) ≡ true)
  unfolding parse_payload
  payload-parsed t id o {m} h =
      let payload = value o (codes "payload") in
      let is_obj : is_object payload ≡ true = ground arith in
      let valid : valid_payload qt t (to_object payload) ≡ true = ground arith in
      (ground arith, is_object-object payload is_obj, valid)

  -- The request id of a message, from its envelope
  abbrev id_of : ProtocolType → JsonObject → Text
  id_of t o = if needs_request_id t then to_string (value o (codes "requestId")) else []

  typed-parsed :
      (t : ProtocolType) (o : JsonObject) {m : ProtocolMessage}
      → parse_typed qt t o ≡ parsed m
      → (parse_payload qt t (id_of t o) o ≡ parsed m)
        × ((needs_request_id t ≡ false)
            ⊎ ((needs_request_id t ≡ true) × (valid_token (value o (codes "requestId")) ≡ true)))
  unfolding parse_typed
  typed-parsed t o {m} h = elim (Bool-cases (needs_request_id t)) [
    | inl e ↦ (ground arith, inr (e, ground arith))
    | inr e ↦ (ground arith, inl e)
  ]

  parse-parsed :
      (o : JsonObject) {m : ProtocolMessage}
      → parse qt o ≡ parsed m
      → (t : ProtocolType) × (value o (codes "protocolVersion") ≡ some (double (some (pos 1))))
        × (value o (codes "type") ≡ some (text (type_name t)))
        × (parse_typed qt t o ≡ parsed m)
  unfolding parse parse_type
  parse-parsed o {m} h =
      let version = value o (codes "protocolVersion") in
      let name = value o (codes "type") in
      let int : is_integer version ≡ true = ground arith in
      let current : is_current version ≡ true = ground arith in
      let str : is_string name ≡ true = ground arith in
      elim (Option-cases (find_type all_types (to_string name))) [
        | inl e ↦ absurd (ground arith)
        | inr (t, e) ↦ (
          t,
          current-version version int current,
          is_string-text name str
              ∙ ap (λ s. some (text s)) (find_type-name all_types (to_string name) e),
          ground arith,
        )
      ]

  fits-id_of :
      (t : ProtocolType) (o : JsonObject) (p : JsonObject)
      → valid_payload qt t p ≡ true
      → (needs_request_id t ≡ false)
        ⊎ ((needs_request_id t ≡ true) × (valid_token (value o (codes "requestId")) ≡ true))
      → fits qt t (id_of t o) p ≡ true
  unfolding fits
  fits-id_of t o p h (inl e) = ground arith
  fits-id_of t o p h (inr (e, v)) =
      let (same, full) = token-text (value o (codes "requestId")) v in
      let v' : valid_token (some (text (to_string (value o (codes "requestId"))))) ≡ true =
        rw same at v in
      ground arith

  -- A message that was parsed from some object, written by `to_json` and parsed again is the same
  -- message.
  pub parse-to_json :
      (o : JsonObject) {m : ProtocolMessage}
      → parse qt o ≡ parsed m
      → parse qt (to_json m) ≡ parsed m
  parse-to_json o {m} h =
      let (t, version, name, typed) = parse-parsed o h in
      let (paid, ids) = typed-parsed t o typed in
      let (same, obj, valid) = payload-parsed t (id_of t o) o paid in
      rw same (
        fits-parse qt t (id_of t o) (to_object (value o (codes "payload")))
          (fits-id_of t o (to_object (value o (codes "payload"))) valid ids))

-- The four keys of the envelope, and all the others
Key-cases :
    (k : Text)
    → (k ≡ codes "protocolVersion")
      ⊎ (k ≡ codes "type")
      ⊎ (k ≡ codes "requestId")
      ⊎ (k ≡ codes "payload")
      ⊎ ((text_eq (codes "protocolVersion") k ≡ false)
          × (text_eq (codes "type") k ≡ false)
          × (text_eq (codes "requestId") k ≡ false)
          × (text_eq (codes "payload") k ≡ false))
Key-cases k = ground (
  arith,
  text_eq_iff (codes "protocolVersion") k,
  text_eq_iff (codes "type") k,
  text_eq_iff (codes "requestId") k,
  text_eq_iff (codes "payload") k,
)

-- The members of a written message
written-version :
    (m : ProtocolMessage)
    → value (to_json m) (codes "protocolVersion") ≡ some (double (some (pos 1)))
unfolding to_json value text_eq
written-version m = refl

written-type :
    (m : ProtocolMessage)
    → value (to_json m) (codes "type") ≡ some (text (type_name m.message_type))
unfolding to_json value text_eq
written-type m = refl

written-payload :
    (m : ProtocolMessage) → value (to_json m) (codes "payload") ≡ some (object m.payload)
unfolding to_json value text_eq
written-payload m = refl

written-id :
    (m : ProtocolMessage)
    → value (to_json m) (codes "requestId")
      ≡ (if is_empty m.request_id then none else some (text m.request_id))
unfolding to_json value text_eq
written-id m = ground arith

written-other :
    (m : ProtocolMessage) (k : Text)
    → text_eq (codes "protocolVersion") k ≡ false
    → text_eq (codes "type") k ≡ false
    → text_eq (codes "requestId") k ≡ false
    → text_eq (codes "payload") k ≡ false
    → value (to_json m) k ≡ none
unfolding to_json value
written-other m k a b c d = ground arith

read-other :
    (o : JsonObject) (b : Bool) (k : Text)
    → has_exact_keys o (envelope_keys b) ≡ true
    → text_eq (codes "protocolVersion") k ≡ false
    → text_eq (codes "type") k ≡ false
    → text_eq (codes "requestId") k ≡ false
    → text_eq (codes "payload") k ≡ false
    → value o k ≡ none
unfolding has_exact_keys in_set
read-other o true k h a b c d = value-outside o (envelope_keys true) k (ground arith) (ground arith)
read-other o false k h a b c d =
    value-outside o (envelope_keys false) k (ground arith) (ground arith)

read-no_id :
    (o : JsonObject)
    → has_exact_keys o (envelope_keys false) ≡ true
    → value o (codes "requestId") ≡ none
unfolding has_exact_keys in_set text_eq
read-no_id o h = value-outside o (envelope_keys false) (codes "requestId") (ground arith) refl

module _ (qt : QtText) where
  id-read :
      (t : ProtocolType) (o : JsonObject)
      → has_exact_keys o (envelope_keys (needs_request_id t)) ≡ true
      → (needs_request_id t ≡ false)
        ⊎ ((needs_request_id t ≡ true) × (valid_token (value o (codes "requestId")) ≡ true))
      → value o (codes "requestId")
        ≡ (if is_empty (id_of qt t o) then none else some (text (id_of qt t o)))
  id-read t o h (inl e) =
      let h' : has_exact_keys o (envelope_keys false) ≡ true = rw e at h in
      ground (arith, read-no_id o h')
  id-read t o h (inr (e, v)) = ground (arith, token-text (value o (codes "requestId")) v)

  -- The object that `to_json` writes of a parsed message has the same value at every key as the
  -- object that it was parsed from.
  pub value-parse :
      (o : JsonObject) (k : Text) {m : ProtocolMessage}
      → parse qt o ≡ parsed m
      → value (to_json m) k ≡ value o k
  value-parse o k {m} h =
      let (t, version, name, typed) = parse-parsed qt o h in
      let (paid, ids) = typed-parsed qt t o typed in
      let (same, obj, valid) = payload-parsed qt t (id_of qt t o) o paid in
      let exact = typed-envelope qt t o typed in
      elim (Key-cases k) [
        | inl e ↦ rw (e, version) (written-version m)
        | inr (inl e) ↦
            rw (e, name, same)
              (written-type (message t (id_of qt t o) (to_object (value o (codes "payload")))))
        | inr (inr (inl e)) ↦
            rw (e, id-read t o exact ids, same)
              (written-id (message t (id_of qt t o) (to_object (value o (codes "payload")))))
        | inr (inr (inr (inl e))) ↦
            rw (e, obj, same)
              (written-payload (message t (id_of qt t o) (to_object (value o (codes "payload")))))
        | inr (inr (inr (inr (a, b, c, d)))) ↦
            written-other m k a b c d ∙ sym (read-other o (needs_request_id t) k exact a b c d)
      ]
