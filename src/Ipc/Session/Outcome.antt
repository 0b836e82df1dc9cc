-- ===== src/Ipc/Session/Outcome.antt =====
-- What `IpcSession::processFrame` does with a frame.
use q_browser.Base.{
  ℕ, Bool, true, false, not, ◌&&◌, ◌||◌, none, some, List, ◌∷◌, ◌≡◌, ◌⊎◌, inl, inr, refl, sym, ap,
  ◌∙◌, arith, leb, if◌then◌else◌, length, Bool-cases, if_elim, option_elim,
}
use q_browser.Base.Text.{Text, codes, text_eq}
use q_browser.Ipc.Frame.{QtJson}
use q_browser.Ipc.Json.{JsonObject, value, to_string, in_set}
use q_browser.Ipc.Payload.{handshake_type, handshake_ack_type, response_type, QtText, is_empty}
use q_browser.Ipc.Protocol.{ProtocolMessage, parse, handshake_ack}
use q_browser.Ipc.Protocol.Envelope.{ParseResult-cases}
use q_browser.Ipc.Session.{
  IpcRole, host, worker, SessionStatus, session_failed, WriteStatus, ReceiveResult, IpcSession,
  incoming_type_allowed, is_tracked, is_host, is_type, close, fail, send, Admission, refused,
  admitted, admit_worker, admit_authenticated, type_refusal, note_ready, note_request, accept,
  finish, acknowledge, admit_host, admit, process_frame, has_pending,
  maximum_remembered_request_ids,
}
use q_browser.Ipc.Session.Kept.{send_internal-Kept}

-- The first message authenticates the peer.
unfoldable pub authenticates : IpcRole → Text → ProtocolMessage → Bool
authenticates host nonce m =
    is_type m.message_type handshake_type
    && text_eq (to_string (value m.payload (codes "nonce"))) nonce
authenticates worker nonce m = is_type m.message_type handshake_ack_type

authenticates_host :
    (r : IpcRole) (nonce : Text) (m : ProtocolMessage)
    → is_host r ≡ true
    → not (is_type m.message_type handshake_type) ≡ false
    → not (text_eq (to_string (value m.payload (codes "nonce"))) nonce) ≡ false
    → authenticates r nonce m ≡ true
unfolding authenticates
authenticates_host host nonce m h k t = ground arith
authenticates_host worker nonce m h k t = absurd (ground arith)

authenticates_worker :
    (r : IpcRole) (nonce : Text) (m : ProtocolMessage)
    → is_host r ≡ false
    → is_type m.message_type handshake_ack_type ≡ true
    → authenticates r nonce m ≡ true
unfolding authenticates
authenticates_worker host nonce m h k = absurd (ground arith)
authenticates_worker worker nonce m h k = k

-- A later message is no handshake and goes in the right direction.
unfoldable pub is_regular : IpcRole → ProtocolMessage → Bool
is_regular role m =
    incoming_type_allowed role m.message_type
    && not (is_type m.message_type handshake_type)
    && not (is_type m.message_type handshake_ack_type)

abbrev pub is_new : List Text → ProtocolMessage → Bool
is_new ids m = not (is_tracked m.message_type && in_set ids m.request_id)

abbrev pub remember : List Text → ProtocolMessage → List Text
remember ids m = if is_tracked m.message_type then m.request_id ∷ ids else ids

-- A processed frame closes the session, or a message is delivered.
abbrev pub Delivers : IpcSession → ProtocolMessage → IpcSession → Type 0
Delivers s m t =
    (t.role ≡ s.role)
    × (t.nonce ≡ s.nonce)
    × (t.authenticated ≡ true)
    × (t.received_request_ids ≡ remember s.received_request_ids m)
    × ((if s.authenticated then is_regular s.role m else authenticates s.role s.nonce m) ≡ true)
    × (is_new s.received_request_ids m ≡ true)

abbrev pub Outcome : IpcSession → IpcSession × ReceiveResult → Type 0
Outcome s r =
    ((r.1.received ≡ none) × (r.0.closed ≡ true))
    ⊎ ((m : ProtocolMessage) × (r.1.received ≡ some m) × Delivers s m r.0)

module _ (qt : QtText) (json : QtJson JsonObject) where
  -- What admits a message
  abbrev Admits : IpcSession → ProtocolMessage → Admission → Type 0
  Admits s m (refused t code) = Unit
  Admits s m (admitted t authentication) =
      (t.role ≡ s.role)
      × (t.nonce ≡ s.nonce)
      × (t.authenticated ≡ true)
      × (t.received_request_ids ≡ s.received_request_ids)
      × (authentication ≡ not s.authenticated)
      × ((if s.authenticated
            then not (is_type m.message_type handshake_type)
              && not (is_type m.message_type handshake_ack_type)
            else authenticates s.role s.nonce m)
          ≡ true)

  authenticated-Admits :
      (s : IpcSession) (m : ProtocolMessage)
      → s.authenticated ≡ true
      → Admits s m (admit_authenticated s m)
  unfolding admit_authenticated
  authenticated-Admits s m a =
      if_elim (Admits s m)
        (is_type m.message_type handshake_type || is_type m.message_type handshake_ack_type) _ _
        (λ h. tt) λ h. (refl, refl, a, refl, ground arith, ground arith)

  worker-Admits :
      (s : IpcSession) (m : ProtocolMessage)
      → s.authenticated ≡ false
      → is_host s.role ≡ false
      → Admits s m (admit_worker s m)
  unfolding admit_worker authenticates
  worker-Admits s m a w =
      if_elim (Admits s m)
        (not (is_type m.message_type handshake_ack_type) || is_empty s.outbound_nonce) _ _ (λ h. tt)
        λ h.
          if_elim (Admits s m)
            (not (text_eq (to_string (value m.payload (codes "nonce"))) s.outbound_nonce)) _ _
            (λ g. tt)
            λ g. (
              refl,
              refl,
              refl,
              refl,
              ground arith,
              ground (arith, authenticates_worker s.role s.nonce m w),
            )

  acknowledge-Admits :
      (s : IpcSession) (m : ProtocolMessage) (ack : WriteStatus)
      → s.authenticated ≡ false
      → authenticates s.role s.nonce m ≡ true
      → Admits s m (acknowledge qt json (record s { authenticated = true }) ack)
  unfolding acknowledge send
  acknowledge-Admits s m ack a h =
      let t : IpcSession = record s { authenticated = true } in
      option_elim (Admits s m) (handshake_ack qt s.nonce s.app_identity) _ _ (λ e. tt)
        λ n e.
          let (role, nonce, known, ids, _) = send_internal-Kept qt json t n ack false in
          if_elim (Admits s m) (send qt json t n ack).1 _ _
            (λ g. (role, nonce, known, ids, ground arith, ground arith)) λ g. tt

  host-Admits :
      (s : IpcSession) (m : ProtocolMessage) (ack : WriteStatus)
      → s.authenticated ≡ false
      → is_host s.role ≡ true
      → Admits s m (admit_host qt json s m ack)
  unfolding admit_host authenticates
  host-Admits s m ack a w =
      if_elim (Admits s m) (not (is_type m.message_type handshake_type)) _ _ (λ h. tt)
        λ h.
          if_elim (Admits s m) (not (text_eq (to_string (value m.payload (codes "nonce"))) s.nonce))
            _ _ (λ g. tt)
            λ g. acknowledge-Admits s m ack a (authenticates_host s.role s.nonce m w h g)

  admit-Admits :
      (s : IpcSession) (m : ProtocolMessage) (ack : WriteStatus)
      → Admits s m (admit qt json s m ack)
  unfolding admit
  admit-Admits s m ack =
      if_elim (Admits s m) s.authenticated _ _ (λ h. authenticated-Admits s m h)
        λ h.
          if_elim (Admits s m) (is_host s.role) _ _ (λ g. host-Admits s m ack h g)
            λ g. worker-Admits s m h g

  -- What remembers the id of a message
  abbrev Remembers : IpcSession → ProtocolMessage → Admission → Type 0
  Remembers t m (refused u code) = Unit
  Remembers t m (admitted u b) =
      (u.role ≡ t.role)
      × (u.nonce ≡ t.nonce)
      × (u.authenticated ≡ t.authenticated)
      × (u.received_request_ids ≡ remember t.received_request_ids m)
      × (is_new t.received_request_ids m ≡ true)

  note_request-Remembers : (t : IpcSession) (m : ProtocolMessage) → Remembers t m (note_request t m)
  unfolding note_request
  note_request-Remembers t m =
      if_elim (Remembers t m) (is_tracked m.message_type) _ _
        (λ h.
          if_elim (Remembers t m) (in_set t.received_request_ids m.request_id) _ _ (λ g. tt)
            λ g.
              if_elim (Remembers t m)
                (leb maximum_remembered_request_ids (length t.received_request_ids)) _ _ (λ f. tt)
                λ f. (refl, refl, refl, ground arith, ground arith))
        λ h.
          if_elim (Remembers t m) (is_type m.message_type response_type) _ _
            (λ g.
              if_elim (Remembers t m) (has_pending t.pending_requests m.request_id) _ _
                (λ f. (refl, refl, refl, ground arith, ground arith)) λ f. tt)
            λ g. (refl, refl, refl, ground arith, ground arith)

  fail-Outcome :
      (s t : IpcSession) (status : SessionStatus) (code : Text) → Outcome s (fail t status code)
  unfolding fail close
  fail-Outcome s t status code = inl (refl, refl)

  ready-kept :
      (t : IpcSession) (m : ProtocolMessage)
      → ((note_ready t m).role ≡ t.role)
        × ((note_ready t m).nonce ≡ t.nonce)
        × ((note_ready t m).authenticated ≡ t.authenticated)
        × ((note_ready t m).received_request_ids ≡ t.received_request_ids)
  unfolding note_ready
  ready-kept t m = ground arith

  incoming_allowed :
      (t : IpcSession) (m : ProtocolMessage) (b : Bool)
      → b ≡ false
      → type_refusal t m b ≡ none
      → incoming_type_allowed t.role m.message_type ≡ true
  unfolding type_refusal
  incoming_allowed t m b h n = ground arith

  admitted_message :
      (s t : IpcSession) (m : ProtocolMessage) (b : Bool)
      → t.role ≡ s.role
      → b ≡ not s.authenticated
      → (if s.authenticated
          then not (is_type m.message_type handshake_type)
            && not (is_type m.message_type handshake_ack_type)
          else authenticates s.role s.nonce m)
        ≡ true
      → type_refusal t m b ≡ none
      → (if s.authenticated then is_regular s.role m else authenticates s.role s.nonce m) ≡ true
  unfolding is_regular
  admitted_message s t m b role auth ok n = elim (Bool-cases s.authenticated) [
    | inl e ↦
        let direction =
          ap (λ r. incoming_type_allowed r m.message_type) (sym role)
          ∙ incoming_allowed t m b (ground arith) n in
        ground arith
    | inr e ↦ ground arith
  ]

  accept-Outcome :
      (s t : IpcSession) (m : ProtocolMessage) (elapsed : ℕ) (authentication : Bool) (a : Admission)
      → Admits s m (admitted t authentication)
      → type_refusal t m authentication ≡ none
      → Remembers (note_ready t m) m a
      → Outcome s (accept elapsed m a)
  accept-Outcome s t m elapsed b (refused u code) x n r = fail-Outcome s u session_failed code
  accept-Outcome s t m elapsed b (admitted u b') (role, nonce, known, ids, auth, ok) n
        (role', nonce', known', ids', new) =
      let (role₂, nonce₂, known₂, ids₂) = ready-kept t m in
      inr (
        m,
        refl,
        (
          role' ∙ role₂ ∙ role,
          nonce' ∙ nonce₂ ∙ nonce,
          known' ∙ known₂ ∙ known,
          ids' ∙ ap (λ ks. remember ks m) (ids₂ ∙ ids),
          admitted_message s t m b role auth ok n,
          sym (ap (λ ks. is_new ks m) (ids₂ ∙ ids)) ∙ new,
        ),
      )

  finish-Outcome :
      (s : IpcSession) (m : ProtocolMessage) (elapsed : ℕ) (a : Admission)
      → Admits s m a
      → Outcome s (finish elapsed m a)
  finish-Outcome s m elapsed (refused t code) x = fail-Outcome s t session_failed code
  finish-Outcome s m elapsed (admitted t b) x =
      option_elim (Outcome s) (type_refusal t m b) _ _
        (λ n.
          accept-Outcome s t m elapsed b (note_request (note_ready t m) m) x n
            (note_request-Remembers (note_ready t m) m))
        λ code n. fail-Outcome s t session_failed code

  pub process-Outcome :
      (s : IpcSession) (o : JsonObject) (ack : WriteStatus) (elapsed : ℕ)
      → Outcome s (process_frame qt json s o ack elapsed)
  unfolding process_frame is_tracked is_regular authenticates
  process-Outcome s o ack elapsed = elim (ParseResult-cases (parse qt o)) [
    | inl (m, e) ↦
        rw (process_frame, e)
          (finish-Outcome s m elapsed (admit qt json s m ack) (admit-Admits s m ack))
    | inr (x, code, e) ↦ rw (process_frame, e) (fail-Outcome s s session_failed code)
  ]
