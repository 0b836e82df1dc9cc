-- ===== src/Ipc/Session/Paired.antt =====
-- The responses that a session delivers, against the requests that it sent.
use q_browser.Base.{
  ℕ, Bool, true, false, not, ◌||◌, Option, none, some, List, [], ◌∷◌, ◌≡◌, inl, inr, refl, sym, ap,
  ◌∙◌, arith, if◌then◌else◌, Bool-cases,
}
use q_browser.Base.Text.{Text}
use q_browser.Ipc.Frame.{QtJson}
use q_browser.Ipc.Json.{JsonObject, in_set}
use q_browser.Ipc.Payload.{response_type, QtText}
use q_browser.Ipc.Protocol.{ProtocolMessage}
use q_browser.Ipc.Session.{
  IpcRole, WriteStatus, ReceiveResult, IpcSession, is_type, create, close, send, process_frame,
  send_tracked,
}
use q_browser.Ipc.Session.Kept.{send_internal-Kept}
use q_browser.Ipc.Session.Admitted.{Event, frame, message_sent, tracked_sent, closed_by_owner, step}
use q_browser.Ipc.Session.Waits.{pending_ids, remove_text, Waits, send_internal-Waits}
use q_browser.Ipc.Session.Arrival.{Arrival, Tracks, process-Arrival, send_tracked-Tracks}

-- What a run shows: the id of a request that was sent, or a message that was delivered
pub data Entry : Type 0 where
  opened : Text → Entry
  arrived : ProtocolMessage → Entry

-- A response has the id of a request that is open, and closes it; no request is sent with the id of
-- an open one.
unfoldable pub IsPaired : List Text → List Entry → Type 0
IsPaired ids [] = Unit
IsPaired ids (opened id ∷ log) = (in_set ids id ≡ false) × IsPaired (id ∷ ids) log
IsPaired ids (arrived m ∷ log) =
    ((not (is_type m.message_type response_type) || in_set ids m.request_id) ≡ true)
    × IsPaired (if is_type m.message_type response_type then remove_text ids m.request_id else ids)
        log

if_false : {A : Type 0} (b : Bool) (x y : A) → b ≡ false → (if b then x else y) ≡ y
if_false true x y h = absurd (ground arith)
if_false false x y h = refl

if_true : {A : Type 0} (b : Bool) (x y : A) → b ≡ true → (if b then x else y) ≡ x
if_true true x y h = refl
if_true false x y h = absurd (ground arith)

module _ (qt : QtText) (json : QtJson JsonObject) where
  -- What a call shows
  abbrev entry_of : Option ProtocolMessage → Option Entry
  entry_of none = none
  entry_of (some m) = some (arrived m)

  unfoldable pub seen : IpcSession → Event → Option Entry
  seen s (frame o ack elapsed) =
      if s.closed then none else entry_of (process_frame qt json s o ack elapsed).1.received
  seen s (tracked_sent id m status timeout now) =
      if (send_tracked qt json s id m status timeout now).1 then some (opened id) else none
  seen s (message_sent m status) = none
  seen s closed_by_owner = none

  abbrev pub put : Option Entry → List Entry → List Entry
  put none log = log
  put (some e) log = e ∷ log

  unfoldable pub log : IpcSession → List Event → List Entry
  log s [] = []
  log s (e ∷ es) = put (seen s e) (log (step qt json s e).0 es)

  sent_closed :
      (s : IpcSession) (id : Text) (m : Option ProtocolMessage) (status : WriteStatus)
      (timeout now : ℕ)
      → s.closed ≡ true
      → send_tracked qt json s id m status timeout now ≡ (s, false)
  unfolding send_tracked
  sent_closed s id m status timeout now h = if_true s.closed _ _ h

  -- A choice between two sessions, in what it shows
  closed_choice :
      (b : Bool) (entry : Option Entry) (x y : IpcSession × Option ProtocolMessage)
      (es : List Event)
      → b ≡ true
      → log x.0 es ≡ []
      → put (if b then none else entry) (log (if b then x else y).0 es) ≡ []
  closed_choice true entry x y es h e = e
  closed_choice false entry x y es h e = absurd (ground arith)

  active_choice :
      (ks : List Text) (b : Bool) (entry : Option Entry) (x y : IpcSession × Option ProtocolMessage)
      (es : List Event)
      → b ≡ false
      → IsPaired ks (put entry (log y.0 es))
      → IsPaired ks (put (if b then none else entry) (log (if b then x else y).0 es))
  active_choice ks true entry x y es h p = absurd (ground arith)
  active_choice ks false entry x y es h p = p

  closed-log : (s : IpcSession) (es : List Event) → s.closed ≡ true → log s es ≡ []
  unfolding log seen step close send
  closed-log s [] h = refl
  closed-log s (frame o ack elapsed ∷ es) h =
      closed_choice s.closed (entry_of (process_frame qt json s o ack elapsed).1.received) (s, none)
        (
          (process_frame qt json s o ack elapsed).0,
          (process_frame qt json s o ack elapsed).1.received,
        )
        es h (closed-log s es h)
  closed-log s (message_sent m status ∷ es) h =
      let (_, _, _, _, c) = send_internal-Kept qt json s m status false in
      closed-log (send qt json s m status).0 es (c h)
  closed-log s (tracked_sent id m status timeout now ∷ es) h =
      ap (λ r. put (if r.1 then some (opened id) else none) (log r.0 es))
        (sent_closed s id m status timeout now h)
      ∙ closed-log s es h
  closed-log s (closed_by_owner ∷ es) h = closed-log (close s) es refl

  move_IsPaired :
      {ks ks' : List Text} (es : List Entry) → ks' ≡ ks → IsPaired ks' es → IsPaired ks es
  move_IsPaired es e p = rw (sym e) p

  -- The entries behind a call
  abbrev Pairs : IpcSession → Option Entry → IpcSession → List Event → Type 0
  Pairs s entry t es = IsPaired (pending_ids s.pending_requests) (put entry (log t es))

  Arrival-Pairs :
      (s : IpcSession) (es : List Event) (r : IpcSession × ReceiveResult)
      → Arrival s r
      → IsPaired (pending_ids r.0.pending_requests) (log r.0 es)
      → Pairs s (entry_of r.1.received) r.0 es
  unfolding IsPaired
  Arrival-Pairs s es r (inl (received, c)) p = rw (received, closed-log r.0 es c) tt
  Arrival-Pairs s es r (inr (m, received, (ids, known))) p =
      rw received (known, move_IsPaired (log r.0 es) ids p)

  Tracks-Pairs :
      (s : IpcSession) (id : Text) (es : List Event) (r : IpcSession × Bool)
      → Tracks s id r
      → IsPaired (pending_ids r.0.pending_requests) (log r.0 es)
      → Pairs s (if r.1 then some (opened id) else none) r.0 es
  unfolding IsPaired
  Tracks-Pairs s id es r (inl (sent, ids, new)) p = rw sent (new, move_IsPaired (log r.0 es) ids p)
  Tracks-Pairs s id es r (inr (sent, inl ids)) p = rw sent (move_IsPaired (log r.0 es) ids p)
  Tracks-Pairs s id es r (inr (sent, inr c)) p = rw (sent, closed-log r.0 es c) tt

  Waits-Pairs :
      (s : IpcSession) (es : List Event) (r : IpcSession × Bool)
      → Waits s r
      → IsPaired (pending_ids r.0.pending_requests) (log r.0 es)
      → IsPaired (pending_ids s.pending_requests) (log r.0 es)
  unfolding IsPaired
  Waits-Pairs s es r (inl ids) p = move_IsPaired (log r.0 es) (ap pending_ids ids) p
  Waits-Pairs s es r (inr (c, f)) p = rw (closed-log r.0 es c) tt

  frame-Pairs :
      (s : IpcSession) (o : JsonObject) (ack : WriteStatus) (elapsed : ℕ) (es : List Event)
      → s.closed ≡ false
      → Pairs s
          (entry_of (process_frame qt json s o ack elapsed).1.received)
          (process_frame qt json s o ack elapsed).0
          es
      → IsPaired (pending_ids s.pending_requests) (log s (frame o ack elapsed ∷ es))
  unfolding log seen step
  frame-Pairs s o ack elapsed es h p =
      active_choice (pending_ids s.pending_requests) s.closed
        (entry_of (process_frame qt json s o ack elapsed).1.received) (s, none)
        (
          (process_frame qt json s o ack elapsed).0,
          (process_frame qt json s o ack elapsed).1.received,
        )
        es h p

  log-IsPaired :
      (s : IpcSession) (es : List Event) → IsPaired (pending_ids s.pending_requests) (log s es)
  unfolding log seen step IsPaired send close
  log-IsPaired s [] = tt
  log-IsPaired s (frame o ack elapsed ∷ es) =
      let next = process_frame qt json s o ack elapsed in
      let later =
        Arrival-Pairs s es next (process-Arrival qt json s o ack elapsed)
          (log-IsPaired next.0 es) in
      elim (Bool-cases s.closed) [
        | inl c ↦ rw (closed-log s (frame o ack elapsed ∷ es) c) tt
        | inr c ↦ frame-Pairs s o ack elapsed es c later
      ]
  log-IsPaired s (message_sent m status ∷ es) =
      let next = send qt json s m status in
      Waits-Pairs s es next (send_internal-Waits qt json s m status false) (log-IsPaired next.0 es)
  log-IsPaired s (tracked_sent id m status timeout now ∷ es) =
      let next = send_tracked qt json s id m status timeout now in
      Tracks-Pairs s id es next (send_tracked-Tracks qt json s id m status timeout now)
        (log-IsPaired next.0 es)
  log-IsPaired s (closed_by_owner ∷ es) = rw (closed-log (close s) es refl) tt

  -- Over its whole life, whatever frames come and whatever is sent, a session delivers a response
  -- only to a request that it sent before under that id and to which it has delivered none, and it
  -- sends no request under an id that still waits.
  pub log-create-IsPaired :
      (transport_valid : Bool) (role : IpcRole) (nonce identity : Text) (es : List Event)
      → IsPaired [] (log (create transport_valid role nonce identity) es)
  unfolding create pending_ids
  log-create-IsPaired transport_valid role nonce identity es =
      log-IsPaired (create transport_valid role nonce identity) es
