-- ===== src/Ipc/Session/Arrival.antt =====
-- What a frame and a tracked call do with the requests that wait.
use q_browser.Base.{
  ℕ, ◌+◌, Bool, true, false, not, ◌||◌, Option, none, some, List, ◌∷◌, ◌≡◌, ◌⊎◌, inl, inr, refl,
  sym, ap, ◌∙◌, arith, leb, if◌then◌else◌, length, if_elim, option_elim,
}
use q_browser.Base.Text.{Text, text_eq_iff}
use q_browser.Ipc.Frame.{QtJson}
use q_browser.Ipc.Json.{JsonObject, in_set}
use q_browser.Ipc.Payload.{ProtocolType, response_type, QtText}
use q_browser.Ipc.Protocol.{ProtocolMessage, parse}
use q_browser.Ipc.Protocol.Envelope.{ParseResult-cases}
use q_browser.Ipc.Session.{
  SessionStatus, session_failed, WriteStatus, ReceiveResult, IpcSession, PendingRequest, is_tracked,
  is_type, close, fail, send_internal, Admission, refused, admitted, type_refusal, note_ready,
  note_request, accept, finish, maximum_remembered_request_ids, admit, process_frame, publish,
  send_tracked, has_pending, remove_pending, maximum_pending_requests,
}
use q_browser.Ipc.Session.Waits.{
  pending_ids, remove_text, has_pending-in_set, remove_pending-remove_text, remove_text-absent,
  AdmitsSame, send_internal-Waits, admit-AdmitsSame,
}

-- A frame closes the session, or answers at most one request.
abbrev pub after_arrival : List Text → ProtocolMessage → List Text
after_arrival ids m =
    if is_type m.message_type response_type then remove_text ids m.request_id else ids

abbrev pub Answers : IpcSession → ProtocolMessage → IpcSession → Type 0
Answers s m t =
    (pending_ids t.pending_requests ≡ after_arrival (pending_ids s.pending_requests) m)
    × ((not (is_type m.message_type response_type)
          || in_set (pending_ids s.pending_requests) m.request_id)
        ≡ true)

abbrev pub Arrival : IpcSession → IpcSession × ReceiveResult → Type 0
Arrival s r =
    ((r.1.received ≡ none) × (r.0.closed ≡ true))
    ⊎ ((m : ProtocolMessage) × (r.1.received ≡ some m) × Answers s m r.0)

abbrev Notes : IpcSession → ProtocolMessage → Admission → Type 0
Notes t m (refused u code) = Unit
Notes t m (admitted u b) = Answers t m u

tracked_no_response : (t : ProtocolType) → is_tracked t ≡ true → is_type t response_type ≡ false
unfolding is_tracked is_type
tracked_no_response response_type h = absurd (ground arith)
tracked_no_response _ h = refl

note_request-Notes : (t : IpcSession) (m : ProtocolMessage) → Notes t m (note_request t m)
unfolding note_request
note_request-Notes t m =
    if_elim (Notes t m) (is_tracked m.message_type) _ _
      (λ h.
        let other = tracked_no_response m.message_type h in
        if_elim (Notes t m) (in_set t.received_request_ids m.request_id) _ _ (λ g. tt)
          λ g.
            if_elim (Notes t m) (leb maximum_remembered_request_ids (length t.received_request_ids))
              _ _ (λ f. tt) λ f. (ground arith, ground arith))
      λ h.
        if_elim (Notes t m) (is_type m.message_type response_type) _ _
          (λ g.
            let same = has_pending-in_set t.pending_requests m.request_id in
            let removed = remove_pending-remove_text t.pending_requests m.request_id in
            if_elim (Notes t m) (has_pending t.pending_requests m.request_id) _ _
              (λ f. (ground arith, ground arith)) λ f. tt)
          λ g. (ground arith, ground arith)

ready-waits :
    (t : IpcSession) (m : ProtocolMessage) → (note_ready t m).pending_requests ≡ t.pending_requests
unfolding note_ready
ready-waits t m = ground arith

fail-Arrival :
    (s t : IpcSession) (status : SessionStatus) (code : Text) → Arrival s (fail t status code)
unfolding fail close
fail-Arrival s t status code = inl (refl, refl)

accept-Arrival :
    (s t : IpcSession) (m : ProtocolMessage) (elapsed : ℕ) (a : Admission)
    → t.pending_requests ≡ s.pending_requests
    → Notes (note_ready t m) m a
    → Arrival s (accept elapsed m a)
accept-Arrival s t m elapsed (refused u code) e n = fail-Arrival s u session_failed code
accept-Arrival s t m elapsed (admitted u b) e (ids, known) =
    let same = ap pending_ids (ready-waits t m ∙ e) in
    inr (
      m,
      refl,
      (
        ids ∙ ap (λ ks. after_arrival ks m) same,
        sym (ap (λ ks. not (is_type m.message_type response_type) || in_set ks m.request_id) same)
            ∙ known,
      ),
    )

-- The requests behind a tracked call
abbrev pub Tracks : IpcSession → Text → IpcSession × Bool → Type 0
Tracks s id r =
    ((r.1 ≡ true)
      × (pending_ids r.0.pending_requests ≡ id ∷ pending_ids s.pending_requests)
      × (in_set (pending_ids s.pending_requests) id ≡ false))
    ⊎ ((r.1 ≡ false)
        × ((pending_ids r.0.pending_requests ≡ pending_ids s.pending_requests)
            ⊎ (r.0.closed ≡ true)))

module _ (qt : QtText) (json : QtJson JsonObject) where
  finish-Arrival :
      (s : IpcSession) (m : ProtocolMessage) (elapsed : ℕ) (a : Admission)
      → AdmitsSame s a
      → Arrival s (finish elapsed m a)
  finish-Arrival s m elapsed (refused t code) x = fail-Arrival s t session_failed code
  finish-Arrival s m elapsed (admitted t b) x =
      option_elim (Arrival s) (type_refusal t m b) _ _
        (λ n.
          accept-Arrival s t m elapsed (note_request (note_ready t m) m) x
            (note_request-Notes (note_ready t m) m))
        λ code n. fail-Arrival s t session_failed code

  pub process-Arrival :
      (s : IpcSession) (o : JsonObject) (ack : WriteStatus) (elapsed : ℕ)
      → Arrival s (process_frame qt json s o ack elapsed)
  unfolding process_frame
  process-Arrival s o ack elapsed = elim (ParseResult-cases (parse qt o)) [
    | inl (m, e) ↦
        rw (process_frame, e)
          (finish-Arrival s m elapsed (admit qt json s m ack) (admit-AdmitsSame qt json s m ack))
    | inr (x, code, e) ↦ rw (process_frame, e) (fail-Arrival s s session_failed code)
  ]

  removed-new :
      (ps : List PendingRequest) (id : Text) (deadline : ℕ)
      → has_pending ps id ≡ false
      → pending_ids (remove_pending (record { request_id = id; deadline_ms = deadline } ∷ ps) id)
        ≡ pending_ids ps
  unfolding pending_ids remove_text
  removed-new ps id deadline h =
      let fresh : in_set (pending_ids ps) id ≡ false = sym (has_pending-in_set ps id) ∙ h in
      remove_pending-remove_text (record { request_id = id; deadline_ms = deadline } ∷ ps) id
      ∙ ground (arith, remove_text-absent (pending_ids ps) id, text_eq_iff id id)

  publish-Tracks :
      (s : IpcSession) (id : Text) (deadline : ℕ) (r : IpcSession × Bool)
      → has_pending s.pending_requests id ≡ false
      → (r.0.pending_requests ≡ record { request_id = id; deadline_ms = 0 } ∷ s.pending_requests)
        ⊎ ((r.0.closed ≡ true) × (r.1 ≡ false))
      → Tracks s id (publish qt json s id deadline r)
  unfolding pending_ids
  publish-Tracks s id deadline (t, true) h (inl e) = inl (
    refl,
    ap (λ ks. id ∷ ks)
        (ap (λ ps. pending_ids (remove_pending ps id)) e ∙ removed-new s.pending_requests id 0 h),
    sym (has_pending-in_set s.pending_requests id) ∙ h,
  )
  publish-Tracks s id deadline (t, true) h (inr (c, f)) = absurd (ground arith)
  publish-Tracks s id deadline (t, false) h (inl e) = inr (
    refl,
    inl (ap (λ ps. pending_ids (remove_pending ps id)) e ∙ removed-new s.pending_requests id 0 h),
  )
  publish-Tracks s id deadline (t, false) h (inr (c, f)) = inr (refl, inr c)

  pub send_tracked-Tracks :
      (s : IpcSession) (id : Text) (m : Option ProtocolMessage) (status : WriteStatus)
      (timeout now : ℕ)
      → Tracks s id (send_tracked qt json s id m status timeout now)
  unfolding send_tracked
  send_tracked-Tracks s id m status timeout now =
      if_elim (Tracks s id) s.closed _ _ (λ h. inr (refl, inl refl))
        λ h.
          if_elim (Tracks s id) (has_pending s.pending_requests id) _ _ (λ g. inr (refl, inl refl))
            λ g.
              if_elim (Tracks s id) (leb maximum_pending_requests (length s.pending_requests)) _ _
                (λ f. inr (refl, inl refl))
                λ f.
                  option_elim (Tracks s id) m _ _ (λ e. inr (refl, inl refl))
                    λ m' e.
                      let reserved : IpcSession = record s {
                        pending_requests =
                            record { request_id = id; deadline_ms = 0 } ∷ s.pending_requests;
                      } in
                      publish-Tracks s id (now + timeout)
                        (send_internal qt json reserved m' status true) g
                        (send_internal-Waits qt json reserved m' status true)
