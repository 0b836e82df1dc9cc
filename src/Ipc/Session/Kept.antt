-- ===== src/Ipc/Session/Kept.antt =====
-- What sending leaves of a session as it is.
use q_browser.Base.{
  ℕ, ◌+◌, Bool, true, false, Option, ◌∷◌, ◌≡◌, inl, inr, refl, ◌∙◌, leb, length, if_elim,
  option_elim,
}
use q_browser.Base.Text.{Text}
use q_browser.Ipc.Frame.{QtJson, encode}
use q_browser.Ipc.Json.{JsonObject}
use q_browser.Ipc.Payload.{handshake_type, ready_type, QtText, is_empty}
use q_browser.Ipc.Protocol.{ProtocolMessage, parse, to_json}
use q_browser.Ipc.Protocol.Envelope.{ParseResult-cases}
use q_browser.Ipc.Session.{
  WriteStatus, write_ok, write_timed_out, write_peer_closed, write_failed, IpcSession, is_host,
  is_type, close, fail, note_accepted_send, send_refusal, encode_frame, prepare_send, written,
  send_internal, publish, send_tracked, has_pending, maximum_pending_requests,
}

-- What sending leaves as it is
abbrev pub Kept : IpcSession → IpcSession → Type 0
Kept s t =
    (t.role ≡ s.role)
    × (t.nonce ≡ s.nonce)
    × (t.authenticated ≡ s.authenticated)
    × (t.received_request_ids ≡ s.received_request_ids)
    × (s.closed ≡ true → t.closed ≡ true)

abbrev KeptPair {ℓ} : {A : Type ℓ} → IpcSession → IpcSession × A → Type 0
KeptPair s r = Kept s r.0

same : (s : IpcSession) → Kept s s
same s = (refl, refl, refl, refl, λ h. h)

module _ (qt : QtText) (json : QtJson JsonObject) where
  note-Kept : (s : IpcSession) (m : ProtocolMessage) → Kept s (note_accepted_send s m)
  unfolding note_accepted_send
  note-Kept s m =
      if_elim (λ t. Kept s t) (is_host s.role) _ _ (λ h. same s)
        λ h.
          if_elim (λ t. Kept s t) (is_type m.message_type handshake_type) _ _ (λ h. same s)
            λ h.
              if_elim (λ t. Kept s t) (is_type m.message_type ready_type) _ _ (λ h. same s)
                λ h. same s

  encode_frame-Kept : (s : IpcSession) (m : ProtocolMessage) → Kept s (encode_frame qt json s m).0
  unfolding encode_frame
  encode_frame-Kept s m = elim (ParseResult-cases (parse qt (to_json m))) [
    | inr (x, code, e) ↦ rw (encode_frame, e) (same s)
    | inl (n, e) ↦
        rw (encode_frame, e)
          (if_elim (KeptPair s) (is_empty (encode json (to_json m))) _ _ (λ h. same s) λ h. same s)
  ]

  prepare_send-Kept :
      (s : IpcSession) (m : ProtocolMessage) (allow : Bool)
      → Kept s (prepare_send qt json s m allow).0
  unfolding prepare_send
  prepare_send-Kept s m allow =
      if_elim (KeptPair s) s.closed _ _ (λ h. same s)
        λ h.
          option_elim (KeptPair s) (send_refusal s m allow) _ _ (λ e. encode_frame-Kept s m)
            λ code e. same s

  written-Kept :
      (s t : IpcSession) (m : ProtocolMessage) (status : WriteStatus)
      → Kept s t
      → Kept s (written qt json t m status).0
  unfolding fail close
  written-Kept s t m write_ok (a, b, c, d, e) =
      let (a', b', c', d', e') = note-Kept t m in (a' ∙ a, b' ∙ b, c' ∙ c, d' ∙ d, λ h. e' (e h))
  written-Kept s t m write_timed_out (a, b, c, d, e) = (a, b, c, d, λ h. refl)
  written-Kept s t m write_peer_closed (a, b, c, d, e) = (a, b, c, d, λ h. refl)
  written-Kept s t m write_failed (a, b, c, d, e) = (a, b, c, d, λ h. refl)

  pub send_internal-Kept :
      (s : IpcSession) (m : ProtocolMessage) (status : WriteStatus) (allow : Bool)
      → Kept s (send_internal qt json s m status allow).0
  unfolding send_internal
  send_internal-Kept s m status allow =
      let kept = prepare_send-Kept s m allow in
      option_elim (KeptPair s) (prepare_send qt json s m allow).1 _ _ (λ e. kept)
        λ bytes e. written-Kept s (prepare_send qt json s m allow).0 m status kept

  publish-Kept :
      (s : IpcSession) (id : Text) (deadline : ℕ) (r : IpcSession × Bool)
      → Kept s r.0
      → Kept s (publish qt json s id deadline r).0
  publish-Kept s id deadline (t, true) k = k
  publish-Kept s id deadline (t, false) k = k

  pub send_tracked-Kept :
      (s : IpcSession) (id : Text) (m : Option ProtocolMessage) (status : WriteStatus)
      (timeout now : ℕ)
      → Kept s (send_tracked qt json s id m status timeout now).0
  unfolding send_tracked
  send_tracked-Kept s id m status timeout now =
      if_elim (KeptPair s) s.closed _ _ (λ h. same s)
        λ h.
          if_elim (KeptPair s) (has_pending s.pending_requests id) _ _ (λ h. same s)
            λ h.
              if_elim (KeptPair s) (leb maximum_pending_requests (length s.pending_requests)) _ _
                (λ h. same s)
                λ h.
                  option_elim (KeptPair s) m _ _ (λ e. same s)
                    λ m' e.
                      publish-Kept s id (now + timeout)
                        (send_internal qt json
                          (record s {
                            pending_requests =
                                record { request_id = id; deadline_ms = 0 } ∷ s.pending_requests;
                          })
                          m' status true)
                        (send_internal-Kept
                          (record s {
                            pending_requests =
                                record { request_id = id; deadline_ms = 0 } ∷ s.pending_requests;
                          })
                          m' status true)
