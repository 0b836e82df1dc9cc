-- ===== src/Ipc/Session/Waits.antt =====
-- The requests of a session that wait for a response.
use q_browser.Base.{
  Bool, true, false, not, ◌||◌, Option, List, [], ◌∷◌, ◌≡◌, ◌⊎◌, inl, inr, refl, ◌∙◌, arith,
  if◌then◌else◌, if_elim, option_elim,
}
use q_browser.Base.Text.{Text, codes, text_eq}
use q_browser.Ipc.Frame.{QtJson, encode}
use q_browser.Ipc.Json.{JsonObject, in_set, value, to_string}
use q_browser.Ipc.Payload.{handshake_type, handshake_ack_type, QtText, is_empty}
use q_browser.Ipc.Protocol.{ProtocolMessage, parse, to_json, handshake_ack}
use q_browser.Ipc.Protocol.Envelope.{ParseResult-cases}
use q_browser.Ipc.Session.{
  WriteStatus, write_ok, write_timed_out, write_peer_closed, write_failed, IpcSession,
  PendingRequest, is_type, close, fail, note_accepted_send, send_refusal, encode_frame,
  prepare_send, written, send_internal, send, Admission, refused, admitted, admit_worker,
  admit_authenticated, acknowledge, acknowledgement_code, is_host, admit_host, admit, has_pending,
  remove_pending,
}

-- The ids of the requests that wait for a response
unfoldable pub pending_ids : List PendingRequest → List Text
pending_ids [] = []
pending_ids (p ∷ ps) = p.request_id ∷ pending_ids ps

unfoldable pub remove_text : List Text → Text → List Text
remove_text [] id = []
remove_text (k ∷ ks) id = let rest = remove_text ks id in if text_eq k id then rest else k ∷ rest

pub has_pending-in_set :
    (ps : List PendingRequest) (id : Text) → has_pending ps id ≡ in_set (pending_ids ps) id
unfolding has_pending pending_ids in_set
has_pending-in_set [] id = refl
has_pending-in_set (p ∷ ps) id = ground (arith, has_pending-in_set ps id)

pub remove_pending-remove_text :
    (ps : List PendingRequest) (id : Text)
    → pending_ids (remove_pending ps id) ≡ remove_text (pending_ids ps) id
unfolding remove_pending pending_ids remove_text
remove_pending-remove_text [] id = refl
remove_pending-remove_text (p ∷ ps) id = ground (arith, remove_pending-remove_text ps id)

pub remove_text-absent :
    (ks : List Text) (id : Text) → in_set ks id ≡ false → remove_text ks id ≡ ks
unfolding remove_text in_set
remove_text-absent [] id h = refl
remove_text-absent (k ∷ ks) id h = ground (arith, remove_text-absent ks id)

-- What is known of the requests behind a call: the same wait, or the session is closed
abbrev pub Waits : IpcSession → IpcSession × Bool → Type 0
Waits s r = (r.0.pending_requests ≡ s.pending_requests) ⊎ ((r.0.closed ≡ true) × (r.1 ≡ false))

note-waits :
    (s : IpcSession) (m : ProtocolMessage)
    → (note_accepted_send s m).pending_requests ≡ s.pending_requests
unfolding note_accepted_send
note-waits s m = ground arith

-- An admitted message leaves the requests as they are.
abbrev pub AdmitsSame : IpcSession → Admission → Type 0
AdmitsSame s (refused t code) = Unit
AdmitsSame s (admitted t b) = t.pending_requests ≡ s.pending_requests

module _ (qt : QtText) (json : QtJson JsonObject) where
  abbrev SameWait : IpcSession → IpcSession × Option Text → Type 0
  SameWait s r = r.0.pending_requests ≡ s.pending_requests

  encode_frame-SameWait :
      (s : IpcSession) (m : ProtocolMessage) → SameWait s (encode_frame qt json s m)
  unfolding encode_frame
  encode_frame-SameWait s m = elim (ParseResult-cases (parse qt (to_json m))) [
    | inr (x, code, e) ↦ rw (encode_frame, e) refl
    | inl (n, e) ↦
        rw (encode_frame, e)
          (if_elim (SameWait s) (is_empty (encode json (to_json m))) _ _ (λ h. refl) λ h. refl)
  ]

  prepare_send-SameWait :
      (s : IpcSession) (m : ProtocolMessage) (allow : Bool)
      → SameWait s (prepare_send qt json s m allow)
  unfolding prepare_send
  prepare_send-SameWait s m allow =
      if_elim (SameWait s) s.closed _ _ (λ h. refl)
        λ h.
          option_elim (SameWait s) (send_refusal s m allow) _ _ (λ e. encode_frame-SameWait s m)
            λ code e. refl

  written-Waits :
      (s t : IpcSession) (m : ProtocolMessage) (status : WriteStatus)
      → t.pending_requests ≡ s.pending_requests
      → Waits s (written qt json t m status)
  unfolding fail close
  written-Waits s t m write_ok h = inl (note-waits t m ∙ h)
  written-Waits s t m write_timed_out h = inr (refl, refl)
  written-Waits s t m write_peer_closed h = inr (refl, refl)
  written-Waits s t m write_failed h = inr (refl, refl)

  pub send_internal-Waits :
      (s : IpcSession) (m : ProtocolMessage) (status : WriteStatus) (allow : Bool)
      → Waits s (send_internal qt json s m status allow)
  unfolding send_internal
  send_internal-Waits s m status allow =
      let kept = prepare_send-SameWait s m allow in
      option_elim (Waits s) (prepare_send qt json s m allow).1 _ _ (λ e. inl kept)
        λ bytes e. written-Waits s (prepare_send qt json s m allow).0 m status kept

  acknowledge-AdmitsSame :
      (s : IpcSession) (ack : WriteStatus) → AdmitsSame s (acknowledge qt json s ack)
  unfolding acknowledge send
  acknowledge-AdmitsSame s ack =
      option_elim (AdmitsSame s) (handshake_ack qt s.nonce s.app_identity) _ _ (λ e. tt)
        λ n e.
          let sent = send qt json s n ack in
          if_elim (AdmitsSame s) sent.1 (admitted sent.0 true)
            (refused sent.0 (acknowledgement_code sent.0))
            (λ g. elim (send_internal-Waits s n ack false) [
              | inl h ↦ h
              | inr (c, f) ↦ absurd (ground arith)
            ])
            λ g. tt

  authenticated-AdmitsSame :
      (s : IpcSession) (m : ProtocolMessage) → AdmitsSame s (admit_authenticated s m)
  unfolding admit_authenticated
  authenticated-AdmitsSame s m =
      if_elim (AdmitsSame s)
        (is_type m.message_type handshake_type || is_type m.message_type handshake_ack_type) _ _
        (λ g. tt) λ g. refl

  worker-AdmitsSame : (s : IpcSession) (m : ProtocolMessage) → AdmitsSame s (admit_worker s m)
  unfolding admit_worker
  worker-AdmitsSame s m =
      if_elim (AdmitsSame s)
        (not (is_type m.message_type handshake_ack_type) || is_empty s.outbound_nonce) _ _ (λ h. tt)
        λ h.
          if_elim (AdmitsSame s)
            (not (text_eq (to_string (value m.payload (codes "nonce"))) s.outbound_nonce)) _ _
            (λ g. tt) λ g. refl

  host-AdmitsSame :
      (s : IpcSession) (m : ProtocolMessage) (ack : WriteStatus)
      → AdmitsSame s (admit_host qt json s m ack)
  unfolding admit_host
  host-AdmitsSame s m ack =
      if_elim (AdmitsSame s) (not (is_type m.message_type handshake_type)) _ _ (λ h. tt)
        λ h.
          if_elim (AdmitsSame s)
            (not (text_eq (to_string (value m.payload (codes "nonce"))) s.nonce)) _ _ (λ g. tt)
            λ g. acknowledge-AdmitsSame (record s { authenticated = true }) ack

  pub admit-AdmitsSame :
      (s : IpcSession) (m : ProtocolMessage) (ack : WriteStatus)
      → AdmitsSame s (admit qt json s m ack)
  unfolding admit
  admit-AdmitsSame s m ack =
      if_elim (AdmitsSame s) s.authenticated _ _ (λ h. authenticated-AdmitsSame s m)
        λ h.
          if_elim (AdmitsSame s) (is_host s.role) _ _ (λ g. host-AdmitsSame s m ack)
            λ g. worker-AdmitsSame s m
