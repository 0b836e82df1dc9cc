-- ===== src/Ipc/Session/Admitted.antt =====
-- What a session delivers over its whole life.
use q_browser.Base.{
  ℕ, Bool, true, false, Option, none, some, List, [], ◌∷◌, ◌≡◌, inl, inr, refl, sym, arith,
  if◌then◌else◌, if_elim,
}
use q_browser.Base.Text.{Text}
use q_browser.Ipc.Frame.{QtJson}
use q_browser.Ipc.Json.{JsonObject}
use q_browser.Ipc.Payload.{QtText}
use q_browser.Ipc.Protocol.{ProtocolMessage}
use q_browser.Ipc.Session.{
  IpcRole, WriteStatus, ReceiveResult, IpcSession, create, close, send, process_frame, send_tracked,
}
use q_browser.Ipc.Session.Kept.{Kept, send_internal-Kept, send_tracked-Kept}
use q_browser.Ipc.Session.Outcome.{
  authenticates, is_regular, is_new, remember, Outcome, process-Outcome,
}

-- A call on a session
pub data Event : Type 0 where
  frame : JsonObject → WriteStatus → ℕ → Event
  message_sent : ProtocolMessage → WriteStatus → Event
  tracked_sent : Text → Option ProtocolMessage → WriteStatus → ℕ → ℕ → Event
  closed_by_owner : Event

-- The messages of a session in their order: the first authenticates the peer, all others are
-- regular, and no request has the id of an earlier one.
unfoldable pub IsAdmitted : IpcRole → Text → Bool → List Text → List ProtocolMessage → Type 0
IsAdmitted role nonce known ids [] = Unit
IsAdmitted role nonce known ids (m ∷ ms) =
    ((if known then is_regular role m else authenticates role nonce m) ≡ true)
    × (is_new ids m ≡ true)
    × IsAdmitted role nonce true (remember ids m) ms

move_IsAdmitted :
    {role role' : IpcRole} {nonce nonce' : Text} {known known' : Bool} {ids ids' : List Text}
    (ms : List ProtocolMessage)
    → role' ≡ role
    → nonce' ≡ nonce
    → known' ≡ known
    → ids' ≡ ids
    → IsAdmitted role' nonce' known' ids' ms
    → IsAdmitted role nonce known ids ms
move_IsAdmitted ms a b c d h = rw (sym a, sym b, sym c, sym d) h

module _ (qt : QtText) (json : QtJson JsonObject) where
  -- A closed session reads nothing.
  unfoldable pub step : IpcSession → Event → IpcSession × Option ProtocolMessage
  step s (frame o ack elapsed) = if s.closed then (s, none) else (
    (process_frame qt json s o ack elapsed).0,
    (process_frame qt json s o ack elapsed).1.received,
  )
  step s (message_sent m status) = ((send qt json s m status).0, none)
  step s (tracked_sent id m status timeout now) =
      ((send_tracked qt json s id m status timeout now).0, none)
  step s closed_by_owner = (close s, none)

  abbrev pub deliver : Option ProtocolMessage → List ProtocolMessage → List ProtocolMessage
  deliver none ms = ms
  deliver (some m) ms = m ∷ ms

  unfoldable pub delivered : IpcSession → List Event → List ProtocolMessage
  delivered s [] = []
  delivered s (e ∷ es) = let next = step s e in deliver next.1 (delivered next.0 es)

  abbrev IsSilent : List Event → IpcSession × Option ProtocolMessage → Type 0
  IsSilent es r = deliver r.1 (delivered r.0 es) ≡ []

  closed-delivered : (s : IpcSession) (es : List Event) → s.closed ≡ true → delivered s es ≡ []
  unfolding delivered step close send
  closed-delivered s [] h = refl
  closed-delivered s (frame o ack elapsed ∷ es) h =
      let rest = closed-delivered s es h in
      if_elim (IsSilent es) s.closed _ _ (λ g. rest) λ g. absurd (ground arith)
  closed-delivered s (message_sent m status ∷ es) h =
      let (_, _, _, _, c) = send_internal-Kept qt json s m status false in
      closed-delivered (send qt json s m status).0 es (c h)
  closed-delivered s (tracked_sent id m status timeout now ∷ es) h =
      let (_, _, _, _, c) = send_tracked-Kept qt json s id m status timeout now in
      closed-delivered (send_tracked qt json s id m status timeout now).0 es (c h)
  closed-delivered s (closed_by_owner ∷ es) h = closed-delivered (close s) es refl

  -- The state of a session goes with what it still delivers.
  abbrev Goes : IpcSession → List ProtocolMessage → Type 0
  Goes s ms = IsAdmitted s.role s.nonce s.authenticated s.received_request_ids ms

  abbrev GoesOn : IpcSession → List Event → IpcSession × Option ProtocolMessage → Type 0
  GoesOn s es r = Goes s (deliver r.1 (delivered r.0 es))

  Kept-Goes : (s t : IpcSession) (ms : List ProtocolMessage) → Kept s t → Goes t ms → Goes s ms
  Kept-Goes s t ms (role, nonce, known, ids, c) g = move_IsAdmitted ms role nonce known ids g

  outcome-GoesOn :
      (s : IpcSession) (es : List Event) (r : IpcSession × ReceiveResult)
      → Outcome s r
      → Goes r.0 (delivered r.0 es)
      → GoesOn s es (r.0, r.1.received)
  unfolding IsAdmitted
  outcome-GoesOn s es r (inl (none_received, c)) g =
      rw (none_received, closed-delivered r.0 es c) tt
  outcome-GoesOn s es r (inr (m, received, (role, nonce, known, ids, ok, new))) g =
      rw received (ok, new, move_IsAdmitted (delivered r.0 es) role nonce known ids g)

  delivered-Goes : (s : IpcSession) (es : List Event) → Goes s (delivered s es)
  unfolding delivered step IsAdmitted send close
  delivered-Goes s [] = tt
  delivered-Goes s (frame o ack elapsed ∷ es) =
      let still = delivered-Goes s es in
      let next = process_frame qt json s o ack elapsed in
      let later = delivered-Goes next.0 es in
      if_elim (GoesOn s es) s.closed _ _ (λ g. still)
        λ g. outcome-GoesOn s es next (process-Outcome qt json s o ack elapsed) later
  delivered-Goes s (message_sent m status ∷ es) =
      let next = (send qt json s m status).0 in
      Kept-Goes s next (delivered next es) (send_internal-Kept qt json s m status false)
        (delivered-Goes next es)
  delivered-Goes s (tracked_sent id m status timeout now ∷ es) =
      let next = (send_tracked qt json s id m status timeout now).0 in
      Kept-Goes s next (delivered next es) (send_tracked-Kept qt json s id m status timeout now)
        (delivered-Goes next es)
  delivered-Goes s (closed_by_owner ∷ es) = delivered-Goes (close s) es

  -- Over its whole life, whatever frames come and whatever is sent, a session delivers first a
  -- message that authenticates the peer, to a host a handshake with the nonce that the worker was
  -- launched with, then only messages of the peer's types that are no handshakes, and never two
  -- requests with one id.
  pub delivered-IsAdmitted :
      (transport_valid : Bool) (role : IpcRole) (nonce identity : Text) (es : List Event)
      → IsAdmitted role nonce false [] (delivered (create transport_valid role nonce identity) es)
  unfolding create
  delivered-IsAdmitted transport_valid role nonce identity es =
      delivered-Goes (create transport_valid role nonce identity) es
