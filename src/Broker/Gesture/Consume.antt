-- ===== src/Broker/Gesture/Consume.antt =====
-- When `consume` succeeds, and what it leaves.
use q_browser.Base.{
  ℕ, ◌+◌, Bool, true, false, not, ◌&&◌, none, some, ◌≡◌, refl, arith, leb, ltb, Option-cases, inl,
  inr,
}
use q_browser.Base.Int.{ℤ, pos_part}
use q_browser.Base.Text.{Text, text_eq, text_eq_iff, nat_eq, text_key}
use q_browser.Base.Assoc.{
  lookup, insert, remove, AllValues-lookup, lookup-insert, lookup-remove, lookup-keep,
  lookup-map_values,
}
use q_browser.Broker.Gesture.{
  GrantRecord, SessionState, UserGestureSharedState, UserGestureSession, UserGestureGrant, refers,
  purge_session, purge_expired, issue_found, issue_locked, issue, consume_session, consume,
}
use q_browser.Broker.Gesture.Invariant.{
  IsValid, IsValidSession, purge_expired-IsValid, consume-IsValid, issue-IsValid,
}

-- The session is open for the application and holds the grant, for the request and not expired.
abbrev pub holds : UserGestureSharedState → UserGestureGrant → Text → Text → ℕ → Bool
holds st g app r now = elim (lookup g.session_id st.sessions) [
  | none ↦ false
  | some s ↦ text_eq s.app_identity app && (elim (lookup g.grant_id s.active) [
    | none ↦ false
    | some granted ↦ text_eq granted.request_id r && ltb now granted.expires_at
  ])
]

-- The purge in front of `consume` does not change what the session holds.
holds-purge :
    (st : UserGestureSharedState) (g : UserGestureGrant) (app r : Text) (now : ℕ)
    → IsValid st
    → holds (purge_expired st now) g app r now ≡ holds st g app r now
unfolding purge_expired purge_session
holds-purge st g app r now v = elim (Option-cases (lookup g.session_id st.sessions)) [
  | inl e ↦ ground (arith, lookup-map_values (purge_session now) g.session_id st.sessions)
  | inr (s, e) ↦
      let valid = AllValues-lookup IsValidSession g.session_id st.sessions v.sessions_valid e in
      ground (
        arith,
        lookup-map_values (purge_session now) g.session_id st.sessions,
        lookup-keep (λ x. not (leb x.expires_at now)) g.grant_id s.active valid.active_keys,
      )
]

accepting-purge :
    (st : UserGestureSharedState) (now : ℕ) → (purge_expired st now).accepting ≡ st.accepting
unfolding purge_expired
accepting-purge st now = refl

consume_purged :
    (st : UserGestureSharedState) (g : UserGestureGrant) (app r : Text) (now : ℕ)
    → (consume st g app r now).2 ≡ (
        refers g.state st
        && g.active
        && text_eq g.app_identity app
        && text_eq g.request_id r
        && st.accepting
        && holds (purge_expired st now) g app r now)
unfolding consume consume_session
consume_purged st g app r now = ground (arith, accepting-purge st now)

-- In a store that satisfies the invariant `consume` succeeds exactly when the handle is live, of this store and for this application and
-- request, the store accepts, and the session of the handle is open for the application and holds
-- the grant for that request, not yet expired.
pub consume_exact :
    (st : UserGestureSharedState) (g : UserGestureGrant) (app r : Text) (now : ℕ)
    → IsValid st
    → (consume st g app r now).2 ≡ (
        refers g.state st
        && g.active
        && text_eq g.app_identity app
        && text_eq g.request_id r
        && st.accepting
        && holds st g app r now)
consume_exact st g app r now v =
    ground (arith, consume_purged st g app r now, holds-purge st g app r now v)

-- After `consume` has succeeded the session holds the grant no more.
consume-holds :
    (st : UserGestureSharedState) (g h : UserGestureGrant) (app r app' r' : Text) (now later : ℕ)
    → IsValid st
    → (consume st g app r now).2 ≡ true
    → h.session_id ≡ g.session_id
    → h.grant_id ≡ g.grant_id
    → holds (consume st g app r now).0 h app' r' later ≡ false
unfolding consume consume_session
consume-holds st g h app r app' r' now later v done e f =
    let p = purge_expired st now in
    let v' = purge_expired-IsValid st now v in
    elim (Option-cases (lookup g.session_id p.sessions)) [
      | inl n ↦ ground arith
      | inr (s, n) ↦
          let valid = AllValues-lookup IsValidSession g.session_id p.sessions v'.sessions_valid n in
          let spent : SessionState = record s {
            active = remove g.grant_id s.active;
            used = insert r (now + 60000) s.used;
          } in
          ground (
            arith,
            lookup-insert g.session_id h.session_id spent p.sessions,
            lookup-remove g.grant_id h.grant_id s.active valid.active_keys,
          )
    ]

-- A grant serves once, in a store that satisfies the invariant: after it has been consumed, no handle with its number in its session, not
-- even a copy that counts as live, is accepted, for any application and request.
pub consume_once :
    (st : UserGestureSharedState) (g h : UserGestureGrant) (app r app' r' : Text) (now later : ℕ)
    → IsValid st
    → (consume st g app r now).2 ≡ true
    → h.session_id ≡ g.session_id
    → h.grant_id ≡ g.grant_id
    → (consume (consume st g app r now).0 h app' r' later).2 ≡ false
consume_once st g h app r app' r' now later v done e f =
    let st' = (consume st g app r now).0 in
    ground (
      arith,
      consume_exact st' h app' r' later (consume-IsValid st g app r now v),
      consume-holds st g h app r app' r' now later v done e f,
    )

-- What a successful `issue` hands out is in the session.
issue-holds :
    (st : UserGestureSharedState) (s : UserGestureSession) (r : Text) (life : ℤ) (now later : ℕ)
    {g : UserGestureGrant}
    → (issue st s r life now).1 ≡ some g
    → (refers g.state (issue st s r life now).0 ≡ true)
      × (g.active ≡ true)
      × (g.request_id ≡ r)
      × ((issue st s r life now).0.accepting ≡ true)
      × (holds (issue st s r life now).0 g g.app_identity r later ≡ ltb later (now + pos_part life))
unfolding issue issue_locked issue_found
issue-holds st s r life now later {g} h =
    let p = purge_expired st now in
    elim (Option-cases (lookup s.session_id p.sessions)) [
      | inl n ↦ ground arith
      | inr (found, n) ↦
          let granted : GrantRecord = record { request_id = r; expires_at = now + pos_part life } in
          let more : SessionState = record found {
            active = insert p.next_grant_id granted found.active;
          } in
          ground (
            arith,
            lookup-insert s.session_id s.session_id more p.sessions,
            lookup-insert p.next_grant_id p.next_grant_id granted found.active,
            text_eq_iff r r,
            text_eq_iff found.app_identity found.app_identity,
          )
    ]

-- A grant that was issued in a store that satisfies the invariant can be consumed next, for its
-- application and request, until its lifetime has passed, and not from then on.
pub consume-issue :
    (st : UserGestureSharedState) (s : UserGestureSession) (r : Text) (life : ℤ) (now later : ℕ)
    {g : UserGestureGrant}
    → IsValid st
    → (issue st s r life now).1 ≡ some g
    → (consume (issue st s r life now).0 g g.app_identity r later).2
      ≡ ltb later (now + pos_part life)
consume-issue st s r life now later {g} v h = ground (
  arith,
  consume_exact (issue st s r life now).0 g g.app_identity r later
      (issue-IsValid st s r life now v),
  issue-holds st s r life now later h,
  text_eq_iff g.app_identity g.app_identity,
  text_eq_iff g.request_id r,
)
