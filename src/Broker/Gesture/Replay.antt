-- ===== src/Broker/Gesture/Replay.antt =====
-- A grant serves once, and its request cannot be granted again while it is remembered.
use q_browser.Base.{
  ℕ, ◌+◌, ◌^◌, ◌≤◌, ◌<◌, Bool, true, false, not, none, some, List, [], ◌∷◌, ◌≡◌, ◌≢◌, refl, arith,
  leb, length, Option-cases, Bool-cases, inl, inr,
}
use q_browser.Base.Int.{ℤ, pos_part}
use q_browser.Base.Text.{Text, text_eq_iff, nat_eq, text_key}
use q_browser.Base.Assoc.{
  lookup, insert, remove, keep, UniqueKeys, lookup-insert, lookup-remove, lookup-keep,
  lookup-map_values, AllValues-lookup,
}
use q_browser.Broker.Gesture.{
  GrantRecord, SessionState, UserGestureSharedState, UserGestureSession, UserGestureGrant,
  remember_expired, purge_session, purge_expired, destroy, open_session, close_session, issue_found,
  issue_locked, issue, try_issue, increment, consume_session, consume, revoke, remember_all,
  revoke_session, revoke_outstanding, Request, open_with, close_with, issue_with, try_issue_with,
  consume_with, revoke_with, revoke_all_with, destroy_with, step, run, replay_window_ms,
}
use q_browser.Broker.Gesture.Invariant.{
  IsValid, IsValidSession, step-IsValid, consume-IsValid, remember_expired-keys,
}

-- The table remembers the request at least until the given time.
abbrev pub remembers : ℕ → Text → List (Text × ℕ) → Bool
remembers until r used = elim (lookup r used) [ none ↦ false | some x ↦ leb until x ]

-- The session, as long as it is open, remembers the request.
abbrev pub remembers_in : UserGestureSharedState → ℕ → Text → ℕ → Bool
remembers_in st id r until = elim (lookup id st.sessions) [
  | none ↦ true
  | some s ↦ remembers until r s.used
]

remembers-insert :
    (until : ℕ) (r k : Text) (x : ℕ) (used : List (Text × ℕ))
    → until ≤ x
    → remembers until r used ≡ true
    → remembers until r (insert k x used) ≡ true
remembers-insert until r k x used h m = ground (arith, lookup-insert k r x used)

remembers-keep :
    (until now : ℕ) (r : Text) (used : List (Text × ℕ))
    → now < until
    → UniqueKeys used
    → remembers until r used ≡ true
    → remembers until r (keep (λ x. not (leb x now)) used) ≡ true
remembers-keep until now r used h u m = ground (arith, lookup-keep (λ x. not (leb x now)) r used u)

remembers_expired :
    (until now : ℕ) (r : Text) (m : List (ℕ × GrantRecord)) (used : List (Text × ℕ))
    → until ≤ now + replay_window_ms
    → remembers until r used ≡ true
    → remembers until r (remember_expired now m used) ≡ true
unfolding remember_expired
remembers_expired until now r [] used h k = k
remembers_expired until now r ((id, g) ∷ m) used h k = elim (Bool-cases (leb g.expires_at now)) [
  | inl e ↦ rw e (
      remembers_expired until now r m _ h
        (remembers-insert until r g.request_id (now + 60000) used h k))
  | inr e ↦ rw e (remembers_expired until now r m used h k)
]

remembers_all :
    (until now : ℕ) (r : Text) (m : List (ℕ × GrantRecord)) (used : List (Text × ℕ))
    → until ≤ now + replay_window_ms
    → remembers until r used ≡ true
    → remembers until r (remember_all now m used) ≡ true
unfolding remember_all
remembers_all until now r [] used h k = k
remembers_all until now r ((id, g) ∷ m) used h k =
    remembers_all until now r m _ h (remembers-insert until r g.request_id (now + 60000) used h k)

remembers-purge :
    (until now : ℕ) (r : Text) (s : SessionState)
    → now < until
    → until ≤ now + replay_window_ms
    → IsValidSession s
    → remembers until r s.used ≡ true
    → remembers until r (purge_session now s).used ≡ true
unfolding purge_session
remembers-purge until now r s h w v m =
    remembers-keep until now r _ h (remember_expired-keys now s.active s.used v.used_keys)
      (remembers_expired until now r s.active s.used w m)

-- In the sections below a session `id` remembers the request `r` until `until`, at a time `now`
-- less than the replay window before that.
module _ (until now id : ℕ) (r : Text) (early : now < until)
    (late : until ≤ now + replay_window_ms) where
  remembers_in-purge :
      (st : UserGestureSharedState)
      → IsValid st
      → remembers_in st id r until ≡ true
      → remembers_in (purge_expired st now) id r until ≡ true
  unfolding purge_expired
  remembers_in-purge st v m = elim (Option-cases (lookup id st.sessions)) [
    | inl e ↦ ground (arith, lookup-map_values (purge_session now) id st.sessions)
    | inr (s, e) ↦ ground (
      arith,
      lookup-map_values (purge_session now) id st.sessions,
      remembers-purge until now r s early late
          (AllValues-lookup IsValidSession id st.sessions v.sessions_valid e),
    )
  ]

  -- A session is replaced by one that still remembers what it did.
  remembers_in-insert :
      (st : UserGestureSharedState) (k n : ℕ) (s s' : SessionState)
      → lookup k st.sessions ≡ some s
      → (remembers until r s.used ≡ true → remembers until r s'.used ≡ true)
      → remembers_in st id r until ≡ true
      → remembers_in
          (record st { next_grant_id = n; sessions = insert k s' st.sessions })
          id
          r
          until
        ≡ true
  remembers_in-insert st k n s s' e h m = ground (arith, lookup-insert k id s' st.sessions)

  remembers_in-close :
      (st : UserGestureSharedState) (s : UserGestureSession)
      → IsValid st
      → remembers_in st id r until ≡ true
      → remembers_in (close_session st s).0 id r until ≡ true
  unfolding close_session
  remembers_in-close st s v m =
      ground (arith, lookup-remove s.session_id id st.sessions v.session_keys)

  remembers_in-open :
      (st : UserGestureSharedState) (app : Text)
      → st.next_session_id ≢ id
      → remembers_in st id r until ≡ true
      → remembers_in (open_session st app).0 id r until ≡ true
  unfolding open_session
  remembers_in-open st app ne m = ground (
    arith,
    lookup-insert st.next_session_id id (record { app_identity = app; active = []; used = [] })
        st.sessions,
  )

  remembers_in-issue :
      (st : UserGestureSharedState) (s : UserGestureSession) (q : Text) (life : ℤ)
      → IsValid st
      → remembers_in st id r until ≡ true
      → remembers_in (issue_locked st s q life now).0 id r until ≡ true
  unfolding issue_locked issue_found
  remembers_in-issue st s q life v m =
      let p = purge_expired st now in
      let m' = remembers_in-purge st v m in
      elim (Option-cases (lookup s.session_id p.sessions)) [
        | inl e ↦ ground arith
        | inr (found, e) ↦
            let granted : GrantRecord = record {
              request_id = q;
              expires_at = now + pos_part life;
            } in
            ground (
              arith,
              remembers_in-insert p s.session_id (increment p.next_grant_id) found
                  (record found { active = insert p.next_grant_id granted found.active }) e (λ h. h)
                  m',
            )
      ]

  spent_remembers :
      (st : UserGestureSharedState) (k grant_id : ℕ) (s : SessionState) (q : Text)
      → lookup k st.sessions ≡ some s
      → remembers_in st id r until ≡ true
      → remembers_in
          (record st {
            sessions =
                insert k
                  (record s {
                    active = remove grant_id s.active;
                    used = insert q (now + replay_window_ms) s.used;
                  })
                  st.sessions;
          })
          id
          r
          until
        ≡ true
  spent_remembers st k grant_id s q e m =
      remembers_in-insert st k st.next_grant_id s _ e
        (remembers-insert until r q (now + replay_window_ms) s.used late) m

  remembers_in-consume :
      (st : UserGestureSharedState) (g : UserGestureGrant) (app q : Text)
      → IsValid st
      → remembers_in st id r until ≡ true
      → remembers_in (consume st g app q now).0 id r until ≡ true
  unfolding consume consume_session
  remembers_in-consume st g app q v m =
      let p = purge_expired st now in
      let m' = remembers_in-purge st v m in
      elim (Option-cases (lookup g.session_id p.sessions)) [
        | inl e ↦ ground arith
        | inr (s, e) ↦ ground (arith, spent_remembers p g.session_id g.grant_id s q e m')
      ]

  remembers_in-revoke :
      (st : UserGestureSharedState) (g : UserGestureGrant)
      → remembers_in st id r until ≡ true
      → remembers_in (revoke st g now).0 id r until ≡ true
  unfolding revoke
  remembers_in-revoke st g m = elim (Option-cases (lookup g.session_id st.sessions)) [
    | inl e ↦ ground arith
    | inr (s, e) ↦ ground (arith, spent_remembers st g.session_id g.grant_id s g.request_id e m)
  ]

  remembers_in-revoke_all :
      (st : UserGestureSharedState) (s : UserGestureSession)
      → IsValid st
      → remembers_in st id r until ≡ true
      → remembers_in (revoke_outstanding st s now).0 id r until ≡ true
  unfolding revoke_outstanding revoke_session
  remembers_in-revoke_all st s v m =
      let p = purge_expired st now in
      let m' = remembers_in-purge st v m in
      elim (Option-cases (lookup s.session_id p.sessions)) [
        | inl e ↦ ground arith
        | inr (found, e) ↦ ground (
          arith,
          remembers_in-insert p s.session_id p.next_grant_id found (revoke_session now found) e
              (remembers_all until now r found.active found.used late) m',
        )
      ]

  step_remembers :
      (st : UserGestureSharedState) (q : Request)
      → IsValid st
      → st.next_session_id ≢ id
      → remembers_in st id r until ≡ true
      → remembers_in (step st (now, q)) id r until ≡ true
  unfolding step issue try_issue destroy lookup
  step_remembers st (open_with app) v ne m = remembers_in-open st app ne m
  step_remembers st (close_with s) v ne m = remembers_in-close st s v m
  step_remembers st (issue_with s k life) v ne m =
      ground (arith, remembers_in-issue st s k life v m)
  step_remembers st (try_issue_with locked s k life) v ne m =
      ground (arith, remembers_in-issue st s k life v m)
  step_remembers st (consume_with g app k) v ne m = remembers_in-consume st g app k v m
  step_remembers st (revoke_with g) v ne m = remembers_in-revoke st g m
  step_remembers st (revoke_all_with s) v ne m = remembers_in-revoke_all st s v m
  step_remembers st destroy_with v ne m = refl

  -- While its request is remembered, a session is not granted it again.
  issue_remembered :
      (st : UserGestureSharedState) (s : UserGestureSession) (life : ℤ)
      → IsValid st
      → s.session_id ≡ id
      → remembers_in st id r until ≡ true
      → (issue_locked st s r life now).1 ≡ none
  unfolding issue_locked issue_found
  issue_remembered st s life v e m = ground (arith, remembers_in-purge st v m)

-- Sessions are numbered upwards, one for each that is opened.
next_session :
    (st : UserGestureSharedState) (now : ℕ) (q : Request)
    → st.next_session_id + 1 < 2 ^ 64
    → (st.next_session_id ≤ (step st (now, q)).next_session_id)
      × ((step st (now, q)).next_session_id ≤ st.next_session_id + 1)
unfolding step open_session close_session issue try_issue issue_locked issue_found consume
    consume_session revoke revoke_outstanding destroy purge_expired
next_session st now (open_with app) h = ground arith
next_session st now (close_with s) h = ground arith
next_session st now (issue_with s r life) h = ground arith
next_session st now (try_issue_with locked s r life) h = ground arith
next_session st now (consume_with g app r) h = ground arith
next_session st now (revoke_with g) h = ground arith
next_session st now (revoke_all_with s) h = ground arith
next_session st now destroy_with h = ground arith

-- Every operation takes place from `lo` on and before `hi`.
abbrev pub Within : ℕ → ℕ → List (ℕ × Request) → Type 0
Within lo hi [] = Unit
Within lo hi ((now, q) ∷ rs) = (lo ≤ now) × (now < hi) × Within lo hi rs

run_remembers :
    (id from : ℕ) (r : Text) (st : UserGestureSharedState) (rs : List (ℕ × Request))
    → IsValid st
    → id < st.next_session_id
    → st.next_session_id + length rs < 2 ^ 64
    → Within from (from + replay_window_ms) rs
    → remembers_in st id r (from + replay_window_ms) ≡ true
    → (IsValid (run st rs)) × (remembers_in (run st rs) id r (from + replay_window_ms) ≡ true)
unfolding run
run_remembers id from r st [] v a b w m = (v, m)
run_remembers id from r st ((now, q) ∷ rs) v a b w m =
    let (up, one) = next_session st now q (omega arith) in
    run_remembers id from r (step st (now, q)) rs (step-IsValid st now q v) (omega arith)
      (omega arith) w.2
      (step_remembers (from + replay_window_ms) now id r w.1 (omega arith) st q v (omega arith) m)

consume_remembers :
    (st : UserGestureSharedState) (g : UserGestureGrant) (app r : Text) (now : ℕ)
    → (consume st g app r now).2 ≡ true
    → remembers_in (consume st g app r now).0 g.session_id r (now + replay_window_ms) ≡ true
unfolding consume consume_session
consume_remembers st g app r now h =
    let p = purge_expired st now in
    elim (Option-cases (lookup g.session_id p.sessions)) [
      | inl e ↦ ground arith
      | inr (s, e) ↦
          let spent : SessionState = record s {
            active = remove g.grant_id s.active;
            used = insert r (now + replay_window_ms) s.used;
          } in
          ground (
            arith,
            lookup-insert g.session_id g.session_id spent p.sessions,
            lookup-insert r r (now + replay_window_ms) s.used,
            text_eq_iff r r,
          )
    ]

next_session_consume :
    (st : UserGestureSharedState) (g : UserGestureGrant) (app r : Text) (now : ℕ)
    → (consume st g app r now).0.next_session_id ≡ st.next_session_id
unfolding consume consume_session purge_expired
next_session_consume st g app r now = ground arith

-- No replay: in a store that satisfies the invariant, once a grant of a session that was opened has
-- been consumed, neither `issue` nor `tryIssue`, whether it gets the lock or not, grants the session
-- the same request again before the replay window of 60 seconds has passed, whatever operations at
-- times in that window come between, as long as the number of the next session and the operations
-- together stay below 2 ^ 64.
pub no_replay :
    (st : UserGestureSharedState) (g : UserGestureGrant) (s : UserGestureSession) (app r : Text)
    (now later : ℕ) (life : ℤ) (rs : List (ℕ × Request)) (locked : Bool)
    → IsValid st
    → (consume st g app r now).2 ≡ true
    → s.session_id ≡ g.session_id
    → g.session_id < st.next_session_id
    → st.next_session_id + length rs < 2 ^ 64
    → Within now (now + replay_window_ms) rs
    → now ≤ later
    → later < now + replay_window_ms
    → ((issue (run (consume st g app r now).0 rs) s r life later).1 ≡ none)
      × ((try_issue locked (run (consume st g app r now).0 rs) s r life later).1 ≡ none)
unfolding issue try_issue
no_replay st g s app r now later life rs locked v done same old few w from till =
    let after = (consume st g app r now).0 in
    let (v', m) =
      run_remembers g.session_id now r after rs (consume-IsValid st g app r now v)
        (omega (arith, next_session_consume st g app r now))
        (omega (arith, next_session_consume st g app r now)) w
        (consume_remembers st g app r now done) in
    ground (
      arith,
      issue_remembered (now + replay_window_ms) later g.session_id r till (omega arith)
          (run after rs) s life v' same m,
    )
