-- ===== src/Broker/Gesture/Invariant.antt =====
-- The bounds of the store and the shape of its tables after any history.
use q_browser.Base.{
  ℕ, ◌+◌, ◌≤◌, true, false, not, if_elim, option_elim, none, some, List, [], ◌∷◌, ◌≡◌, arith, leb,
  length, Option-cases, Bool-cases, inl, inr,
}
use q_browser.Base.Int.{ℤ, pos_part}
use q_browser.Base.Text.{Text, nat_eq, text_key}
use q_browser.Base.Assoc.{
  lookup, insert, remove, keep, total, is_some, UniqueKeys, AllValues, UniqueKeys-insert,
  UniqueKeys-remove, UniqueKeys-keep, UniqueKeys-map_values, length-insert, length-remove,
  length-insert_found, length-keep, length-map_values, total-insert, total-remove, total-map_values,
  AllValues-lookup, AllValues-insert, AllValues-remove, AllValues-map_values,
}
use q_browser.Broker.Gesture.{
  GrantRecord, SessionState, UserGestureSharedState, UserGestureSession, UserGestureGrant,
  remember_expired, purge_session, increment, purge_expired, record_count, active_count, create,
  destroy, open_session, close_session, issue_found, issue_locked, issue, try_issue,
  consume_session, consume, revoke, remember_all, revoke_session, revoke_outstanding, Request,
  open_with, close_with, issue_with, try_issue_with, consume_with, revoke_with, revoke_all_with,
  destroy_with, step, run, maximum_sessions, maximum_active_grants, maximum_remembered_records,
}

-- The tables of one session have one entry for each key.
pub record IsValidSession (s : SessionState) : Type 0 where
  pub active_keys : UniqueKeys s.active
  pub used_keys : UniqueKeys s.used

pub record IsValid (st : UserGestureSharedState) : Type 0 where
  pub session_keys : UniqueKeys st.sessions
  pub sessions_valid : AllValues IsValidSession st.sessions
  pub sessions_bound : length st.sessions ≤ maximum_sessions
  pub active_bound : active_count st ≤ maximum_active_grants
  pub record_bound : record_count st ≤ maximum_remembered_records

abbrev records : SessionState → ℕ
records s = length s.active + length s.used

abbrev actives : SessionState → ℕ
actives s = length s.active

pub remember_expired-keys :
    (now : ℕ) (m : List (ℕ × GrantRecord)) (used : List (Text × ℕ))
    → UniqueKeys used
    → UniqueKeys (remember_expired now m used)
unfolding remember_expired
remember_expired-keys now [] used u = u
remember_expired-keys now ((id, g) ∷ m) used u = elim (Bool-cases (leb g.expires_at now)) [
  | inl e ↦ rw e (remember_expired-keys now m _ (UniqueKeys-insert g.request_id _ used u))
  | inr e ↦ rw e (remember_expired-keys now m used u)
]

-- What is remembered makes up for what is dropped.
purge_length :
    (now : ℕ) (m : List (ℕ × GrantRecord)) (used : List (Text × ℕ))
    → length (keep (λ g. not (leb g.expires_at now)) m) + length (remember_expired now m used)
      ≤ length m + length used
unfolding remember_expired keep
purge_length now [] used = omega arith
purge_length now ((id, g) ∷ m) used = elim (Bool-cases (leb g.expires_at now)) [
  | inl e ↦ rw e (
      omega (
        arith,
        purge_length now m (insert g.request_id (now + 60000) used),
        length-insert g.request_id (now + 60000) used,
      ))
  | inr e ↦ rw e (omega (arith, purge_length now m used))
]

purge_session-IsValid :
    (now : ℕ) (s : SessionState) → IsValidSession s → IsValidSession (purge_session now s)
unfolding purge_session
purge_session-IsValid now s v = record {
  active_keys = UniqueKeys-keep (λ g. not (leb g.expires_at now)) s.active v.active_keys;
  used_keys =
      UniqueKeys-keep (λ x. not (leb x now)) _
        (remember_expired-keys now s.active s.used v.used_keys);
}

records-purge : (now : ℕ) (s : SessionState) → records (purge_session now s) ≤ records s
unfolding purge_session
records-purge now s = omega (
  arith,
  purge_length now s.active s.used,
  length-keep (λ x. not (leb x now)) (remember_expired now s.active s.used),
)

actives-purge : (now : ℕ) (s : SessionState) → actives (purge_session now s) ≤ actives s
unfolding purge_session
actives-purge now s = length-keep (λ g. not (leb g.expires_at now)) s.active

pub purge_expired-IsValid :
    (st : UserGestureSharedState) (now : ℕ) → IsValid st → IsValid (purge_expired st now)
unfolding purge_expired active_count record_count
purge_expired-IsValid st now v = record {
  session_keys = UniqueKeys-map_values (purge_session now) st.sessions v.session_keys;
  sessions_valid =
      AllValues-map_values IsValidSession (purge_session now) st.sessions
        (purge_session-IsValid now) v.sessions_valid;
  sessions_bound =
      omega (arith, v.sessions_bound, length-map_values (purge_session now) st.sessions);
  active_bound = omega (
    arith,
    v.active_bound,
    total-map_values actives (purge_session now) st.sessions (actives-purge now),
  );
  record_bound = omega (
    arith,
    v.record_bound,
    total-map_values records (purge_session now) st.sessions (records-purge now),
  );
}

-- A session is replaced by one whose tables are valid and leave the bounds.
replace-IsValid :
    (st : UserGestureSharedState) (n k : ℕ) (s s' : SessionState)
    → IsValid st
    → lookup k st.sessions ≡ some s
    → IsValidSession s'
    → active_count st + actives s' ≤ maximum_active_grants + actives s
    → record_count st + records s' ≤ maximum_remembered_records + records s
    → IsValid (record st { next_grant_id = n; sessions = insert k s' st.sessions })
unfolding active_count record_count
replace-IsValid st n k s s' v e w a r = record {
  session_keys = UniqueKeys-insert k s' st.sessions v.session_keys;
  sessions_valid = AllValues-insert IsValidSession k s' st.sessions v.sessions_valid w;
  sessions_bound = ground (arith, length-insert_found k s' st.sessions, v.sessions_bound);
  active_bound = ground (arith, total-insert actives k s' st.sessions);
  record_bound = ground (arith, total-insert records k s' st.sessions);
}

-- The first part of a result is valid.
abbrev Keeps {ℓ} : {B : Type ℓ} → UserGestureSharedState × B → Type 0
Keeps o = IsValid o.0

opened-IsValid :
    (st : UserGestureSharedState) (id next : ℕ) (app : Text)
    → IsValid st
    → leb maximum_sessions (length st.sessions) ≡ false
    → IsValid (record st {
      next_session_id = next;
      sessions = insert id (record { app_identity = app; active = []; used = [] }) st.sessions;
    })
unfolding active_count record_count
opened-IsValid st id next app v room =
    let s : SessionState = record { app_identity = app; active = []; used = [] } in
    record {
      session_keys = UniqueKeys-insert id s st.sessions v.session_keys;
      sessions_valid =
          AllValues-insert IsValidSession id s st.sessions v.sessions_valid
            (record { active_keys = tt; used_keys = tt });
      sessions_bound = ground (arith, length-insert id s st.sessions);
      active_bound = omega (arith, v.active_bound, total-insert actives id s st.sessions);
      record_bound = omega (arith, v.record_bound, total-insert records id s st.sessions);
    }

open_session-IsValid :
    (st : UserGestureSharedState) (app : Text) → IsValid st → IsValid (open_session st app).0
unfolding open_session
open_session-IsValid st app v =
    ground (arith, opened-IsValid st st.next_session_id (increment st.next_session_id) app v)

closed-IsValid :
    (st : UserGestureSharedState) (id : ℕ)
    → IsValid st
    → IsValid (record st { sessions = remove id st.sessions })
unfolding active_count record_count
closed-IsValid st id v = record {
  session_keys = UniqueKeys-remove id st.sessions v.session_keys;
  sessions_valid = AllValues-remove IsValidSession id st.sessions v.sessions_valid;
  sessions_bound = omega (arith, v.sessions_bound, length-remove id st.sessions);
  active_bound = omega (arith, v.active_bound, total-remove actives id st.sessions);
  record_bound = omega (arith, v.record_bound, total-remove records id st.sessions);
}

close_session-IsValid :
    (st : UserGestureSharedState) (s : UserGestureSession)
    → IsValid st
    → IsValid (close_session st s).0
unfolding close_session
close_session-IsValid st s v =
    if_elim IsValid _ _ st (λ _. closed-IsValid st s.session_id v) (λ _. v)

granted-IsValid :
    (st : UserGestureSharedState) (id : ℕ) (found : SessionState) (granted : GrantRecord)
    → IsValid st
    → lookup id st.sessions ≡ some found
    → leb maximum_active_grants (active_count st) ≡ false
    → leb maximum_remembered_records (record_count st) ≡ false
    → IsValid (record st {
      next_grant_id = increment st.next_grant_id;
      sessions =
          insert id
            (record found { active = insert st.next_grant_id granted found.active })
            st.sessions;
    })
granted-IsValid st id found granted v e a r =
    let valid = AllValues-lookup IsValidSession id st.sessions v.sessions_valid e in
    let longer = length-insert st.next_grant_id granted found.active in
    replace-IsValid st (increment st.next_grant_id) id found
      (record found { active = insert st.next_grant_id granted found.active }) v e
      (record {
        active_keys = UniqueKeys-insert st.next_grant_id granted found.active valid.active_keys;
        used_keys = valid.used_keys;
      })
      (ground arith) (ground arith)

issue_found-IsValid :
    (st : UserGestureSharedState) (s : UserGestureSession) (found : SessionState) (r : Text)
    (life : ℤ) (now : ℕ)
    → IsValid st
    → lookup s.session_id st.sessions ≡ some found
    → IsValid (issue_found st s found r life now).0
unfolding issue_found
issue_found-IsValid st s found r life now v e =
    let granted : GrantRecord = record { request_id = r; expires_at = now + pos_part life } in
    ground (arith, granted-IsValid st s.session_id found granted v e)

issue_locked-IsValid :
    (st : UserGestureSharedState) (s : UserGestureSession) (r : Text) (life : ℤ) (now : ℕ)
    → IsValid st
    → IsValid (issue_locked st s r life now).0
unfolding issue_locked
issue_locked-IsValid st s r life now v =
    let purged = purge_expired st now in
    let v' = purge_expired-IsValid st now v in
    option_elim Keeps (lookup s.session_id purged.sessions) (purged, none)
      (λ found. issue_found purged s found r life now) (λ _. v')
      (λ found e. issue_found-IsValid purged s found r life now v' e)

-- One active grant of a session is dropped and its request remembered.
spent-IsValid :
    (st : UserGestureSharedState) (id grant_id until : ℕ) (s : SessionState) (request : Text)
    → IsValid st
    → lookup id st.sessions ≡ some s
    → is_some (lookup grant_id s.active) ≡ true
    → IsValid (record st {
      sessions =
          insert id
            (record s { active = remove grant_id s.active; used = insert request until s.used })
            st.sessions;
    })
spent-IsValid st id grant_id until s request v e found =
    let valid = AllValues-lookup IsValidSession id st.sessions v.sessions_valid e in
    let shorter = length-remove grant_id s.active in
    let longer = length-insert request until s.used in
    let bound = v.active_bound in
    let bound' = v.record_bound in
    replace-IsValid st st.next_grant_id id s _ v e
      (record {
        active_keys = UniqueKeys-remove grant_id s.active valid.active_keys;
        used_keys = UniqueKeys-insert request until s.used valid.used_keys;
      })
      (ground arith) (ground arith)

pub issue-IsValid :
    (st : UserGestureSharedState) (s : UserGestureSession) (r : Text) (life : ℤ) (now : ℕ)
    → IsValid st
    → IsValid (issue st s r life now).0
unfolding issue
issue-IsValid st s r life now v = ground (arith, issue_locked-IsValid st s r life now v)

consume_session-IsValid :
    (st : UserGestureSharedState) (g : UserGestureGrant) (s : SessionState) (app r : Text) (now : ℕ)
    → IsValid st
    → lookup g.session_id st.sessions ≡ some s
    → IsValid (consume_session st g s app r now).0
unfolding consume_session
consume_session-IsValid st g s app r now v e =
    ground (arith, spent-IsValid st g.session_id g.grant_id (now + 60000) s r v e)

pub consume-IsValid :
    (st : UserGestureSharedState) (g : UserGestureGrant) (app r : Text) (now : ℕ)
    → IsValid st
    → IsValid (consume st g app r now).0
unfolding consume
consume-IsValid st g app r now v =
    let purged = purge_expired st now in
    let v' = purge_expired-IsValid st now v in
    elim (Option-cases (lookup g.session_id purged.sessions)) [
      | inl e ↦ ground arith
      | inr (s, e) ↦ ground (arith, consume_session-IsValid purged g s app r now v' e)
    ]

revoke-IsValid :
    (st : UserGestureSharedState) (g : UserGestureGrant) (now : ℕ)
    → IsValid st
    → IsValid (revoke st g now).0
unfolding revoke
revoke-IsValid st g now v = elim (Option-cases (lookup g.session_id st.sessions)) [
  | inl e ↦ ground arith
  | inr (s, e) ↦
      ground (arith, spent-IsValid st g.session_id g.grant_id (now + 60000) s g.request_id v e)
]

remember_all-keys :
    (now : ℕ) (m : List (ℕ × GrantRecord)) (used : List (Text × ℕ))
    → UniqueKeys used
    → UniqueKeys (remember_all now m used)
unfolding remember_all
remember_all-keys now [] used u = u
remember_all-keys now ((id, g) ∷ m) used u =
    remember_all-keys now m _ (UniqueKeys-insert g.request_id _ used u)

remember_all-length :
    (now : ℕ) (m : List (ℕ × GrantRecord)) (used : List (Text × ℕ))
    → length (remember_all now m used) ≤ length m + length used
unfolding remember_all
remember_all-length now [] used = omega arith
remember_all-length now ((id, g) ∷ m) used = omega (
  arith,
  remember_all-length now m (insert g.request_id (now + 60000) used),
  length-insert g.request_id (now + 60000) used,
)

revoked-IsValid :
    (st : UserGestureSharedState) (id now : ℕ) (s : SessionState)
    → IsValid st
    → lookup id st.sessions ≡ some s
    → IsValid (record st { sessions = insert id (revoke_session now s) st.sessions })
unfolding revoke_session
revoked-IsValid st id now s v e =
    let valid = AllValues-lookup IsValidSession id st.sessions v.sessions_valid e in
    let longer = remember_all-length now s.active s.used in
    let bound = v.active_bound in
    let bound' = v.record_bound in
    replace-IsValid st st.next_grant_id id s _ v e
      (record {
        active_keys = tt;
        used_keys = remember_all-keys now s.active s.used valid.used_keys;
      })
      (omega arith) (omega arith)

revoke_outstanding-IsValid :
    (st : UserGestureSharedState) (s : UserGestureSession) (now : ℕ)
    → IsValid st
    → IsValid (revoke_outstanding st s now).0
unfolding revoke_outstanding
revoke_outstanding-IsValid st s now v =
    let purged = purge_expired st now in
    let v' = purge_expired-IsValid st now v in
    elim (Option-cases (lookup s.session_id purged.sessions)) [
      | inl e ↦ ground arith
      | inr (found, e) ↦ ground (arith, revoked-IsValid purged s.session_id now found v' e)
    ]

destroy-IsValid : (st : UserGestureSharedState) → IsValid st → IsValid (destroy st)
unfolding destroy active_count record_count total
destroy-IsValid st v = record {
  session_keys = tt;
  sessions_valid = tt;
  sessions_bound = omega arith;
  active_bound = omega arith;
  record_bound = omega arith;
}

pub step-IsValid :
    (st : UserGestureSharedState) (now : ℕ) (r : Request) → IsValid st → IsValid (step st (now, r))
unfolding step try_issue
step-IsValid st now (open_with app) v = open_session-IsValid st app v
step-IsValid st now (close_with s) v = close_session-IsValid st s v
step-IsValid st now (issue_with s r life) v = issue-IsValid st s r life now v
step-IsValid st now (try_issue_with locked s r life) v =
    ground (arith, issue_locked-IsValid st s r life now v)
step-IsValid st now (consume_with g app r) v = consume-IsValid st g app r now v
step-IsValid st now (revoke_with g) v = revoke-IsValid st g now v
step-IsValid st now (revoke_all_with s) v = revoke_outstanding-IsValid st s now v
step-IsValid st now destroy_with v = destroy-IsValid st v

run-IsValid :
    (st : UserGestureSharedState) (rs : List (ℕ × Request)) → IsValid st → IsValid (run st rs)
unfolding run
run-IsValid st [] v = v
run-IsValid st ((now, r) ∷ rs) v = run-IsValid (step st (now, r)) rs (step-IsValid st now r v)

-- After any history of a new store, with any handles and at any times: at most 128 sessions, 4096
-- active grants and 8192 remembered records in all, and no key twice in any of the tables.
pub run_new_store-IsValid : (name : ℕ) (rs : List (ℕ × Request)) → IsValid (run (create name) rs)
unfolding create
run_new_store-IsValid name rs = run-IsValid (create name) rs (record {
  session_keys = tt;
  sessions_valid = tt;
  sessions_bound = omega arith;
  active_bound = unfold active_count total in omega arith;
  record_bound = unfold record_count total in omega arith;
})
