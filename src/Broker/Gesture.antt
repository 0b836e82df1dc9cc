-- ===== src/Broker/Gesture.antt =====
-- Grants that a user gesture gives to one request: runtime/broker/UserGestureGrantStore.h and .cpp.
--
-- The shared state of a store is a value, named by a number, and the two handle types name the
-- state they point to (`none` for a null pointer). The lock makes each operation atomic: a history
-- is a sequence of operations. The elapsed time of the store's clock is an argument of each
-- operation that reads it.
pub mod Consume
pub mod Invariant
pub mod Replay
mod Tests
use q_browser.Base.{
  ℕ, suc, ◌+◌, ◌-◌, ◌%◌, ◌^◌, Bool, true, false, not, ◌&&◌, ◌||◌, Option, none, some, List, [], ◌∷◌,
  ltb, leb, ◌==◌, if◌then◌else◌, length,
}
use q_browser.Base.Int.{ℤ, pos, leb_ℤ, ltb_ℤ, pos_part}
use q_browser.Base.Text.{Text, text_eq, nat_eq, text_key}
use q_browser.Base.Assoc.{lookup, insert, remove, keep, map_values, total, is_some}

abbrev pub maximum_active_grants : ℕ
maximum_active_grants = 4096

abbrev pub maximum_remembered_records : ℕ
maximum_remembered_records = 8192

abbrev pub maximum_sessions : ℕ
maximum_sessions = 128

abbrev pub replay_window_ms : ℕ
replay_window_ms = 60000

pub record GrantRecord : Type 0 where
  pub request_id : Text
  pub expires_at : ℕ

pub record SessionState : Type 0 where
  pub app_identity : Text
  pub active : List (ℕ × GrantRecord)
  pub used : List (Text × ℕ)

token_characters : Text → Bool
token_characters [] = true
token_characters (c ∷ cs) = not (ltb c 0x21 || ltb 0x7e c) && token_characters cs

unfoldable pub valid_token : Text → Bool
unfolding token_characters
valid_token [] = false
valid_token (c ∷ cs) = not (ltb 256 (length (c ∷ cs))) && token_characters (c ∷ cs)

pub record UserGestureSharedState : Type 0 where
  pub name : ℕ
  pub sessions : List (ℕ × SessionState)
  pub next_session_id : ℕ
  pub next_grant_id : ℕ
  pub accepting : Bool

-- The first loop of `purgeExpired` over one session: what has expired is remembered as used.
unfoldable pub remember_expired : ℕ → List (ℕ × GrantRecord) → List (Text × ℕ) → List (Text × ℕ)
remember_expired now [] used = used
remember_expired now ((id, grant) ∷ rest) used = remember_expired now rest (
    if leb grant.expires_at now
    then insert grant.request_id (now + replay_window_ms) used
    else used)

unfoldable pub purge_session : ℕ → SessionState → SessionState
unfolding remember_expired
purge_session now s = record s {
  active = keep (λ grant. not (leb grant.expires_at now)) s.active;
  used = keep (λ expires. not (leb expires now)) (remember_expired now s.active s.used);
}

unfoldable pub purge_expired : UserGestureSharedState → ℕ → UserGestureSharedState
purge_expired st now = record st { sessions = map_values (purge_session now) st.sessions }

unfoldable pub record_count : UserGestureSharedState → ℕ
record_count st = total (λ s. length s.active + length s.used) st.sessions

unfoldable pub active_count : UserGestureSharedState → ℕ
active_count st = total (λ s. length s.active) st.sessions

pub record UserGestureSession : Type 0 where
  pub state : Option ℕ
  pub session_id : ℕ

pub record UserGestureGrant : Type 0 where
  pub state : Option ℕ
  pub session_id : ℕ
  pub grant_id : ℕ
  pub app_identity : Text
  pub request_id : Text
  pub active : Bool

-- `handle.state_ == state_`
abbrev pub refers : Option ℕ → UserGestureSharedState → Bool
refers none st = false
refers (some n) st = n == st.name

-- `nextId++` on a `quint64`
abbrev pub increment : ℕ → ℕ
increment n = (n + 1) % 2 ^ 64

unfoldable pub create : ℕ → UserGestureSharedState
create name = record {
  name = name;
  sessions = [];
  next_session_id = 1;
  next_grant_id = 1;
  accepting = true;
}

-- `~UserGestureGrantStore`
unfoldable pub destroy : UserGestureSharedState → UserGestureSharedState
destroy st = record st { accepting = false; sessions = [] }

unfoldable pub open_session :
    UserGestureSharedState → Text → UserGestureSharedState × Option UserGestureSession
open_session st app_identity =
    if not (valid_token app_identity)
    then (st, none)
    else if not st.accepting || leb maximum_sessions (length st.sessions)
    then (st, none)
    else let id = st.next_session_id in
      (
        record st {
          next_session_id = increment id;
          sessions =
              insert id (record { app_identity = app_identity; active = []; used = [] })
                st.sessions;
        },
        some (record { state = some st.name; session_id = id }),
      )

-- `UserGestureSession::close`, on the state that the session points to
unfoldable pub close_session :
    UserGestureSharedState → UserGestureSession → UserGestureSharedState × UserGestureSession
close_session st session = (
  if refers session.state st && not (session.session_id == 0)
      then record st { sessions = remove session.session_id st.sessions }
      else st,
  record { state = none; session_id = 0 },
)

unfoldable pub has_request : Text → List (ℕ × GrantRecord) → Bool
has_request request_id [] = false
has_request request_id ((id, grant) ∷ rest) =
    text_eq grant.request_id request_id || has_request request_id rest

-- `issueLocked`, once its session is found in the purged state
unfoldable pub issue_found :
    UserGestureSharedState
    → UserGestureSession
    → SessionState
    → Text
    → ℤ
    → ℕ
    → UserGestureSharedState × Option UserGestureGrant
issue_found st session found request_id lifetime_ms now =
    if not st.accepting
      || leb maximum_active_grants (active_count st)
      || leb maximum_remembered_records (record_count st)
    then (st, none)
    else if has_request request_id found.active
    then (st, none)
    else if is_some (lookup request_id found.used)
    then (st, none)
    else let grant_id = st.next_grant_id in
      let granted : GrantRecord = record {
        request_id = request_id;
        expires_at = now + pos_part lifetime_ms;
      } in
      (
        record st {
          next_grant_id = increment grant_id;
          sessions =
              insert session.session_id
                (record found { active = insert grant_id granted found.active }) st.sessions;
        },
        some (record {
          state = some st.name;
          session_id = session.session_id;
          grant_id = grant_id;
          app_identity = found.app_identity;
          request_id = request_id;
          active = true;
        }),
      )

unfoldable pub issue_locked :
    UserGestureSharedState
    → UserGestureSession
    → Text
    → ℤ
    → ℕ
    → UserGestureSharedState × Option UserGestureGrant
issue_locked st session request_id lifetime_ms now =
    let purged = purge_expired st now in
    elim (lookup session.session_id purged.sessions) [
      | none ↦ (purged, none)
      | some found ↦ issue_found purged session found request_id lifetime_ms now
    ]

-- The test in front of `issue` and `tryIssue`
unfoldable pub may_issue : UserGestureSharedState → UserGestureSession → Text → ℤ → Bool
may_issue st session request_id lifetime_ms = not (
    not (refers session.state st)
    || session.session_id == 0
    || not (valid_token request_id)
    || leb_ℤ lifetime_ms (pos 0)
    || ltb_ℤ (pos 60000) lifetime_ms)

unfoldable pub issue :
    UserGestureSharedState
    → UserGestureSession
    → Text
    → ℤ
    → ℕ
    → UserGestureSharedState × Option UserGestureGrant
issue st session request_id lifetime_ms now =
    if not (may_issue st session request_id lifetime_ms)
    then (st, none)
    else issue_locked st session request_id lifetime_ms now

-- `locked` is what `mutex.tryLock()` answers.
unfoldable pub try_issue :
    Bool
    → UserGestureSharedState
    → UserGestureSession
    → Text
    → ℤ
    → ℕ
    → UserGestureSharedState × Option UserGestureGrant
try_issue locked st session request_id lifetime_ms now =
    if not (may_issue st session request_id lifetime_ms) || not locked
    then (st, none)
    else issue_locked st session request_id lifetime_ms now

abbrev pub Consumed : Type 0
Consumed = UserGestureSharedState × UserGestureGrant × Bool

-- `consume` once the record of the grant is found
unfoldable pub consume_record :
    UserGestureSharedState → UserGestureGrant → SessionState → GrantRecord → Text → ℕ → Consumed
consume_record st grant session granted request_id now =
    if not (text_eq granted.request_id request_id) || leb granted.expires_at now
    then (st, grant, false)
    else (
      record st {
        sessions =
            insert grant.session_id
              (record session {
                active = remove grant.grant_id session.active;
                used = insert request_id (now + replay_window_ms) session.used;
              })
              st.sessions;
      },
      record grant { active = false },
      true,
    )

unfoldable pub consume_session :
    UserGestureSharedState → UserGestureGrant → SessionState → Text → Text → ℕ → Consumed
unfolding consume_record
consume_session st grant session app_identity request_id now =
    if not st.accepting || not (text_eq session.app_identity app_identity)
    then (st, grant, false)
    else elim (lookup grant.grant_id session.active) [
      | none ↦ (st, grant, false)
      | some granted ↦ consume_record st grant session granted request_id now
    ]

unfoldable pub consume : UserGestureSharedState → UserGestureGrant → Text → Text → ℕ → Consumed
unfolding consume_session
consume st grant app_identity request_id now =
    if not (refers grant.state st)
      || not grant.active
      || not (text_eq grant.app_identity app_identity)
      || not (text_eq grant.request_id request_id)
    then (st, grant, false)
    else let purged = purge_expired st now in
      elim (lookup grant.session_id purged.sessions) [
        | none ↦ (purged, grant, false)
        | some session ↦ consume_session purged grant session app_identity request_id now
      ]

-- `UserGestureGrant::revoke`, on the state that the grant points to
unfoldable pub revoke :
    UserGestureSharedState → UserGestureGrant → ℕ → UserGestureSharedState × UserGestureGrant
revoke st grant now =
    let dead = record grant { active = false; state = none } in
    let revoked : UserGestureSharedState = elim (lookup grant.session_id st.sessions) [
      | none ↦ st
      | some session ↦
          if is_some (lookup grant.grant_id session.active)
          then record st {
            sessions =
                insert grant.session_id
                  (record session {
                    active = remove grant.grant_id session.active;
                    used = insert grant.request_id (now + replay_window_ms) session.used;
                  })
                  st.sessions;
          }
          else st
    ] in
    if grant.active
      && refers grant.state st
      && not (grant.session_id == 0)
      && not (grant.grant_id == 0)
    then (revoked, dead)
    else (st, dead)

unfoldable pub remember_all : ℕ → List (ℕ × GrantRecord) → List (Text × ℕ) → List (Text × ℕ)
remember_all now [] used = used
remember_all now ((id, grant) ∷ rest) used =
    remember_all now rest (insert grant.request_id (now + replay_window_ms) used)

unfoldable pub revoke_session : ℕ → SessionState → SessionState
unfolding remember_all
revoke_session now s = record s { active = []; used = remember_all now s.active s.used }

unfoldable pub revoke_outstanding :
    UserGestureSharedState → UserGestureSession → ℕ → UserGestureSharedState × Bool
revoke_outstanding st session now =
    let purged = purge_expired st now in
    let revoked : UserGestureSharedState × Bool = elim (lookup session.session_id purged.sessions) [
      | none ↦ (purged, true)
      | some found ↦ (
        record purged {
          sessions = insert session.session_id (revoke_session now found) purged.sessions;
        },
        true,
      )
    ] in
    if not (refers session.state st) || session.session_id == 0
    then (st, false)
    else if not (is_some (lookup session.session_id st.sessions))
    then (st, false)
    else revoked

-- One operation on the store, at a time of its clock.
pub data Request : Type 0 where
  open_with : Text → Request
  close_with : UserGestureSession → Request
  issue_with : UserGestureSession → Text → ℤ → Request
  try_issue_with : Bool → UserGestureSession → Text → ℤ → Request
  consume_with : UserGestureGrant → Text → Text → Request
  revoke_with : UserGestureGrant → Request
  revoke_all_with : UserGestureSession → Request
  destroy_with : Request

unfoldable pub step : UserGestureSharedState → ℕ × Request → UserGestureSharedState
step st (now, open_with app) = (open_session st app).0
step st (now, close_with s) = (close_session st s).0
step st (now, issue_with s r life) = (issue st s r life now).0
step st (now, try_issue_with locked s r life) = (try_issue locked st s r life now).0
step st (now, consume_with g app r) = (consume st g app r now).0
step st (now, revoke_with g) = (revoke st g now).0
step st (now, revoke_all_with s) = (revoke_outstanding st s now).0
step st (now, destroy_with) = destroy st

unfoldable pub run : UserGestureSharedState → List (ℕ × Request) → UserGestureSharedState
run st [] = st
run st (r ∷ rs) = run (step st r) rs
