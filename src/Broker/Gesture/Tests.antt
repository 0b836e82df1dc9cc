-- ===== src/Broker/Gesture/Tests.antt =====
-- A store with one session, one grant, and its use.
use q_browser.Base.{◌+◌, true, false, none, some, [], ◌∷◌, ◌≡◌, refl, arith, ltb, ◌&&◌}
use q_browser.Base.Int.{pos}
use q_browser.Base.Text.{Text, codes, text_eq}
use q_browser.Base.Assoc.{lookup, insert, keep, map_values, total}
use q_browser.Broker.Gesture.{
  UserGestureSharedState, UserGestureSession, UserGestureGrant, open_with, issue_with, valid_token,
  create, open_session, purge_session, purge_expired, record_count, active_count, has_request,
  may_issue, issue_found, issue_locked, issue, try_issue, consume, step, run, refers,
  consume_session,
}
use q_browser.Broker.Gesture.Consume.{holds, consume_exact, consume_once, consume-issue}
use q_browser.Broker.Gesture.Invariant.{IsValid, run_new_store-IsValid}
use q_browser.Broker.Gesture.Replay.{no_replay}

abbrev app : Text
app = codes "com.qbrowser.pilot"

abbrev request : Text
request = codes "req-1"

abbrev session : UserGestureSession
session = record { state = some 7; session_id = 1 }

abbrev grant : UserGestureGrant
grant = record {
  state = some 7;
  session_id = 1;
  grant_id = 1;
  app_identity = app;
  request_id = request;
  active = true;
}

abbrev opened : UserGestureSharedState
opened = run (create 7) ((0, open_with app) ∷ [])

abbrev issued : UserGestureSharedState
issued = run (create 7) ((0, open_with app) ∷ (10, issue_with session request (pos 5000)) ∷ [])

issued_grant : (issue opened session request (pos 5000) 10).1 ≡ some grant
unfolding run step create open_session valid_token issue may_issue issue_locked issue_found
    purge_expired map_values lookup insert active_count record_count total has_request purge_session
    keep text_eq
issued_grant = refl

consumed_grant : (consume issued grant app request 100).2 ≡ true
unfolding run step create open_session valid_token issue may_issue issue_locked issue_found
    purge_expired map_values lookup insert active_count record_count total has_request purge_session
    keep text_eq consume consume_session
consumed_grant = refl

issued-IsValid : IsValid issued
issued-IsValid =
    run_new_store-IsValid 7 ((0, open_with app) ∷ (10, issue_with session request (pos 5000)) ∷ [])

run_new_store-IsValid_example : IsValid issued
run_new_store-IsValid_example =
    run_new_store-IsValid 7 ((0, open_with app) ∷ (10, issue_with session request (pos 5000)) ∷ [])

consume_exact_example : (consume issued grant app request 100).2 ≡ (
    refers grant.state issued
    && grant.active
    && text_eq grant.app_identity app
    && text_eq grant.request_id request
    && issued.accepting
    && holds issued grant app request 100)
consume_exact_example = consume_exact issued grant app request 100 issued-IsValid

consume_once_example :
    (consume (consume issued grant app request 100).0 grant app request 200).2 ≡ false
consume_once_example =
    consume_once issued grant grant app request app request 100 200 issued-IsValid consumed_grant
      refl refl

consume-issue_example :
    (consume (issue opened session request (pos 5000) 10).0 grant app request 6000).2
    ≡ ltb 6000 (10 + 5000)
consume-issue_example =
    consume-issue opened session request (pos 5000) 10 6000
      (run_new_store-IsValid 7 ((0, open_with app) ∷ [])) issued_grant

abbrev consumed_then_opened : UserGestureSharedState
consumed_then_opened = run (consume issued grant app request 100).0 ((300, open_with app) ∷ [])

no_replay_example :
    ((issue consumed_then_opened session request (pos 5000) 500).1 ≡ none)
    × ((try_issue true consumed_then_opened session request (pos 5000) 500).1 ≡ none)
unfolding run step create open_session valid_token issue may_issue issue_locked issue_found
    purge_expired map_values lookup insert active_count record_count total has_request purge_session
    keep text_eq
no_replay_example =
    no_replay issued grant session app request 100 500 (pos 5000) ((300, open_with app) ∷ []) true
      issued-IsValid consumed_grant refl (omega arith) (omega arith) (omega arith) (omega arith)
      (omega arith)
