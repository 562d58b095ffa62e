-- ===== src/Tests/Session.antt =====
-- internal/session, at concrete inputs. The hash and the encoding of the tests leave a text as it is.
use ssh_ui.Base.{
  ◌≡◌, ◌↔◌, refl, true, false, some, List, [], ◌∷◌, Bytes, codes, arith, ok, err, lookup, insert,
  str_eq, keep,
}
use ssh_ui.Session.Manager.{Manager, SessionError, Credentials, bootstrap, reissue, token}
use ssh_ui.Session.Manager.Bootstrap.{IsAdmitted, bootstrap-IsAdmitted, bootstrap-reissue}
use ssh_ui.Session.Action.{ActionRequest, issue_action, consume_action, known_action_kind}
use ssh_ui.Session.Action.Consume.{AllSound, Refuses, IsConfirmed, consume_action_iff}
use ssh_ui.Session.Confirm.{consume_action-issue_action, consume_action-expired}
use ssh_ui.Session.Reach.{Call, renew_call, issue_call, consume_call, run, run-AllSound}
use ssh_ui.Session.Reach.Burnt.{consume_action_once}
use ssh_ui.Session.Reach.Once.{bootstrap_once}

abbrev same : Bytes → Bytes
same b = b

abbrev started : Manager
started = record {
  random = some (codes "s") ∷ some (codes "c") ∷ some (codes "t") ∷ [];
  bootstrap_hash = codes "b";
  bootstrap_used = false;
  sessions = [];
}

abbrev one_session : Manager
one_session = record {
  random = some (codes "t") ∷ [];
  bootstrap_hash = codes "b";
  bootstrap_used = true;
  sessions = (codes "s", record { csrf_hash = codes "c"; actions = [] }) ∷ [];
}

abbrev purge : ActionRequest
purge = record { kind = codes "trash.purge"; target = codes "key"; evidence = codes "e" }

started-AllSound : AllSound started
started-AllSound k s e = absurd (unfold lookup in cc)

abbrev calls : List Call
calls = Call.bootstrap_call (codes "b") ∷ issue_call 5 (codes "s") purge ∷ []

one_session-AllSound : AllSound one_session
unfolding run bootstrap str_eq token insert
one_session-AllSound =
    run-AllSound same same started (Call.bootstrap_call (codes "b") ∷ []) started-AllSound

bootstrap-runs :
    (bootstrap same same started (codes "b")).0
    ≡ ok (record { session_id = codes "s"; csrf_token = codes "c" })
unfolding bootstrap str_eq token
bootstrap-runs = refl

issue_action-runs : (issue_action same same 5 one_session (codes "s") purge).0 ≡ ok (codes "t")
unfolding issue_action str_eq token lookup known_action_kind keep
issue_action-runs = refl

run-AllSound_example : AllSound (run same same started calls)
run-AllSound_example = run-AllSound same same started calls started-AllSound

abbrev in_between : List Call
in_between = renew_call (codes "s") ∷ consume_call 7 (codes "s") (codes "u") purge ∷ []

consume_action_once_example :
    Refuses
      (consume_action same same 9
        (run same same
          (consume_action same same 6 (run same same started calls) (codes "s") (codes "t") purge).1
          in_between)
        (codes "s")
        (codes "t")
        purge).0
consume_action_once_example =
    consume_action_once same same 6 9 (run same same started calls) (codes "s") (codes "t") purge
      purge in_between run-AllSound_example (tt, (tt, tt))

consume_action_iff_example :
    ((consume_action same same 6 (run same same started calls) (codes "s") (codes "t") purge).0
      ≡ ok tt)
    ↔ IsConfirmed same same 6 (run same same started calls) (codes "s") (codes "t") purge
consume_action_iff_example =
    consume_action_iff same same 6 (run same same started calls) (codes "s") (codes "t") purge
      run-AllSound_example

consume_action-issue_action_example :
    ((consume_action same same 6
        (issue_action same same 5 one_session (codes "s") purge).1
        (codes "s")
        (codes "t")
        purge).0
      ≡ ok tt)
    ↔ (purge ≡ purge)
consume_action-issue_action_example =
    consume_action-issue_action same same 5 6 one_session (codes "s") (codes "t") purge purge
      one_session-AllSound issue_action-runs (omega arith)

consume_action-expired_example :
    (consume_action same same 120000000006
      (issue_action same same 5 one_session (codes "s") purge).1
      (codes "s")
      (codes "t")
      purge).0
    ≡ err SessionError.action_expired
consume_action-expired_example =
    consume_action-expired same same 5 120000000006 one_session (codes "s") (codes "t") purge purge
      issue_action-runs (omega arith)

bootstrap_once_example :
    (bootstrap same same
      (run same same (bootstrap same same started (codes "b")).1 (renew_call (codes "s") ∷ []))
      (codes "b")).0
    ≡ err SessionError.bootstrap_used
bootstrap_once_example =
    bootstrap_once same same started (codes "b") (codes "b")
      (record { session_id = codes "s"; csrf_token = codes "c" }) (renew_call (codes "s") ∷ [])
      bootstrap-runs (tt, tt)

bootstrap-IsAdmitted_example :
    (false ≡ false)
    × (codes "b" ≡ codes "b")
    × IsAdmitted same same started
        (bootstrap same same started (codes "b")).1
        (record { session_id = codes "s"; csrf_token = codes "c" })
bootstrap-IsAdmitted_example =
    bootstrap-IsAdmitted same same started (codes "b")
      (record { session_id = codes "s"; csrf_token = codes "c" }) bootstrap-runs

-- the browser has been admitted once
abbrev admitted_once : Manager
admitted_once = record {
  random = some (codes "t") ∷ some (codes "u") ∷ some (codes "v") ∷ [];
  bootstrap_hash = codes "b";
  bootstrap_used = true;
  sessions = (codes "s", record { csrf_hash = codes "c"; actions = [] }) ∷ [];
}

bootstrap-reissue_example :
    (fresh : Bytes) × (credentials : Credentials) × ((reissue same same admitted_once).0 ≡ ok fresh)
    × ((bootstrap same same (reissue same same admitted_once).1 fresh).0 ≡ ok credentials)
    × IsAdmitted same same
        (reissue same same admitted_once).1
        (bootstrap same same (reissue same same admitted_once).1 fresh).1
        credentials
bootstrap-reissue_example =
    bootstrap-reissue same same admitted_once (codes "t") (codes "u") (codes "v") [] refl
