-- ===== src/Session/Confirm.antt =====
-- From the issue of a confirmation to its use.
use ssh_ui.Base.{
  ℕ, ◌+◌, ◌≤◌, ◌<◌, ◌≡◌, ◌↔◌, sym, ap, subst, ◌∙◌, Bool, true, false, not, ◌||◌, Option, none, some,
  List, [], Bytes, str_eq, if◌then◌else◌, length, ok, err, lookup, insert, arith, leb, ltb, some_eq,
  ok_eq,
}
use ssh_ui.Session.Manager.{ActionRecord, Session, Manager, SessionError, Outcome, token}
use ssh_ui.Session.Action.{
  ActionRequest, max_action_tokens, action_token_ttl, is_expired, expire, known_action_kind,
  issue_action, consume_action, store_action, issue_live, issue_found, consume_found,
  consume_record, judge, write_back,
}
use ssh_ui.Session.Action.Consume.{AllSound, IsConfirmed, consume_action_iff, lookup-insert_self}
use ssh_ui.Session.Reach.{issue-AllSound}

abbrev issued : ℕ → Bytes → ActionRequest → ActionRecord
issued now key request = record {
  token_hash = key;
  kind = request.kind;
  target = request.target;
  evidence = request.evidence;
  expires_at = now + action_token_ttl;
}

-- The session of the manager holds the confirmation.
record Holds (m : Manager) (key value : Bytes) (a : ActionRecord) : Type 0 where
  session : Session
  in_manager : lookup key m.sessions ≡ some session
  in_session : lookup value session.actions ≡ some a

same_request :
    (a b : ActionRequest) → a.kind ≡ b.kind → a.target ≡ b.target → a.evidence ≡ b.evidence → a ≡ b
same_request a b p q r = λ i. record { kind = p i; target = q i; evidence = r i }

module _ (hash encode : Bytes → Bytes) where
  abbrev Gives : ℕ → Bytes → ActionRequest → Bytes → Outcome Bytes → Type 0
  Gives now sid request value o =
      o.0 ≡ ok value → Holds o.1 (hash sid) (hash value) (issued now (hash value) request)

  issue-Holds :
      (now : ℕ) (m : Manager) (sid : Bytes) (request : ActionRequest) (value : Bytes)
      → Gives now sid request value (issue_action hash encode now m sid request)
  unfolding issue_action
  issue-Holds now m sid request value =
      checked (not (known_action_kind request.kind) || str_eq request.target [])
    where
      drawn :
          (s : Session) (t : Option Bytes × List (Option Bytes))
          → Gives now sid request value (store_action hash encode now m sid s request t)
      drawn s (none, rest) h = absurd (cc)
      drawn s (some v, rest) h =
          let e : v ≡ value = ok_eq h in
          subst
            (λ x.
              Holds (store_action hash encode now m sid s request (some v, rest)).1 (hash sid)
                (hash x) (issued now (hash x) request))
            e
            (record {
              session = record s {
                actions = insert (hash v) (issued now (hash v) request) s.actions;
              };
              in_manager = lookup-insert_self (hash sid) _ m.sessions;
              in_session = lookup-insert_self (hash v) (issued now (hash v) request) s.actions;
            })

      live :
          (s : Session) → Gives now sid request value (issue_live hash encode now m sid s request)
      live s = go (leb max_action_tokens (length s.actions))
        where
          go :
              (b : Bool)
              → Gives now sid request value (
                  if b
                  then (err SessionError.too_many_actions, write_back hash encode m sid s)
                  else store_action hash encode now m sid s request (token hash encode m.random))
          go true h = absurd (cc)
          go false h = drawn s (token hash encode m.random) h

      found :
          (o : Option Session)
          → Gives now sid request value (issue_found hash encode now m sid o request)
      found none h = absurd (cc)
      found (some s) h = live (expire now s) h

      checked :
          (b : Bool)
          → Gives now sid request value (
              if b
              then (err SessionError.invalid_action, m)
              else issue_found hash encode now m sid (lookup (hash sid) m.sessions) request)
      checked true h = absurd (cc)
      checked false h = found (lookup (hash sid) m.sessions) h

  -- In a manager that satisfies the invariant, a token that was issued for a request, when it is
  -- presented in the same session before it expires and nothing else was called in between, is
  -- accepted for exactly that request.
  pub consume_action-issue_action :
      (now later : ℕ) (m : Manager) (sid value : Bytes) (request presented : ActionRequest)
      → AllSound m
      → (issue_action hash encode now m sid request).0 ≡ ok value
      → later ≤ now + action_token_ttl
      → ((consume_action hash encode later
            (issue_action hash encode now m sid request).1
            sid
            value
            presented).0
          ≡ ok tt)
        ↔ (presented ≡ request)
  consume_action-issue_action now later m sid value request presented sound e t =
      let m' = (issue_action hash encode now m sid request).1 in
      let held = issue-Holds now m sid request value e in
      let iff =
        consume_action_iff hash encode later m' sid value presented
          (issue-AllSound hash encode now m sid request sound) in
      (λ h. only held (iff.0 h), λ p. iff.1 (confirmed held p))
    where
      confirmed :
          Holds
            (issue_action hash encode now m sid request).1
            (hash sid)
            (hash value)
            (issued now (hash value) request)
          → presented ≡ request
          → IsConfirmed hash encode later
              (issue_action hash encode now m sid request).1
              sid
              value
              presented
      confirmed held p = record {
        session = held.session;
        action = issued now (hash value) request;
        in_manager = held.in_manager;
        in_session = held.in_session;
        in_time = t;
        same_kind = ap (λ (x : ActionRequest). x.kind) (sym p);
        same_target = ap (λ (x : ActionRequest). x.target) (sym p);
        same_evidence = ap (λ (x : ActionRequest). x.evidence) (sym p);
      }

      only :
          Holds
            (issue_action hash encode now m sid request).1
            (hash sid)
            (hash value)
            (issued now (hash value) request)
          → IsConfirmed hash encode later
              (issue_action hash encode now m sid request).1
              sid
              value
              presented
          → presented ≡ request
      only held c =
          let s = some_eq (sym held.in_manager ∙ c.in_manager) in
          let a = some_eq (
            sym held.in_session
            ∙ subst (λ (x : Session). lookup (hash value) x.actions ≡ some c.action) (sym s)
                c.in_session) in
          same_request presented request
            (sym c.same_kind ∙ ap (λ (x : ActionRecord). x.kind) (sym a))
            (sym c.same_target ∙ ap (λ (x : ActionRecord). x.target) (sym a))
            (sym c.same_evidence ∙ ap (λ (x : ActionRecord). x.evidence) (sym a))

  -- A token that is presented in its session after its two minutes are over, when nothing else
  -- was called since its issue, is refused as expired, whatever it is presented for.
  pub consume_action-expired :
      (now later : ℕ) (m : Manager) (sid value : Bytes) (request presented : ActionRequest)
      → (issue_action hash encode now m sid request).0 ≡ ok value
      → now + action_token_ttl < later
      → (consume_action hash encode later
          (issue_action hash encode now m sid request).1
          sid
          value
          presented).0
        ≡ err SessionError.action_expired
  unfolding consume_action consume_found consume_record judge is_expired
  consume_action-expired now later m sid value request presented e t =
      let held = issue-Holds now m sid request value e in
      let late : ltb (now + action_token_ttl) later ≡ true = ground arith in
      rw (held.in_manager, held.in_session, late)
