-- ===== src/Session/Action/Consume.antt =====
-- internal/session/action.go: the invariant of a session, and the use of a confirmation.
use ssh_ui.Base.{
  ℕ, ◌≤◌, ◌≡◌, ◌⊎◌, ◌↔◌, refl, sym, false, Option, none, some, Bytes, str_eq_iff, length, Result,
  ok, err, Dict, lookup, insert, lookup-insert, IsMap, arith, ltb, str_eq_refl,
}
use ssh_ui.Session.Manager.{
  ActionRecord, Session, Manager, SessionError, invalid_action, unknown_session,
}
use ssh_ui.Session.Action.{
  ActionRequest, max_action_tokens, is_expired, matches, consume_action, consume_found,
  consume_record, judge,
}

-- What the methods keep true of a session: each confirmation stands once, under the hash of its
-- own token, and there are at most as many as the limit allows.
pub record IsSound (s : Session) : Type 0 where
  pub is_map : IsMap s.actions
  pub bounded : length s.actions ≤ max_action_tokens
  pub keyed : (k : Bytes) (r : ActionRecord) → lookup k s.actions ≡ some r → r.token_hash ≡ k

-- all sessions of a manager are sound
abbrev pub SoundIn : Dict Session → Type 0
SoundIn sessions = (k : Bytes) (s : Session) → lookup k sessions ≡ some s → IsSound s

abbrev pub AllSound : Manager → Type 0
AllSound m = SoundIn m.sessions

pub lookup-insert_self :
    {V : Type 0} (k : Bytes) (v : V) (d : Dict V) → lookup k (insert k v d) ≡ some v
lookup-insert_self k v d = rw (lookup-insert, str_eq_refl)

-- Neither error that the second use of a token can meet says anything of the token.
abbrev pub Refuses : Result SessionError (Unit {0}) → Type 0
Refuses r = (r ≡ err invalid_action) ⊎ (r ≡ err unknown_session)

module _ (hash encode : Bytes → Bytes) where
  pub consume-absent :
      (now : ℕ) (m : Manager) (sid presented : Bytes) (request : ActionRequest) (s : Session)
      → lookup (hash sid) m.sessions ≡ some s
      → lookup (hash presented) s.actions ≡ none
      → (consume_action hash encode now m sid presented request).0 ≡ err invalid_action
  unfolding consume_action
  consume-absent now m sid presented request s e f = rw (e, f)

  pub consume-unknown :
      (now : ℕ) (m : Manager) (sid presented : Bytes) (request : ActionRequest)
      → lookup (hash sid) m.sessions ≡ none
      → (consume_action hash encode now m sid presented request).0 ≡ err unknown_session
  unfolding consume_action
  consume-unknown now m sid presented request e = rw e

  -- The confirmation that a token stands for, in a session, at a time.
  pub record IsConfirmed (now : ℕ) (m : Manager) (sid presented : Bytes) (request : ActionRequest)
      : Type 0 where
    pub session : Session
    pub action : ActionRecord
    pub in_manager : lookup (hash sid) m.sessions ≡ some session
    pub in_session : lookup (hash presented) session.actions ≡ some action
    pub in_time : now ≤ action.expires_at
    pub same_kind : action.kind ≡ request.kind
    pub same_target : action.target ≡ request.target
    pub same_evidence : action.evidence ≡ request.evidence

  judge-ok :
      (now : ℕ) (k : Bytes) (r : ActionRecord) (request : ActionRequest)
      → judge hash encode now k r request ≡ ok tt
      → (now ≤ r.expires_at)
        × (r.kind ≡ request.kind)
        × (r.target ≡ request.target)
        × (r.evidence ≡ request.evidence)
  unfolding judge is_expired matches
  judge-ok now k r request h = ground (
    arith,
    str_eq_iff r.kind request.kind,
    str_eq_iff r.target request.target,
    str_eq_iff r.evidence request.evidence,
  )

  ok-judge :
      (now : ℕ) (k : Bytes) (r : ActionRecord) (request : ActionRequest)
      → r.token_hash ≡ k
      → now ≤ r.expires_at
      → r.kind ≡ request.kind
      → r.target ≡ request.target
      → r.evidence ≡ request.evidence
      → judge hash encode now k r request ≡ ok tt
  unfolding judge is_expired matches
  ok-judge now k r request t n a b c =
      let fresh : ltb r.expires_at now ≡ false = ground arith in
      rw (
        fresh,
        (str_eq_iff k r.token_hash).1 (sym t),
        (str_eq_iff r.kind request.kind).1 a,
        (str_eq_iff r.target request.target).1 b,
        (str_eq_iff r.evidence request.evidence).1 c,
      )

  -- In a manager that satisfies the invariant, `ConsumeAction` succeeds exactly for a token that waits in the session, in time, with the
  -- kind, the target and the evidence of the operation.
  pub consume_action_iff :
      (now : ℕ) (m : Manager) (sid presented : Bytes) (request : ActionRequest)
      → AllSound m
      → ((consume_action hash encode now m sid presented request).0 ≡ ok tt)
        ↔ IsConfirmed now m sid presented request
  unfolding consume_action consume_found consume_record
  consume_action_iff now m sid presented request sound =
      (forth (lookup (hash sid) m.sessions) refl, back)
    where
      with_record :
          (s : Session)
          → lookup (hash sid) m.sessions ≡ some s
          → (o : Option ActionRecord) → lookup (hash presented) s.actions ≡ o
          → (consume_record hash encode now m sid s (hash presented) request o).0 ≡ ok tt
          → IsConfirmed now m sid presented request
      with_record s e none f h = absurd (cc)
      with_record s e (some r) f h =
          let (t, a, b, c) = judge-ok now (hash presented) r request h in
          record {
            session = s;
            action = r;
            in_manager = e;
            in_session = f;
            in_time = t;
            same_kind = a;
            same_target = b;
            same_evidence = c;
          }

      forth :
          (o : Option Session)
          → lookup (hash sid) m.sessions ≡ o
          → (consume_found hash encode now m sid o (hash presented) request).0 ≡ ok tt
          → IsConfirmed now m sid presented request
      forth none e h = absurd (cc)
      forth (some s) e h = with_record s e (lookup (hash presented) s.actions) refl h

      back :
          IsConfirmed now m sid presented request
          → (consume_found hash encode now m sid
              (lookup (hash sid) m.sessions)
              (hash presented)
              request).0
            ≡ ok tt
      back c =
          rw (c.in_manager, c.in_session)
            (ok-judge now (hash presented) c.action request
              ((sound (hash sid) c.session c.in_manager).keyed (hash presented) c.action
                c.in_session)
              c.in_time c.same_kind c.same_target c.same_evidence)
