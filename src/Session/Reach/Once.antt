-- ===== src/Session/Reach/Once.antt =====
-- internal/session: the one use of a bootstrap token.
use ssh_ui.Base.{
  All, ◌≡◌, Bool, true, false, not, ◌||◌, Option, none, some, List, [], ◌∷◌, Bytes, str_eq,
  if◌then◌else◌, length, ok, err, lookup, leb,
}
use ssh_ui.Session.Manager.{
  ActionRecord, Session, Manager, SessionError, token, bootstrap, Credentials, renew_csrf,
  renew_with, renew_found,
}
use ssh_ui.Session.Action.{
  max_action_tokens, expire, issue_action, consume_action, write_back, known_action_kind,
  store_action, issue_found, consume_record, consume_found,
}
use ssh_ui.Session.Manager.Bootstrap.{bootstrap-IsAdmitted}
use ssh_ui.Session.Reach.{
  Call, reissue_call, bootstrap_call, renew_call, issue_call, consume_call, step, run,
}

-- A call that gives out no new bootstrap token.
abbrev pub IsOther : Call → Type 0
IsOther reissue_call = ⊥
IsOther _ = Unit

module _ (hash encode : Bytes → Bytes) where
  step-used :
      (m : Manager) (c : Call)
      → IsOther c
      → m.bootstrap_used ≡ true
      → (step hash encode m c).bootstrap_used ≡ true
  unfolding step bootstrap renew_csrf issue_action consume_action
  step-used m reissue_call h u = absurd h
  step-used m (bootstrap_call p) h u = rw u
  step-used m (renew_call sid) h u = found (lookup (hash sid) m.sessions)
    where
      drawn :
          (s : Session) (t : Option Bytes × List (Option Bytes))
          → (renew_with hash encode m (hash sid) s t).1.bootstrap_used ≡ true
      drawn s (none, rest) = u
      drawn s (some csrf, rest) = u

      found :
          (o : Option Session) → (renew_found hash encode m (hash sid) o).1.bootstrap_used ≡ true
      found none = u
      found (some s) = drawn s (token hash encode m.random)
  step-used m (issue_call now sid r) h u =
      checked (not (known_action_kind r.kind) || str_eq r.target [])
    where
      drawn :
          (s : Session) (t : Option Bytes × List (Option Bytes))
          → (store_action hash encode now m sid s r t).1.bootstrap_used ≡ true
      drawn s (none, rest) = u
      drawn s (some v, rest) = u

      live :
          (s : Session) (b : Bool)
          → (if b
              then (err SessionError.too_many_actions, write_back hash encode m sid s)
              else store_action hash encode now m sid s r
                  (token hash encode m.random)).1.bootstrap_used
            ≡ true
      live s true = u
      live s false = drawn s (token hash encode m.random)

      found : (o : Option Session) → (issue_found hash encode now m sid o r).1.bootstrap_used ≡ true
      found none = u
      found (some s) = live (expire now s) (leb max_action_tokens (length (expire now s).actions))

      checked :
          (b : Bool)
          → (if b
              then (err SessionError.invalid_action, m)
              else issue_found hash encode now m sid
                  (lookup (hash sid) m.sessions)
                  r).1.bootstrap_used
            ≡ true
      checked true = u
      checked false = found (lookup (hash sid) m.sessions)
  step-used m (consume_call now sid p r) h u = found (lookup (hash sid) m.sessions)
    where
      taken :
          (s : Session) (o : Option ActionRecord)
          → (consume_record hash encode now m sid s (hash p) r o).1.bootstrap_used ≡ true
      taken s none = u
      taken s (some x) = u

      found :
          (o : Option Session)
          → (consume_found hash encode now m sid o (hash p) r).1.bootstrap_used ≡ true
      found none = u
      found (some s) = taken s (lookup (hash p) s.actions)

  run-used :
      (m : Manager) (cs : List Call)
      → All IsOther cs
      → m.bootstrap_used ≡ true
      → (run hash encode m cs).bootstrap_used ≡ true
  unfolding run
  run-used m [] h u = u
  run-used m (c ∷ cs) h u = run-used (step hash encode m c) cs h.1 (step-used m c h.0 u)

  -- After a bootstrap has succeeded no other bootstrap does, whatever is presented and whatever
  -- the methods do in between, until a new token is given out.
  pub bootstrap_once :
      (m : Manager) (first again : Bytes) (c : Credentials) (cs : List Call)
      → (bootstrap hash encode m first).0 ≡ ok c
      → All IsOther cs
      → (bootstrap hash encode (run hash encode (bootstrap hash encode m first).1 cs) again).0
        ≡ err SessionError.bootstrap_used
  bootstrap_once m first again c cs e h =
      let used = (bootstrap-IsAdmitted hash encode m first c e).2.used in
      refused (run hash encode (bootstrap hash encode m first).1 cs) (run-used _ cs h used)
    where
      refused :
          (m' : Manager)
          → m'.bootstrap_used ≡ true
          → (bootstrap hash encode m' again).0 ≡ err SessionError.bootstrap_used
      refused m' u = unfold bootstrap in rw u
