-- ===== src/Session/Action.antt =====
-- internal/session/action.go
pub mod Consume
use ssh_ui.Base.{
  ℕ, ◌+◌, ◌*◌, Bool, true, false, not, ◌&&◌, ◌||◌, Option, none, some, List, [], ◌∷◌, Bytes, codes,
  str_eq, ltb, leb, if◌then◌else◌, length, Result, ok, err, Dict, lookup, insert, remove, keep,
  ◌>>=◌, ◌>>◌,
}
use ssh_ui.Session.Manager.{
  ActionRecord, Session, Manager, SessionError, random_failed, invalid_action, action_expired,
  unknown_session, too_many_actions, Outcome, token,
}

-- two minutes, in nanoseconds
abbrev pub action_token_ttl : ℕ
action_token_ttl = 120 * 1000000000

abbrev pub max_action_tokens : ℕ
max_action_tokens = 32

pub record ActionRequest : Type 0 where
  pub kind : Bytes
  pub target : Bytes
  pub evidence : Bytes

unfoldable pub known_action_kind : Bytes → Bool
known_action_kind kind =
    str_eq kind (codes "diagnostics.evaluate")
    || str_eq kind (codes "diagnostics.reachability")
    || str_eq kind (codes "diagnostics.authentication")
    || str_eq kind (codes "terminal.launch")
    || str_eq kind (codes "known_hosts.delete")
    || str_eq kind (codes "known_hosts.scan")
    || str_eq kind (codes "known_hosts.add")
    || str_eq kind (codes "remote_key.register")
    || str_eq kind (codes "private_key.reveal")
    || str_eq kind (codes "trash.purge")

-- `now.After(record.expiresAt)`
unfoldable pub is_expired : ℕ → ActionRecord → Bool
is_expired now r = ltb r.expires_at now

unfoldable pub expire : ℕ → Session → Session
unfolding is_expired
expire now s = record s { actions = keep (λ r. not (is_expired now r)) s.actions }

-- the four comparisons, every one of them made
unfoldable pub matches : Bytes → ActionRecord → ActionRequest → Bool
matches presented_hash r request =
    str_eq presented_hash r.token_hash
    && str_eq r.kind request.kind
    && str_eq r.target request.target
    && str_eq r.evidence request.evidence

module _ (hash encode : Bytes → Bytes) where
  abbrev pub write_back : Manager → Bytes → Session → Manager
  write_back m sid s = record m { sessions = insert (hash sid) s m.sessions }

  unfoldable pub store_action :
      ℕ
      → Manager
      → Bytes
      → Session
      → ActionRequest
      → Option Bytes × List (Option Bytes)
      → Outcome Bytes
  store_action now m sid s request (none, rest) =
      (err random_failed, write_back (record m { random = rest }) sid s)
  store_action now m sid s request (some value, rest) = (
    ok value,
    write_back (record m { random = rest }) sid
        (record s {
          actions =
              insert (hash value)
                (record {
                  token_hash = hash value;
                  kind = request.kind;
                  target = request.target;
                  evidence = request.evidence;
                  expires_at = now + action_token_ttl;
                })
                s.actions;
        }),
  )

  -- in a session whose expired confirmations are gone
  unfoldable pub issue_live : ℕ → Manager → Bytes → Session → ActionRequest → Outcome Bytes
  issue_live now m sid s request =
      if leb max_action_tokens (length s.actions)
      then (err too_many_actions, write_back m sid s)
      else store_action now m sid s request (token hash encode m.random)

  unfoldable pub issue_found : ℕ → Manager → Bytes → Option Session → ActionRequest → Outcome Bytes
  issue_found now m sid none request = (err unknown_session, m)
  issue_found now m sid (some s) request = issue_live now m sid (expire now s) request

  unfoldable pub issue_action : ℕ → Manager → Bytes → ActionRequest → Outcome Bytes
  unfolding issue_found issue_live store_action expire token
  issue_action now m sid request =
      if not (known_action_kind request.kind) || str_eq request.target []
      then (err invalid_action, m)
      else issue_found now m sid (lookup (hash sid) m.sessions) request

  -- the record has been taken out of the session before it is looked at
  unfoldable pub judge : ℕ → Bytes → ActionRecord → ActionRequest → Result SessionError (Unit {0})
  judge now presented_hash r request =
      if is_expired now r
      then err action_expired
      else if matches presented_hash r request
      then ok tt
      else err invalid_action

  unfoldable pub consume_record :
      ℕ
      → Manager
      → Bytes
      → Session
      → Bytes
      → ActionRequest
      → Option ActionRecord
      → Outcome (Unit {0})
  consume_record now m sid s presented_hash request none = (err invalid_action, m)
  consume_record now m sid s presented_hash request (some r) = (
    judge now presented_hash r request,
    write_back m sid (expire now (record s { actions = remove presented_hash s.actions })),
  )

  unfoldable pub consume_found :
      ℕ → Manager → Bytes → Option Session → Bytes → ActionRequest → Outcome (Unit {0})
  consume_found now m sid none presented_hash request = (err unknown_session, m)
  consume_found now m sid (some s) presented_hash request =
      consume_record now m sid s presented_hash request (lookup presented_hash s.actions)

  unfoldable pub consume_action : ℕ → Manager → Bytes → Bytes → ActionRequest → Outcome (Unit {0})
  unfolding consume_found consume_record judge expire
  consume_action now m sid presented request =
      consume_found now m sid (lookup (hash sid) m.sessions) (hash presented) request
