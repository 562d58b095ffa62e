-- ===== src/Session/Manager.antt =====
-- internal/session/manager.go
pub mod Bootstrap
use ssh_ui.Base.{
  ℕ, zero, suc, Bool, true, false, not, ◌&&◌, Option, none, some, List, [], ◌∷◌, ◌++◌, Bytes,
  str_eq, if◌then◌else◌, Result, ok, err, Dict, lookup, insert,
}

pub record ActionRecord : Type 0 where
  pub token_hash : Bytes
  pub kind : Bytes
  pub target : Bytes
  pub evidence : Bytes
  pub expires_at : ℕ

-- A session and the confirmations that wait in it. The source shares the map of confirmations
-- between the copies of a session; here a change of it writes the session back.
pub record Session : Type 0 where
  pub csrf_hash : Bytes
  pub actions : Dict ActionRecord

pub record Manager : Type 0 where
  pub random : List (Option Bytes)
  pub bootstrap_hash : Bytes
  pub bootstrap_used : Bool
  pub sessions : Dict Session

pub data SessionError : Type 0 where
  invalid_bootstrap bootstrap_used random_failed : SessionError
  invalid_action action_expired unknown_session too_many_actions : SessionError

pub record Credentials : Type 0 where
  pub session_id : Bytes
  pub csrf_token : Bytes

-- A method returns its result and the manager that it leaves.
abbrev pub Outcome : Type 0 → Type 0
Outcome A = Result SessionError A × Manager

module _ (hash encode : Bytes → Bytes) where
  -- `token`: the next read of the source, encoded
  unfoldable pub token : List (Option Bytes) → Option Bytes × List (Option Bytes)
  token [] = (none, [])
  token (none ∷ rest) = (none, rest)
  token (some raw ∷ rest) = (some (encode raw), rest)

  unfoldable pub start_with :
      Option Bytes × List (Option Bytes) → Result SessionError (Manager × Bytes)
  start_with (none, rest) = err random_failed
  start_with (some fresh, rest) = ok (
    record { random = rest; bootstrap_hash = hash fresh; bootstrap_used = false; sessions = [] },
    fresh,
  )

  unfoldable pub new_manager : List (Option Bytes) → Result SessionError (Manager × Bytes)
  unfolding start_with token
  new_manager random = start_with (token random)

  unfoldable pub reissue_with : Manager → Option Bytes × List (Option Bytes) → Outcome Bytes
  reissue_with m (none, rest) = (err random_failed, record m { random = rest })
  reissue_with m (some fresh, rest) =
      (ok fresh, record m { random = rest; bootstrap_hash = hash fresh; bootstrap_used = false })

  unfoldable pub reissue : Manager → Outcome Bytes
  unfolding reissue_with token
  reissue m = reissue_with m (token m.random)

  -- behind the two draws of `Bootstrap`
  unfoldable pub admit : Manager → Bytes → Option Bytes × List (Option Bytes) → Outcome Credentials
  admit m session_id (none, rest) = (err random_failed, record m { random = rest })
  admit m session_id (some csrf, rest) = (
    ok (record { session_id = session_id; csrf_token = csrf }),
    record m {
      random = rest;
      bootstrap_used = true;
      sessions =
          insert (hash session_id) (record { csrf_hash = hash csrf; actions = [] }) m.sessions;
    },
  )

  unfoldable pub draw_twice : Manager → Option Bytes × List (Option Bytes) → Outcome Credentials
  draw_twice m (none, rest) = (err random_failed, record m { random = rest })
  draw_twice m (some session_id, rest) = admit m session_id (token rest)

  unfoldable pub bootstrap : Manager → Bytes → Outcome Credentials
  unfolding draw_twice admit token
  bootstrap m presented =
      if m.bootstrap_used
      then (err SessionError.bootstrap_used, m)
      else if str_eq (hash presented) m.bootstrap_hash
      then draw_twice m (token m.random)
      else (err invalid_bootstrap, m)

  unfoldable pub renew_with :
      Manager → Bytes → Session → Option Bytes × List (Option Bytes) → Option Bytes × Manager
  renew_with m key existing (none, rest) = (none, record m { random = rest })
  renew_with m key existing (some csrf, rest) = (
    some csrf,
    record m {
      random = rest;
      sessions = insert key (record existing { csrf_hash = hash csrf }) m.sessions;
    },
  )

  unfoldable pub renew_found : Manager → Bytes → Option Session → Option Bytes × Manager
  renew_found m key none = (none, m)
  renew_found m key (some existing) = renew_with m key existing (token m.random)

  -- `none` is `("", false)`
  unfoldable pub renew_csrf : Manager → Bytes → Option Bytes × Manager
  unfolding renew_found renew_with token
  renew_csrf m session_id = renew_found m (hash session_id) (lookup (hash session_id) m.sessions)

  unfoldable pub authenticate : Manager → Bytes → Bool
  authenticate m session_id = elim (lookup (hash session_id) m.sessions) [
    | none ↦ false
    | some _ ↦ true
  ]

  unfoldable pub verify_csrf : Manager → Bytes → Bytes → Bool
  verify_csrf m session_id csrf = elim (lookup (hash session_id) m.sessions) [
    | none ↦ false
    | some s ↦ str_eq (hash csrf) s.csrf_hash
  ]
