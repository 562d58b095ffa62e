-- ===== src/Session/Manager/Bootstrap.antt =====
-- What a successful bootstrap establishes.
use ssh_ui.Base.{
  ◌≡◌, refl, sym, ap, ◌∷◌, subst, Bool, true, false, Option, none, some, List, [], Bytes, str_eq,
  str_eq_iff, str_eq_refl, if◌then◌else◌, ok, err, Dict, lookup, insert, lookup-insert, ok_eq,
}
use ssh_ui.Session.Manager.{
  Session, Manager, SessionError, Credentials, Outcome, token, reissue_with, reissue, draw_twice,
  admit, bootstrap, authenticate, verify_csrf,
}

-- The session that was made, and what else the manager keeps.
pub record IsAdmitted (hash encode : Bytes → Bytes) (m m' : Manager) (c : Credentials)
    : Type 0 where
  pub used : m'.bootstrap_used ≡ true
  pub authenticated : authenticate hash encode m' c.session_id ≡ true
  pub csrf_accepted : verify_csrf hash encode m' c.session_id c.csrf_token ≡ true
  pub others :
      (k : Bytes)
      → str_eq (hash c.session_id) k ≡ false
      → lookup k m'.sessions ≡ lookup k m.sessions

module _ (hash encode : Bytes → Bytes) where
  lookup-insert_self :
      (k : Bytes) (v : Session) (d : Dict Session) → lookup k (insert k v d) ≡ some v
  lookup-insert_self k v d = rw (lookup-insert, str_eq_refl)

  abbrev Admits : Manager → Credentials → Outcome Credentials → Type 0
  Admits m c o = o.0 ≡ ok c → IsAdmitted hash encode m o.1 c

  authenticate_found :
      (m : Manager) (sid : Bytes) (s : Session)
      → lookup (hash sid) m.sessions ≡ some s
      → authenticate hash encode m sid ≡ true
  unfolding authenticate
  authenticate_found m sid s e = rw (e, authenticate)

  verify_csrf_found :
      (m : Manager) (sid csrf : Bytes) (s : Session)
      → lookup (hash sid) m.sessions ≡ some s
      → s.csrf_hash ≡ hash csrf
      → verify_csrf hash encode m sid csrf ≡ true
  unfolding verify_csrf
  verify_csrf_found m sid csrf s e h = rw (e, verify_csrf) (rw (h, str_eq_refl))

  admit-Admits :
      (m : Manager) (sid : Bytes) (c : Credentials) (t : Option Bytes × List (Option Bytes))
      → Admits m c (admit hash encode m sid t)
  unfolding admit
  admit-Admits m sid c (none, rest) h = absurd (cc)
  admit-Admits m sid c (some csrf, rest) h =
      let s : Session = record { csrf_hash = hash csrf; actions = [] } in
      let m' = (admit hash encode m sid (some csrf, rest)).1 in
      subst (λ x. IsAdmitted hash encode m (admit hash encode m sid (some csrf, rest)).1 x)
        (ok_eq h)
        (record {
          used = refl;
          authenticated = authenticate_found m' sid s (lookup-insert_self (hash sid) s m.sessions);
          csrf_accepted =
              verify_csrf_found m' sid csrf s (lookup-insert_self (hash sid) s m.sessions) refl;
          others = λ k e. rw (lookup-insert, e);
        })

  -- A bootstrap that succeeds was the first use of the token that the manager holds. It makes one
  -- session, whose credentials are accepted, and leaves every other session alone.
  pub bootstrap-IsAdmitted :
      (m : Manager) (presented : Bytes) (c : Credentials)
      → (bootstrap hash encode m presented).0 ≡ ok c
      → (m.bootstrap_used ≡ false)
        × (hash presented ≡ m.bootstrap_hash)
        × IsAdmitted hash encode m (bootstrap hash encode m presented).1 c
  unfolding bootstrap
  bootstrap-IsAdmitted m presented c =
      go m.bootstrap_used (str_eq (hash presented) m.bootstrap_hash) refl refl
    where
      first : (t : Option Bytes × List (Option Bytes)) → Admits m c (draw_twice hash encode m t)
      first (none, rest) h = absurd (cc)
      first (some sid, rest) h = admit-Admits m sid c (token hash encode rest) h

      go :
          (used same : Bool)
          → m.bootstrap_used ≡ used
          → str_eq (hash presented) m.bootstrap_hash ≡ same
          → let o =
              (if used
                then (err SessionError.bootstrap_used, m)
                else if same
                then draw_twice hash encode m (token hash encode m.random)
                else (err SessionError.invalid_bootstrap, m)) in
            o.0 ≡ ok c
            → (m.bootstrap_used ≡ false)
              × (hash presented ≡ m.bootstrap_hash)
              × IsAdmitted hash encode m o.1 c
      go true same e f h = absurd (cc)
      go false true e f h = (
        e,
        (str_eq_iff (hash presented) m.bootstrap_hash).0 f,
        first (token hash encode m.random) h,
      )
      go false false e f h = absurd (cc)

  -- In whatever state the manager is, the token that a reissue gives out admits a browser, when the
  -- next three reads of the random source succeed and nothing happens in between.
  pub bootstrap-reissue :
      (m : Manager) (a b c : Bytes) (rest : List (Option Bytes))
      → m.random ≡ some a ∷ some b ∷ some c ∷ rest
      → (fresh : Bytes) × (credentials : Credentials) × ((reissue hash encode m).0 ≡ ok fresh)
        × ((bootstrap hash encode (reissue hash encode m).1 fresh).0 ≡ ok credentials)
        × IsAdmitted hash encode
            (reissue hash encode m).1
            (bootstrap hash encode (reissue hash encode m).1 fresh).1
            credentials
  unfolding reissue token
  bootstrap-reissue m a b c rest h =
      subst
        (λ (o : Outcome Bytes).
          (fresh : Bytes) × (credentials : Credentials) × (o.0 ≡ ok fresh)
          × ((bootstrap hash encode o.1 fresh).0 ≡ ok credentials)
          × IsAdmitted hash encode o.1 (bootstrap hash encode o.1 fresh).1 credentials)
        (sym (ap (λ r. reissue_with hash encode m (token hash encode r)) h))
        (unfold reissue_with in
          (encode a, made, refl, admitted, (bootstrap-IsAdmitted ready (encode a) made admitted).2))
    where
      ready : Manager
      ready = record m {
        random = some b ∷ some c ∷ rest;
        bootstrap_hash = hash (encode a);
        bootstrap_used = false;
      }

      made : Credentials
      made = record { session_id = encode b; csrf_token = encode c }

      admitted : (bootstrap hash encode ready (encode a)).0 ≡ ok made
      admitted = unfold bootstrap token draw_twice admit in rw (str_eq_refl (hash (encode a))) refl
