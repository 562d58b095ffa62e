-- ===== src/Session/Reach/Burnt.antt =====
-- internal/session/action.go: the one use of a confirmation, whatever is called in between.
use ssh_ui.Base.{
  inl, inr, All, ℕ, ◌≡◌, refl, sym, subst, ◌∙◌, Bool, true, false, not, Option, none, some, List,
  [], ◌∷◌, Bytes, str_eq, str_eq_iff, str_eq_refl, if◌then◌else◌, err, Dict, lookup, insert, remove,
  lookup-insert, lookup-remove, lookup-keep, remove-IsMap, some_eq,
}
use ssh_ui.Session.Manager.{
  ActionRecord, Session, Manager, SessionError, token, reissue, bootstrap, renew_csrf, reissue_with,
  admit, draw_twice, renew_with, renew_found,
}
use ssh_ui.Session.Action.{
  ActionRequest, is_expired, expire, consume_action, consume_record, consume_found,
}
use ssh_ui.Session.Action.Consume.{
  IsSound, AllSound, lookup-insert_self, Refuses, consume-absent, consume-unknown,
}
use ssh_ui.Session.Reach.{
  Call, reissue_call, bootstrap_call, renew_call, issue_call, consume_call, step, step-AllSound,
  run, consume-AllSound,
}

-- A call that gives out no confirmation.
abbrev pub IsNoIssue : Call → Type 0
IsNoIssue (issue_call now sid request) = ⊥
IsNoIssue _ = Unit

-- under a key, no session of the map has a confirmation of the hash
abbrev GoneIn : Bytes → Bytes → Dict Session → Type 0
GoneIn key hashed sessions =
    (s : Session) → lookup key sessions ≡ some s → lookup hashed s.actions ≡ none

put-GoneIn :
    (key hashed k : Bytes) (s : Session) (d : Dict Session)
    → GoneIn key hashed d
    → (k ≡ key → lookup hashed s.actions ≡ none)
    → GoneIn key hashed (insert k s d)
put-GoneIn key hashed k s d h hs x p = go (str_eq k key) refl (sym (lookup-insert k key s d) ∙ p)
  where
    go :
        (b : Bool)
        → str_eq k key ≡ b
        → (if b then some s else lookup key d) ≡ some x
        → lookup hashed x.actions ≡ none
    go true e q =
        subst (λ (y : Session). lookup hashed y.actions ≡ none) (some_eq q)
          (hs ((str_eq_iff k key).0 e))
    go false e q = h x q

-- what the removal of a confirmation and of those that are expired leaves absent
taken-absent :
    (now : ℕ) (hashed k : Bytes) (s : Session)
    → IsSound s
    → lookup hashed (remove k s.actions) ≡ none
    → lookup hashed (expire now (record s { actions = remove k s.actions })).actions ≡ none
unfolding expire
taken-absent now hashed k s sound h =
    lookup-keep (λ r. not (is_expired now r)) hashed (remove k s.actions)
      (remove-IsMap k s.actions sound.is_map)
    ∙ rw h refl

removed-absent :
    (hashed k : Bytes) (s : Session)
    → lookup hashed s.actions ≡ none
    → lookup hashed (remove k s.actions) ≡ none
removed-absent hashed k s h = lookup-remove k hashed s.actions ∙ go (str_eq k hashed)
  where
    go : (b : Bool) → (if b then none else lookup hashed s.actions) ≡ none
    go true = refl
    go false = h

module _ (hash encode : Bytes → Bytes) (sid presented : Bytes) where
  -- the token waits in no session of that identifier
  abbrev Gone : Manager → Type 0
  Gone m = GoneIn (hash sid) (hash presented) m.sessions

  reissue-Gone : (m : Manager) → Gone m → Gone (reissue hash encode m).1
  unfolding reissue
  reissue-Gone m h = go (token hash encode m.random)
    where
      go : (t : Option Bytes × List (Option Bytes)) → Gone (reissue_with hash encode m t).1
      go (none, rest) = h
      go (some fresh, rest) = h

  bootstrap-Gone : (m : Manager) (p : Bytes) → Gone m → Gone (bootstrap hash encode m p).1
  unfolding bootstrap
  bootstrap-Gone m p h = go m.bootstrap_used (str_eq (hash p) m.bootstrap_hash)
    where
      second :
          (new : Bytes) (t : Option Bytes × List (Option Bytes))
          → Gone (admit hash encode m new t).1
      second new (none, rest) = h
      second new (some csrf, rest) =
          put-GoneIn (hash sid) (hash presented) (hash new)
            (record { csrf_hash = hash csrf; actions = [] }) m.sessions h
            (λ _. unfold lookup in refl)

      first : (t : Option Bytes × List (Option Bytes)) → Gone (draw_twice hash encode m t).1
      first (none, rest) = h
      first (some new, rest) = second new (token hash encode rest)

      go :
          (used same : Bool)
          → Gone
              (if used
                then (err SessionError.bootstrap_used, m)
                else if same
                then draw_twice hash encode m (token hash encode m.random)
                else (err SessionError.invalid_bootstrap, m)).1
      go true same = h
      go false true = first (token hash encode m.random)
      go false false = h

  renew-Gone : (m : Manager) (other : Bytes) → Gone m → Gone (renew_csrf hash encode m other).1
  unfolding renew_csrf
  renew-Gone m other h = go (lookup (hash other) m.sessions) refl
    where
      drawn :
          (s : Session)
          → lookup (hash other) m.sessions ≡ some s
          → (t : Option Bytes × List (Option Bytes))
          → Gone (renew_with hash encode m (hash other) s t).1
      drawn s e (none, rest) = h
      drawn s e (some csrf, rest) =
          put-GoneIn (hash sid) (hash presented) (hash other) (record s { csrf_hash = hash csrf })
            m.sessions h (λ k. h s (subst (λ x. lookup x m.sessions ≡ some s) k e))

      go :
          (o : Option Session)
          → lookup (hash other) m.sessions ≡ o
          → Gone (renew_found hash encode m (hash other) o).1
      go none e = h
      go (some s) e = drawn s e (token hash encode m.random)

  consume-Gone :
      (now : ℕ) (m : Manager) (other p : Bytes) (request : ActionRequest)
      → AllSound m
      → Gone m
      → Gone (consume_action hash encode now m other p request).1
  unfolding consume_action
  consume-Gone now m other p request sound h = go (lookup (hash other) m.sessions) refl
    where
      taken :
          (s : Session)
          → lookup (hash other) m.sessions ≡ some s
          → (o : Option ActionRecord)
          → Gone (consume_record hash encode now m other s (hash p) request o).1
      taken s e none = h
      taken s e (some r) = put-GoneIn (hash sid) (hash presented) (hash other) _ m.sessions h (λ k.
          taken-absent now (hash presented) (hash p) s (sound (hash other) s e) (
            removed-absent (hash presented) (hash p) s
              (h s (subst (λ x. lookup x m.sessions ≡ some s) k e))))

      go :
          (o : Option Session)
          → lookup (hash other) m.sessions ≡ o
          → Gone (consume_found hash encode now m other o (hash p) request).1
      go none e = h
      go (some s) e = taken s e (lookup (hash p) s.actions)

  step-Gone :
      (m : Manager) (c : Call) → IsNoIssue c → AllSound m → Gone m → Gone (step hash encode m c)
  unfolding step
  step-Gone m reissue_call n s h = reissue-Gone m h
  step-Gone m (bootstrap_call p) n s h = bootstrap-Gone m p h
  step-Gone m (renew_call other) n s h = renew-Gone m other h
  step-Gone m (issue_call now other r) n s h = absurd n
  step-Gone m (consume_call now other p r) n s h = consume-Gone now m other p r s h

  run-Gone :
      (m : Manager) (cs : List Call)
      → All IsNoIssue cs
      → AllSound m
      → Gone m
      → Gone (run hash encode m cs)
  unfolding run
  run-Gone m [] n s h = h
  run-Gone m (c ∷ cs) n s h =
      run-Gone (step hash encode m c) cs n.1 (step-AllSound hash encode m c s)
        (step-Gone m c n.0 s h)

  -- after a presentation the token waits no more
  presented-Gone :
      (now : ℕ) (m : Manager) (request : ActionRequest)
      → AllSound m
      → Gone (consume_action hash encode now m sid presented request).1
  unfolding consume_action
  presented-Gone now m request sound = go (lookup (hash sid) m.sessions) refl
    where
      absent :
          (s x : Session)
          → lookup (hash sid) m.sessions ≡ some s
          → lookup (hash presented) s.actions ≡ none
          → lookup (hash sid) m.sessions ≡ some x
          → lookup (hash presented) x.actions ≡ none
      absent s x e f k =
          subst (λ (y : Session). lookup (hash presented) y.actions ≡ none) (some_eq (sym e ∙ k)) f

      taken :
          (s : Session)
          → lookup (hash sid) m.sessions ≡ some s
          → (o : Option ActionRecord) → lookup (hash presented) s.actions ≡ o
          → Gone (consume_record hash encode now m sid s (hash presented) request o).1
      taken s e none f x k = absent s x e f k
      taken s e (some r) f x k =
          let s' = expire now (record s { actions = remove (hash presented) s.actions }) in
          subst (λ (y : Session). lookup (hash presented) y.actions ≡ none)
            (some_eq (sym (lookup-insert_self (hash sid) s' m.sessions) ∙ k))
            (taken-absent now (hash presented) (hash presented) s (sound (hash sid) s e)
              (lookup-remove (hash presented) (hash presented) s.actions ∙ rw str_eq_refl refl))

      go :
          (o : Option Session)
          → lookup (hash sid) m.sessions ≡ o
          → Gone (consume_found hash encode now m sid o (hash presented) request).1
      go none e = λ x k. absurd (contrary (sym e ∙ k))
        where
          contrary : {A : Type 0} {y : A} → none ≡ some y → ⊥
          contrary q = cc
      go (some s) e = taken s e (lookup (hash presented) s.actions) refl

-- In a manager that satisfies the invariant, a token that was presented once, for whatever
-- operation and with whatever outcome, is refused in the same session whenever it is presented
-- again, for whatever operation and at whatever time, along every sequence of other calls of
-- which none issues a confirmation.
pub consume_action_once :
    (hash encode : Bytes → Bytes) (now later : ℕ) (m : Manager) (sid presented : Bytes)
    (first second : ActionRequest) (cs : List Call)
    → AllSound m
    → All IsNoIssue cs
    → Refuses
        (consume_action hash encode later
          (run hash encode (consume_action hash encode now m sid presented first).1 cs)
          sid
          presented
          second).0
consume_action_once hash encode now later m sid presented first second cs sound n =
    let m' = (consume_action hash encode now m sid presented first).1 in
    let gone =
      run-Gone hash encode sid presented m' cs n
        (consume-AllSound hash encode now m sid presented first sound)
        (presented-Gone hash encode sid presented now m first sound) in
    refused (run hash encode m' cs) gone
  where
    refused :
        (w : Manager)
        → Gone hash encode sid presented w
        → Refuses (consume_action hash encode later w sid presented second).0
    refused w gone = go (lookup (hash sid) w.sessions) refl
      where
        go :
            (o : Option Session)
            → lookup (hash sid) w.sessions ≡ o
            → Refuses (consume_action hash encode later w sid presented second).0
        go none e = inr (consume-unknown hash encode later w sid presented second e)
        go (some s) e = inl (consume-absent hash encode later w sid presented second s e (gone s e))
