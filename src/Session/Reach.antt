-- ===== src/Session/Reach.antt =====
-- The methods of the manager in any order.
pub mod Once
pub mod Burnt
use ssh_ui.Base.{
  All, ℕ, ◌≡◌, refl, sym, subst, ◌∙◌, Bool, true, false, not, ◌||◌, Option, none, some, List, [],
  ◌∷◌, Bytes, str_eq, str_eq_iff, if◌then◌else◌, length, ok, err, Dict, lookup, insert, remove,
  kept, lookup-insert, lookup-remove, lookup-keep, remove-IsMap, keep-IsMap, insert-IsMap,
  length-insert, length-remove, length-keep, arith, leb, some_eq,
}
use ssh_ui.Session.Manager.{
  ActionRecord, Session, Manager, SessionError, token, reissue, bootstrap, Credentials, renew_csrf,
  reissue_with, admit, draw_twice, renew_with, renew_found,
}
use ssh_ui.Session.Action.{
  ActionRequest, max_action_tokens, is_expired, expire, issue_action, consume_action, write_back,
  known_action_kind, store_action, issue_found, consume_record, consume_found,
}
use ssh_ui.Session.Manager.Bootstrap.{bootstrap-IsAdmitted}
use ssh_ui.Session.Action.Consume.{IsSound, SoundIn, AllSound}

-- A call of a method that changes the manager.
pub data Call : Type 0 where
  reissue_call : Call
  bootstrap_call : Bytes → Call
  renew_call : Bytes → Call
  issue_call : ℕ → Bytes → ActionRequest → Call
  consume_call : ℕ → Bytes → Bytes → ActionRequest → Call

expire-IsSound : (now : ℕ) (s : Session) → IsSound s → IsSound (expire now s)
unfolding expire
expire-IsSound now s h = record {
  is_map = keep-IsMap (λ r. not (is_expired now r)) s.actions h.is_map;
  bounded = omega (arith, h.bounded, length-keep {0} (λ r. not (is_expired now r)) s.actions);
  keyed = λ k r e. h.keyed k r (
      kept-some (λ x. not (is_expired now x)) (lookup k s.actions)
        (sym (lookup-keep (λ x. not (is_expired now x)) k s.actions h.is_map) ∙ e));
}
  where
    kept-some :
        (p : ActionRecord → Bool) (o : Option ActionRecord) {r : ActionRecord}
        → kept p o ≡ some r
        → o ≡ some r
    kept-some p none e = cc
    kept-some p (some x) e = ground arith

remove-IsSound :
    (k : Bytes) (s : Session) → IsSound s → IsSound (record s { actions = remove k s.actions })
remove-IsSound k s h = record {
  is_map = remove-IsMap k s.actions h.is_map;
  bounded = omega (arith, h.bounded, length-remove {0} k s.actions);
  keyed = λ j r e. h.keyed j r (ground (arith, lookup-remove k j s.actions));
}

-- a confirmation is added under the hash of its token, where there is room
insert-IsSound :
    (k : Bytes) (r : ActionRecord) (s : Session)
    → IsSound s
    → r.token_hash ≡ k
    → leb max_action_tokens (length s.actions) ≡ false
    → IsSound (record s { actions = insert k r s.actions })
insert-IsSound k r s h t n = record {
  is_map = insert-IsMap k r s.actions h.is_map;
  bounded = ground (arith, length-insert {0} k r s.actions);
  keyed = λ j x e. ground (arith, lookup-insert k j r s.actions, str_eq_iff k j, h.keyed j x);
}

put-SoundIn :
    (k : Bytes) (s : Session) (d : Dict Session) → SoundIn d → IsSound s → SoundIn (insert k s d)
put-SoundIn k s d h hs j x p = go (str_eq k j) (sym (lookup-insert k j s d) ∙ p)
  where
    go : (b : Bool) → (if b then some s else lookup j d) ≡ some x → IsSound x
    go true q = subst IsSound (some_eq q) hs
    go false q = h j x q

module _ (hash encode : Bytes → Bytes) where
  unfoldable pub step : Manager → Call → Manager
  step m reissue_call = (reissue hash encode m).1
  step m (bootstrap_call presented) = (bootstrap hash encode m presented).1
  step m (renew_call sid) = (renew_csrf hash encode m sid).1
  step m (issue_call now sid request) = (issue_action hash encode now m sid request).1
  step m (consume_call now sid presented request) =
      (consume_action hash encode now m sid presented request).1

  unfoldable pub run : Manager → List Call → Manager
  unfolding step
  run m [] = m
  run m (c ∷ cs) = run (step m c) cs

  reissue-AllSound : (m : Manager) → AllSound m → AllSound (reissue hash encode m).1
  unfolding reissue
  reissue-AllSound m h = go (token hash encode m.random)
    where
      go : (t : Option Bytes × List (Option Bytes)) → AllSound (reissue_with hash encode m t).1
      go (none, rest) = h
      go (some fresh, rest) = h

  fresh-IsSound : (csrf : Bytes) → IsSound (record { csrf_hash = csrf; actions = [] })
  fresh-IsSound csrf = record {
    is_map = tt;
    bounded = omega arith;
    keyed = λ k r e. absurd (unfold lookup in cc);
  }

  bootstrap-AllSound :
      (m : Manager) (presented : Bytes)
      → AllSound m
      → AllSound (bootstrap hash encode m presented).1
  unfolding bootstrap
  bootstrap-AllSound m presented h = go m.bootstrap_used (str_eq (hash presented) m.bootstrap_hash)
    where
      second :
          (sid : Bytes) (t : Option Bytes × List (Option Bytes))
          → AllSound (admit hash encode m sid t).1
      second sid (none, rest) = h
      second sid (some csrf, rest) =
          put-SoundIn (hash sid) (record { csrf_hash = hash csrf; actions = [] }) m.sessions h
            (fresh-IsSound (hash csrf))

      first : (t : Option Bytes × List (Option Bytes)) → AllSound (draw_twice hash encode m t).1
      first (none, rest) = h
      first (some sid, rest) = second sid (token hash encode rest)

      go :
          (used same : Bool)
          → AllSound
              (if used
                then (err SessionError.bootstrap_used, m)
                else if same
                then draw_twice hash encode m (token hash encode m.random)
                else (err SessionError.invalid_bootstrap, m)).1
      go true same = h
      go false true = first (token hash encode m.random)
      go false false = h

  renew-AllSound :
      (m : Manager) (sid : Bytes) → AllSound m → AllSound (renew_csrf hash encode m sid).1
  unfolding renew_csrf
  renew-AllSound m sid h = go (lookup (hash sid) m.sessions) refl
    where
      drawn :
          (s : Session)
          → lookup (hash sid) m.sessions ≡ some s
          → (t : Option Bytes × List (Option Bytes))
          → AllSound (renew_with hash encode m (hash sid) s t).1
      drawn s e (none, rest) = h
      drawn s e (some csrf, rest) =
          let old = h (hash sid) s e in
          put-SoundIn (hash sid) (record s { csrf_hash = hash csrf }) m.sessions h
            (record { is_map = old.is_map; bounded = old.bounded; keyed = old.keyed })

      go :
          (o : Option Session)
          → lookup (hash sid) m.sessions ≡ o
          → AllSound (renew_found hash encode m (hash sid) o).1
      go none e = h
      go (some s) e = drawn s e (token hash encode m.random)

  pub issue-AllSound :
      (now : ℕ) (m : Manager) (sid : Bytes) (request : ActionRequest)
      → AllSound m
      → AllSound (issue_action hash encode now m sid request).1
  unfolding issue_action
  issue-AllSound now m sid request h =
      checked (not (known_action_kind request.kind) || str_eq request.target [])
    where
      put : (s : Session) → IsSound s → SoundIn (insert (hash sid) s m.sessions)
      put s hs = put-SoundIn (hash sid) s m.sessions h hs

      drawn :
          (s : Session)
          → IsSound s
          → leb max_action_tokens (length s.actions) ≡ false
          → (t : Option Bytes × List (Option Bytes))
          → AllSound (store_action hash encode now m sid s request t).1
      drawn s hs n (none, rest) = put s hs
      drawn s hs n (some value, rest) = put _ (insert-IsSound (hash value) _ s hs refl n)

      live :
          (s : Session)
          → IsSound s
          → (b : Bool) → leb max_action_tokens (length s.actions) ≡ b
          → AllSound
              (if b
                then (err SessionError.too_many_actions, write_back hash encode m sid s)
                else store_action hash encode now m sid s request (token hash encode m.random)).1
      live s hs true n = put s hs
      live s hs false n = drawn s hs n (token hash encode m.random)

      go :
          (o : Option Session)
          → lookup (hash sid) m.sessions ≡ o
          → AllSound (issue_found hash encode now m sid o request).1
      go none e = h
      go (some s) e = live (expire now s) (expire-IsSound now s (h (hash sid) s e)) _ refl

      checked :
          (b : Bool)
          → AllSound
              (if b
                then (err SessionError.invalid_action, m)
                else issue_found hash encode now m sid (lookup (hash sid) m.sessions) request).1
      checked true = h
      checked false = go (lookup (hash sid) m.sessions) refl

  pub consume-AllSound :
      (now : ℕ) (m : Manager) (sid presented : Bytes) (request : ActionRequest)
      → AllSound m
      → AllSound (consume_action hash encode now m sid presented request).1
  unfolding consume_action
  consume-AllSound now m sid presented request h = go (lookup (hash sid) m.sessions) refl
    where
      taken :
          (s : Session)
          → lookup (hash sid) m.sessions ≡ some s
          → (o : Option ActionRecord)
          → AllSound (consume_record hash encode now m sid s (hash presented) request o).1
      taken s e none = h
      taken s e (some r) =
          put-SoundIn (hash sid) _ m.sessions h
            (expire-IsSound now _ (remove-IsSound (hash presented) s (h (hash sid) s e)))

      go :
          (o : Option Session)
          → lookup (hash sid) m.sessions ≡ o
          → AllSound (consume_found hash encode now m sid o (hash presented) request).1
      go none e = h
      go (some s) e = taken s e (lookup (hash presented) s.actions)

  pub step-AllSound : (m : Manager) (c : Call) → AllSound m → AllSound (step m c)
  unfolding step
  step-AllSound m reissue_call h = reissue-AllSound m h
  step-AllSound m (bootstrap_call p) h = bootstrap-AllSound m p h
  step-AllSound m (renew_call sid) h = renew-AllSound m sid h
  step-AllSound m (issue_call now sid r) h = issue-AllSound now m sid r h
  step-AllSound m (consume_call now sid p r) h = consume-AllSound now m sid p r h

  -- The invariant, when it holds, is kept by every sequence of calls.
  pub run-AllSound : (m : Manager) (cs : List Call) → AllSound m → AllSound (run m cs)
  unfolding run
  run-AllSound m [] h = h
  run-AllSound m (c ∷ cs) h = run-AllSound (step m c) cs (step-AllSound m c h)
