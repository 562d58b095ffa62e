-- ===== src/Secret/Vault/Linked.antt =====
-- internal/secret/vault.go: the references of hosts and keys to credentials.
use ssh_ui.Base.{
  Bool, true, false, Option, none, some, List, [], ◌∷◌, ◌≡◌, refl, sym, ap, subst, ◌∙◌, arith,
  Bytes, str_eq, str_eq_iff, if◌then◌else◌, All, Result, ok, err, ok_eq, some_eq, Dict, lookup,
  insert, remove, lookup-insert, lookup-remove,
}
use ssh_ui.Secret.Vault.{
  Kind, Vault, VaultError, unsafe_name, valid_subject, has, referring, collect, put_name,
  remove_all, insert_all,
}

-- The references of a map, each to a name that the other map holds.
abbrev pub Linked : Dict Bytes → Dict Bytes → Type 0
Linked held refs = All (λ e. has (lookup (e.1) held) ≡ true) refs

abbrev pub IsLinked : Vault → Type 0
IsLinked v = Linked v.passwords v.hosts × Linked v.key_passphrases v.keys

All-map :
    {A : Type 0} (P Q : A → Type 0) (xs : List A) → ((x : A) → P x → Q x) → All P xs → All Q xs
All-map P Q [] f h = tt
All-map P Q (x ∷ xs) f h = (f x h.0, All-map P Q xs f h.1)

module _ (P : Bytes × Bytes → Type 0) where
  pub insert-All : (k v : Bytes) (d : Dict Bytes) → P (k, v) → All P d → All P (insert k v d)
  unfolding insert
  insert-All k v [] p h = (p, tt)
  insert-All k v ((j, w) ∷ d) p h =
      elim (str_eq j k) as (λ b. All P (if b then (k, v) ∷ d else (j, w) ∷ insert k v d)) [
        | true ↦ (p, h.1)
        | false ↦ (h.0, insert-All k v d p h.1)
      ]

  pub remove-All : (k : Bytes) (d : Dict Bytes) → All P d → All P (remove k d)
  unfolding remove
  remove-All k [] h = tt
  remove-All k ((j, w) ∷ d) h =
      elim (str_eq j k) as (λ b. All P (if b then remove k d else (j, w) ∷ remove k d)) [
        | true ↦ remove-All k d h.1
        | false ↦ (h.0, remove-All k d h.1)
      ]

  pub remove_all-All : (rs d : Dict Bytes) → All P d → All P (remove_all rs d)
  unfolding remove_all
  remove_all-All [] d h = h
  remove_all-All ((from, to) ∷ rs) d h = remove_all-All rs (remove from d) (remove-All from d h)

-- A name is held whatever subject refers to it.
module _ (Q : Bytes → Type 0) where
  pub lookup-All :
      (k : Bytes) (d : Dict Bytes) {n : Bytes} → All (λ e. Q e.1) d → lookup k d ≡ some n → Q n
  unfolding lookup
  lookup-All k [] h e = absurd (cc)
  lookup-All k ((j, w) ∷ d) {n} h e = go (str_eq j k) (lookup-All k d h.1) e
    where
      go :
          (b : Bool)
          → (lookup k d ≡ some n → Q n)
          → (if b then some w else lookup k d) ≡ some n
          → Q n
      go true f p = subst Q (some_eq p) h.0
      go false f p = f p

  pub insert_all-All :
      (ms d : Dict Bytes)
      → All (λ e. Q e.1) ms
      → All (λ e. Q e.1) d
      → All (λ e. Q e.1) (insert_all ms d)
  unfolding insert_all
  insert_all-All [] d p h = h
  insert_all-All ((to, n) ∷ ms) d p h =
      insert_all-All ms (insert to n d) p.1 (insert-All (λ e. Q e.1) to n d p.0 h)

  -- what `collect` gathers are names that the old references hold
  pub collect-All :
      (kind : Kind) (old rs moved : Dict Bytes) {w : Dict Bytes}
      → All (λ e. Q e.1) old
      → All (λ e. Q e.1) moved
      → collect kind old rs moved ≡ ok w
      → All (λ e. Q e.1) w
  unfolding collect put_name
  collect-All kind old [] moved h m e = subst (All (λ e. Q e.1)) (ok_eq e) m
  collect-All kind old ((from, to) ∷ rs) moved {w} h m e =
      go (str_eq from to) (valid_subject kind to) (lookup from old) refl
        (λ m'. collect-All kind old rs m' h) e
    where
      go :
          (same fits : Bool) (o : Option Bytes)
          → lookup from old ≡ o
          → ((m' : Dict Bytes)
              → All (λ e. Q e.1) m'
              → collect kind old rs m' ≡ ok w
              → All (λ e. Q e.1) w)
          → (elim same as (λ _. Result VaultError (Dict Bytes)) [
            | true ↦ collect kind old rs moved
            | false ↦ elim fits as (λ _. Result VaultError (Dict Bytes)) [
              | false ↦ err unsafe_name
              | true ↦ collect kind old rs (put_name to o moved)
            ]
          ])
            ≡ ok w
          → All (λ e. Q e.1) w
      go true fits o q f p = f moved m p
      go false false o q f p = absurd (cc)
      go false true none q f p = f moved m p
      go false true (some n) q f p =
          f (insert to n moved) (insert-All (λ e. Q e.1) to n moved (lookup-All from old h q) m) p

held-insert :
    (n name value : Bytes) (held : Dict Bytes)
    → has (lookup n held) ≡ true
    → has (lookup n (insert name value held)) ≡ true
unfolding has
held-insert n name value held h =
    subst (λ o. has o ≡ true) (sym (lookup-insert name n value held)) (go (str_eq name n))
  where
    go : (b : Bool) → has (if b then some value else lookup n held) ≡ true
    go true = refl
    go false = h

held-remove :
    (n name : Bytes) (held : Dict Bytes)
    → str_eq name n ≡ false
    → has (lookup n held) ≡ true
    → has (lookup n (remove name held)) ≡ true
held-remove n name held e h =
    subst (λ o. has o ≡ true)
      (sym (lookup-remove name n held ∙ ap (λ b. if b then none else lookup n held) e)) h

-- no reference, then none of that name
pub unreferred :
    (name : Bytes) (refs : Dict Bytes)
    → referring name refs ≡ []
    → All (λ e. str_eq name e.1 ≡ false) refs
unfolding referring
unreferred name [] h = tt
unreferred name ((subject, n) ∷ refs) h = go (str_eq n name) refl (unreferred name refs) h
  where
    go :
        (b : Bool)
        → str_eq n name ≡ b
        → (referring name refs ≡ [] → All (λ e. str_eq name e.1 ≡ false) refs)
        → (if b then subject ∷ referring name refs else referring name refs) ≡ []
        → All (λ e. str_eq name e.1 ≡ false) ((subject, n) ∷ refs)
    go true q f p = absurd (cc)
    go false q f p = (ground (arith, str_eq_iff n name, str_eq_iff name n), f p)

pub set-Linked :
    (name value : Bytes) (held refs : Dict Bytes)
    → Linked held refs
    → Linked (insert name value held) refs
set-Linked name value held refs h = All-map _ _ refs (λ e p. held-insert e.1 name value held p) h

pub delete-Linked :
    (name : Bytes) (held refs : Dict Bytes)
    → All (λ e. str_eq name e.1 ≡ false) refs
    → Linked held refs
    → Linked (remove name held) refs
delete-Linked name held [] u h = tt
delete-Linked name held ((s, n) ∷ refs) u h =
    (held-remove n name held u.0 h.0, delete-Linked name held refs u.1 h.1)
