-- ===== src/Secret/Vault/Edits.antt =====
-- internal/secret/vault.go: the methods that change a vault, one after another.
use ssh_ui.Base.{
  Bool, true, false, not, str_eq, Option, none, some, List, [], ◌∷◌, ◌≡◌, refl, Bytes, Result, ok,
  err, ◌>>=◌, ◌>>◌, guard, Dict, lookup, insert, remove, sort_by-eq-nil,
}
use ssh_ui.Secret.Vault.{
  Kind, password, key_passphrase, unknown, Vault, VaultError, unsafe_name, valid_subject,
  unknown_kind, empty_secret, credential_in_use, unknown_credential, secrets, subjects,
  with_secrets, with_subjects, has, set, delete, uses, is_nil, assign, unassign, rename, renamed,
  rename_target, collect, remove_all, place, relocate_subjects, valid_kind, valid_credential_name,
}
use ssh_ui.Secret.Vault.Linked.{
  Linked, IsLinked, lookup-All, insert_all-All, collect-All, insert-All, remove-All, remove_all-All,
  unreferred, set-Linked, delete-Linked,
}

pub data Edit : Type 0 where
  set_edit : Kind → Bytes → Bytes → Edit
  delete_edit : Kind → Bytes → Edit
  assign_edit : Kind → Bytes → Bytes → Edit
  unassign_edit : Kind → Bytes → Edit
  rename_edit : Kind → Bytes → Bytes → Edit
  relocate_edit : Kind → Dict Bytes → Edit

-- The vault after a call, which is the vault before it when the call fails.
unfoldable pub after : Vault → Result VaultError Vault → Vault
after v (ok w) = w
after v (err e) = v

relocated : Result VaultError (Bool × Vault) → Result VaultError Vault
relocated (ok (changed, w)) = ok w
relocated (err e) = err e

unfoldable pub edit : Edit → Vault → Result VaultError Vault
unfolding relocated
edit (set_edit kind name value) v = set kind name value v
edit (delete_edit kind name) v = delete kind name v
edit (assign_edit kind subject name) v = assign kind subject name v
edit (unassign_edit kind subject) v = ok (unassign kind subject v)
edit (rename_edit kind from to) v = rename kind from to v
edit (relocate_edit kind relocations) v = relocated (relocate_subjects kind relocations v)

unfoldable pub edits : List Edit → Vault → Vault
unfolding after edit
edits [] v = v
edits (e ∷ es) v = edits es (after v (edit e v))

of_kind : (kind : Kind) (v : Vault) → IsLinked v → Linked (secrets kind v) (subjects kind v)
unfolding secrets subjects
of_kind password v h = h.0
of_kind key_passphrase v h = h.1
of_kind unknown v h = tt

with_subjects-IsLinked :
    (kind : Kind) (refs : Dict Bytes) (v : Vault)
    → IsLinked v
    → Linked (secrets kind v) refs
    → IsLinked (with_subjects kind refs v)
unfolding secrets with_subjects
with_subjects-IsLinked password refs v h l = (l, h.1)
with_subjects-IsLinked key_passphrase refs v h l = (h.0, l)
with_subjects-IsLinked unknown refs v h l = h

with_secrets-IsLinked :
    (kind : Kind) (held : Dict Bytes) (v : Vault)
    → IsLinked v
    → Linked held (subjects kind v)
    → IsLinked (with_secrets kind held v)
unfolding subjects with_secrets
with_secrets-IsLinked password held v h l = (l, h.1)
with_secrets-IsLinked key_passphrase held v h l = (h.0, l)
with_secrets-IsLinked unknown held v h l = h

after-set :
    (kind : Kind) (name value : Bytes) (v : Vault)
    → IsLinked v
    → IsLinked (after v (set kind name value v))
unfolding set after
after-set kind name value v h =
    go (valid_kind kind) (valid_credential_name name) (not (str_eq value []))
  where
    go :
        (k n e : Bool)
        → IsLinked (
            after v (
              guard k unknown_kind
              >> (guard n unsafe_name
                  >> (guard e empty_secret
                      >> ok (with_secrets kind (insert name value (secrets kind v)) v)))))
    go true true true =
        with_secrets-IsLinked kind _ v h
          (set-Linked name value (secrets kind v) (subjects kind v) (of_kind kind v h))
    go true true false = h
    go true false e = h
    go false n e = h

after-delete :
    (kind : Kind) (name : Bytes) (v : Vault) → IsLinked v → IsLinked (after v (delete kind name v))
unfolding delete after uses is_nil
after-delete kind name v h = go (uses kind name v) refl
  where
    go :
        (us : List Bytes)
        → uses kind name v ≡ us
        → IsLinked (
            after v (
              guard (is_nil us) credential_in_use
              >> ok (with_secrets kind (remove name (secrets kind v)) v)))
    go (u ∷ us) e = h
    go [] e = with_secrets-IsLinked kind _ v h (
        delete-Linked name (secrets kind v) (subjects kind v)
          (unreferred name (subjects kind v) (sort_by-eq-nil (λ x. x) _ e)) (of_kind kind v h))

after-assign :
    (kind : Kind) (subject name : Bytes) (v : Vault)
    → IsLinked v
    → IsLinked (after v (assign kind subject name v))
unfolding assign after
after-assign kind subject name v h =
    go (valid_kind kind) (valid_subject kind subject) (has (lookup name (secrets kind v))) refl
  where
    go :
        (k s p : Bool)
        → has (lookup name (secrets kind v)) ≡ p
        → IsLinked (
            after v (
              guard k unknown_kind
              >> (guard s unsafe_name
                  >> (guard p unknown_credential
                      >> ok (with_subjects kind (insert subject name (subjects kind v)) v)))))
    go true true true e =
        with_subjects-IsLinked kind _ v h
          (insert-All _ subject name (subjects kind v) e (of_kind kind v h))
    go true true false e = h
    go true false p e = h
    go false s p e = h

after-unassign :
    (kind : Kind) (subject : Bytes) (v : Vault) → IsLinked v → IsLinked (unassign kind subject v)
unfolding unassign
after-unassign kind subject v h =
    with_subjects-IsLinked kind _ v h (remove-All _ subject (subjects kind v) (of_kind kind v h))

after-rename :
    (kind : Kind) (from to : Bytes) (v : Vault)
    → IsLinked v
    → IsLinked (after v (rename kind from to v))
unfolding rename after renamed
after-rename kind from to v h = go (lookup from (subjects kind v)) refl (rename_target kind to)
  where
    put :
        {n : Bytes}
        → lookup from (subjects kind v) ≡ some n
        → IsLinked (with_subjects kind (insert to n (remove from (subjects kind v))) v)
    put {n} e = with_subjects-IsLinked kind _ v h (
        insert-All _ to n (remove from (subjects kind v))
          (lookup-All (λ n. has (lookup n (secrets kind v)) ≡ true) from (subjects kind v)
            (of_kind kind v h) e)
          (remove-All _ from (subjects kind v) (of_kind kind v h)))

    fits :
        {n : Bytes} (b : Bool)
        → lookup from (subjects kind v) ≡ some n
        → IsLinked (
            after v (
              guard b unsafe_name
              >> ok (with_subjects kind (insert to n (remove from (subjects kind v))) v)))
    fits true e = put e
    fits false e = h

    go :
        (o : Option Bytes)
        → lookup from (subjects kind v) ≡ o
        → (b : Bool) → IsLinked (after v (renamed kind from to o v))
    go none e b = h
    go (some n) e b = fits (rename_target kind to) e

place-IsLinked :
    (kind : Kind) (rs moved : Dict Bytes) (v : Vault)
    → IsLinked v
    → Linked (secrets kind v) moved
    → IsLinked (place kind rs v moved).1
unfolding place
place-IsLinked kind rs [] v h m = h
place-IsLinked kind rs (e ∷ moved) v h m = with_subjects-IsLinked kind _ v h (
    insert_all-All (λ n. has (lookup n (secrets kind v)) ≡ true) (e ∷ moved)
      (remove_all rs (subjects kind v)) m
      (remove_all-All _ rs (subjects kind v) (of_kind kind v h)))

after-relocate :
    (kind : Kind) (rs : Dict Bytes) (v : Vault)
    → IsLinked v
    → IsLinked (after v (relocated (relocate_subjects kind rs v)))
unfolding relocate_subjects after relocated
after-relocate kind rs v h = go (valid_kind kind) (collect kind (subjects kind v) rs []) refl
  where
    go :
        (k : Bool) (c : Result VaultError (Dict Bytes))
        → collect kind (subjects kind v) rs [] ≡ c
        → IsLinked (
            after v
              (relocated (guard k unknown_kind >> (c >>= λ moved. ok (place kind rs v moved)))))
    go false c e = h
    go true (err x) e = h
    go true (ok moved) e = place-IsLinked kind rs moved v h (
        collect-All (λ n. has (lookup n (secrets kind v)) ≡ true) kind (subjects kind v) rs []
          (of_kind kind v h) tt e)

-- No sequence of calls, those that fail included, leaves a host or a key that refers to a
-- credential the vault does not hold, if there was none before.
pub edits-IsLinked : (es : List Edit) (v : Vault) → IsLinked v → IsLinked (edits es v)
unfolding edits edit
edits-IsLinked [] v h = h
edits-IsLinked (set_edit k n x ∷ es) v h = edits-IsLinked es _ (after-set k n x v h)
edits-IsLinked (delete_edit k n ∷ es) v h = edits-IsLinked es _ (after-delete k n v h)
edits-IsLinked (assign_edit k s n ∷ es) v h = edits-IsLinked es _ (after-assign k s n v h)
edits-IsLinked (unassign_edit k s ∷ es) v h = edits-IsLinked es _ (after-unassign k s v h)
edits-IsLinked (rename_edit k s t ∷ es) v h = edits-IsLinked es _ (after-rename k s t v h)
edits-IsLinked (relocate_edit k rs ∷ es) v h = edits-IsLinked es _ (after-relocate k rs v h)
