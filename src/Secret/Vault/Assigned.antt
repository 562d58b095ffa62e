-- ===== src/Secret/Vault/Assigned.antt =====
-- internal/secret/vault.go: a credential that is set and assigned is what its subject is given.
use ssh_ui.Base.{◌≡◌, ◌≢◌, some, Bytes, insert}
use ssh_ui.Secret.Vault.{
  Kind, Vault, secrets, subjects, with_secrets, with_subjects, assigned, secret_for,
}

-- the vault that the two calls leave
abbrev both : Kind → Bytes → Bytes → Bytes → Vault → Vault
both kind subject name value v =
    let u = with_secrets kind (insert name value (secrets kind v)) v in
    with_subjects kind (insert subject name (subjects kind u)) u

abbrev Given : Kind → Bytes → Bytes → Bytes → Vault → Vault → Type 0
Given kind subject name value v w =
    (secret_for kind subject w ≡ some value)
    × ((other : Bytes)
        → other ≢ subject
        → assigned kind other v ≢ some name
        → secret_for kind other w ≡ secret_for kind other v)
