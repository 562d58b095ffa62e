-- ===== src/Secret/Vault.antt =====
-- internal/secret/vault.go: the named credentials of an open vault, and the hosts and keys that
-- refer to them; `ValidateAlias` of internal/platform/alias.go.
--
-- A method that fails returns no vault: it has changed nothing.
pub mod Linked
pub mod Edits
pub mod Assigned
pub mod Relocate
use ssh_ui.Base.{
  ℕ, ◌+◌, Bool, true, false, not, ◌&&◌, ◌||◌, Option, none, some, List, [], ◌∷◌, map, Bytes, codes,
  str_eq, leb, ltb, ◌==◌, if◌then◌else◌, length, contains_any, all, Result, ok, err, ◌>>=◌, ◌>>◌,
  guard, Dict, lookup, insert, remove, sort_by,
}

-- `unknown` is any other text: its maps are nil.
pub data Kind : Type 0 where
  password key_passphrase unknown : Kind

pub data VaultError : Type 0 where
  unknown_kind unsafe_name empty_secret unknown_credential credential_in_use : VaultError

-- The maps of the vault, two for each kind. The key that seals it is not looked into.
pub record Vault : Type 0 where
  pub key : Bytes
  pub passwords : Dict Bytes
  pub key_passphrases : Dict Bytes
  pub hosts : Dict Bytes
  pub keys : Dict Bytes

unfoldable pub valid_kind : Kind → Bool
valid_kind unknown = false
valid_kind _ = true

unfoldable pub secrets : Kind → Vault → Dict Bytes
secrets password v = v.passwords
secrets key_passphrase v = v.key_passphrases
secrets unknown v = []

unfoldable pub subjects : Kind → Vault → Dict Bytes
subjects password v = v.hosts
subjects key_passphrase v = v.keys
subjects unknown v = []

-- A write of an unknown kind is not reached but for deletions, which leave a nil map as it is.
unfoldable pub with_secrets : Kind → Dict Bytes → Vault → Vault
with_secrets password d v = record v { passwords = d }
with_secrets key_passphrase d v = record v { key_passphrases = d }
with_secrets unknown d v = v

unfoldable pub with_subjects : Kind → Dict Bytes → Vault → Vault
with_subjects password d v = record v { hosts = d }
with_subjects key_passphrase d v = record v { keys = d }
with_subjects unknown d v = v

is_alias_start : ℕ → Bool
is_alias_start c = leb b'A' c && leb c b'Z' || leb b'a' c && leb c b'z' || leb b'0' c && leb c b'9'

is_alias_byte : ℕ → Bool
is_alias_byte c = is_alias_start c || c == b'.' || c == b'_' || c == b'-'

alias_text : Bytes → Bool
alias_text [] = false
alias_text (c ∷ cs) = is_alias_start c && all is_alias_byte cs

unfoldable pub validate_alias : Bytes → Bool
unfolding alias_text is_alias_start is_alias_byte
validate_alias alias = not (ltb 64 (length alias)) && alias_text alias

unfoldable pub valid_credential_name : Bytes → Bool
valid_credential_name name =
    not (str_eq name [] || ltb 128 (length name)) && not (contains_any (0 ∷ 13 ∷ 10 ∷ []) name)

-- what a host or a key may be called
unfoldable pub valid_subject : Kind → Bytes → Bool
unfolding validate_alias
valid_subject password subject = validate_alias subject
valid_subject _ subject = not (str_eq subject [] || contains_any (0 ∷ []) subject)

unfoldable pub map_keys : Dict Bytes → List Bytes
map_keys [] = []
map_keys ((k, v) ∷ d) = k ∷ map_keys d

unfoldable pub names : Kind → Vault → List Bytes
unfolding map_keys secrets
names kind v = sort_by (λ x. x) (map_keys (secrets kind v))

unfoldable pub secret : Kind → Bytes → Vault → Option Bytes
unfolding secrets
secret kind name v = lookup name (secrets kind v)

unfoldable pub set : Kind → Bytes → Bytes → Vault → Result VaultError Vault
unfolding valid_kind valid_credential_name
set kind name value v = do
  guard (valid_kind kind) unknown_kind
  guard (valid_credential_name name) unsafe_name
  guard (not (str_eq value [])) empty_secret
  ok (with_secrets kind (insert name value (secrets kind v)) v)

-- the loop of `Uses`
unfoldable pub referring : Bytes → Dict Bytes → List Bytes
referring name [] = []
referring name ((subject, referenced) ∷ d) =
    let rest = referring name d in if str_eq referenced name then subject ∷ rest else rest

unfoldable pub uses : Kind → Bytes → Vault → List Bytes
unfolding referring
uses kind name v = sort_by (λ x. x) (referring name (subjects kind v))

unfoldable pub is_nil : List Bytes → Bool
is_nil [] = true
is_nil _ = false

unfoldable pub delete : Kind → Bytes → Vault → Result VaultError Vault
unfolding is_nil
delete kind name v = do
  guard (is_nil (uses kind name v)) credential_in_use
  ok (with_secrets kind (remove name (secrets kind v)) v)

unfoldable pub has : Option Bytes → Bool
has none = false
has (some x) = true

unfoldable pub assign : Kind → Bytes → Bytes → Vault → Result VaultError Vault
unfolding valid_kind has
assign kind subject name v = do
  guard (valid_kind kind) unknown_kind
  guard (valid_subject kind subject) unsafe_name
  guard (has (lookup name (secrets kind v))) unknown_credential
  ok (with_subjects kind (insert subject name (subjects kind v)) v)

unfoldable pub unassign : Kind → Bytes → Vault → Vault
unassign kind subject v = with_subjects kind (remove subject (subjects kind v)) v

unfoldable pub assigned : Kind → Bytes → Vault → Option Bytes
assigned kind subject v = lookup subject (subjects kind v)

unfoldable pub found_secret : Kind → Vault → Option Bytes → Option Bytes
found_secret kind v none = none
found_secret kind v (some name) = secret kind name v

unfoldable pub secret_for : Kind → Bytes → Vault → Option Bytes
unfolding found_secret secret
secret_for kind subject v = found_secret kind v (lookup subject (subjects kind v))

-- `Rename` checks the new name of a host, and takes any name for a key
unfoldable pub rename_target : Kind → Bytes → Bool
unfolding validate_alias
rename_target password to = validate_alias to
rename_target _ to = true

unfoldable pub renamed : Kind → Bytes → Bytes → Option Bytes → Vault → Result VaultError Vault
renamed kind from to none v = ok v
renamed kind from to (some name) v = do
  guard (rename_target kind to) unsafe_name
  ok (with_subjects kind (insert to name (remove from (subjects kind v))) v)

unfoldable pub rename : Kind → Bytes → Bytes → Vault → Result VaultError Vault
unfolding renamed
rename kind from to v = renamed kind from to (lookup from (subjects kind v)) v

unfoldable pub put_name : Bytes → Option Bytes → Dict Bytes → Dict Bytes
put_name to none moved = moved
put_name to (some name) moved = insert to name moved

-- the first loop of `RelocateSubjects`: the references to move, by their new subjects
unfoldable pub collect :
    Kind → Dict Bytes → Dict Bytes → Dict Bytes → Result VaultError (Dict Bytes)
unfolding put_name
collect kind old [] moved = ok moved
collect kind old ((from, to) ∷ rest) moved = elim (str_eq from to) [
  | true ↦ collect kind old rest moved
  | false ↦ elim (valid_subject kind to) [
    | false ↦ err unsafe_name
    | true ↦ collect kind old rest (put_name to (lookup from old) moved)
  ]
]

-- the two loops that follow: every source goes, then every reference is put
unfoldable pub remove_all : Dict Bytes → Dict Bytes → Dict Bytes
remove_all [] d = d
remove_all ((from, to) ∷ rest) d = remove_all rest (remove from d)

unfoldable pub insert_all : Dict Bytes → Dict Bytes → Dict Bytes
insert_all [] d = d
insert_all ((to, name) ∷ rest) d = insert_all rest (insert to name d)

unfoldable pub place : Kind → Dict Bytes → Vault → Dict Bytes → Bool × Vault
place kind relocations v [] = (false, v)
place kind relocations v moved =
    (true, with_subjects kind (insert_all moved (remove_all relocations (subjects kind v))) v)

unfoldable pub relocate_subjects : Kind → Dict Bytes → Vault → Result VaultError (Bool × Vault)
unfolding valid_kind collect place
relocate_subjects kind relocations v = do
  guard (valid_kind kind) unknown_kind
  moved ← collect kind (subjects kind v) relocations []
  ok (place kind relocations v moved)
