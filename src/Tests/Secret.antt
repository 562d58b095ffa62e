-- ===== src/Tests/Secret.antt =====
-- internal/secret/vault.go, at concrete inputs.
use ssh_ui.Base.{
  ◌≡◌, refl, true, none, some, List, [], ◌∷◌, codes, ok, lookup, str_eq, contains_any,
  contains_byte,
}
use ssh_ui.Secret.Vault.{
  subjects, password, key_passphrase, Vault, has, assigned, relocate_subjects, valid_subject,
}
use ssh_ui.Secret.Vault.Linked.{IsLinked}
use ssh_ui.Secret.Vault.Edits.{
  Edit, set_edit, delete_edit, assign_edit, rename_edit, edits, edits-IsLinked,
}
use ssh_ui.Secret.Vault.Relocate.{relocate_subjects-swap, relocate_subjects-lost}

abbrev empty : Vault
empty = record { key = codes "k"; passwords = []; key_passphrases = []; hosts = []; keys = [] }

abbrev two_keys : Vault
two_keys = record empty {
  key_passphrases = (codes "n", codes "1") ∷ (codes "m", codes "2") ∷ [];
  keys = (codes "a", codes "n") ∷ (codes "b", codes "m") ∷ [];
}

abbrev some_edits : List Edit
some_edits =
    set_edit password (codes "office") (codes "x")
    ∷ assign_edit password (codes "web") (codes "office")
    ∷ delete_edit password (codes "office")
    ∷ rename_edit password (codes "web") (codes "www")
    ∷ []

edits-IsLinked_example : IsLinked (edits some_edits empty)
edits-IsLinked_example = edits-IsLinked some_edits empty (tt, tt)

two_keys-IsLinked : IsLinked two_keys
unfolding has lookup str_eq
two_keys-IsLinked = (tt, (refl, (refl, tt)))

abbrev with_three : Vault
with_three = record two_keys {
  key_passphrases = (codes "n", codes "1") ∷ (codes "m", codes "3") ∷ [];
}

abbrev reassigned : Vault
reassigned = record with_three { keys = (codes "a", codes "m") ∷ (codes "b", codes "m") ∷ [] }

relocate_subjects-swap_example :
    (w : Vault) × (relocate_subjects key_passphrase
        ((codes "a", codes "b") ∷ (codes "b", codes "a") ∷ [])
        two_keys
      ≡ ok (true, w))
    × (assigned key_passphrase (codes "b") w ≡ some (codes "n"))
    × (assigned key_passphrase (codes "a") w ≡ some (codes "m"))
unfolding assigned lookup str_eq subjects valid_subject contains_any contains_byte
relocate_subjects-swap_example =
    relocate_subjects-swap (codes "a") (codes "b") (codes "n") (codes "m") two_keys refl refl refl
      refl refl

relocate_subjects-lost_example :
    (w : Vault) × (relocate_subjects key_passphrase
        ((codes "a", codes "a") ∷ (codes "b", codes "c") ∷ [])
        two_keys
      ≡ ok (true, w))
    × (assigned key_passphrase (codes "a") w ≡ none)
unfolding assigned lookup str_eq subjects valid_subject contains_any contains_byte
relocate_subjects-lost_example =
    relocate_subjects-lost (codes "a") (codes "b") (codes "c") (codes "m") two_keys refl refl refl
      refl
