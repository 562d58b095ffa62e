-- ===== src/KnownHosts/Change.antt =====
-- internal/knownhosts/service.go: `Delete` and `Add`, up to the transaction that each asks for. The
-- contents of the file are `none` when there is none. The digest of contents and the decimal of
-- a number are parameters beside those of the file.
pub mod Verified
use ssh_ui.Base.{
  trim_space, ℕ, zero, suc, Bool, true, false, not, ◌&&◌, ◌||◌, Option, none, some, List, [], ◌∷◌,
  ◌++◌, Bytes, codes, ◌==◌, leb, str_eq, if◌then◌else◌, length, all, take_while, drop_while, Result,
  ok, err, ◌>>=◌, ◌>>◌, guard,
}
use ssh_ui.KnownHosts.File.{Problem, Line, File, parse_file, render_lines, fingerprint}

pub data ChangeError : Type 0 where
  unverified_candidate entry_changed no_such_entry unsupported_key_type invalid_public_key :
      ChangeError

pub record Target : Type 0 where
  pub line : ℕ
  pub digest : Bytes

pub record Candidate : Type 0 where
  pub host : Bytes
  pub port : ℕ
  pub key_type : Bytes
  pub key : Bytes
  pub fingerprint : Bytes
  pub verified : Bool

-- The request that `commit` makes: the one change, of the file, and what it expects to find.
pub record Update : Type 0 where
  pub operation : Bytes
  pub contents : Bytes
  pub exists : Bool
  pub digest : Bytes

unfoldable pub bytes_of : Option Bytes → Bytes
bytes_of none = []
bytes_of (some contents) = contents

is_present : Option Bytes → Bool
is_present none = false
is_present (some contents) = true

is_one_of : Bytes → List Bytes → Bool
is_one_of s [] = false
is_one_of s (t ∷ ts) = str_eq s t || is_one_of s ts

unfoldable pub supported_key_type : Bytes → Bool
unfolding is_one_of
supported_key_type s = is_one_of s (
    codes "ssh-ed25519"
    ∷ codes "ssh-rsa"
    ∷ codes "rsa-sha2-256"
    ∷ codes "rsa-sha2-512"
    ∷ codes "ecdsa-sha2-nistp256"
    ∷ codes "ecdsa-sha2-nistp384"
    ∷ codes "ecdsa-sha2-nistp521"
    ∷ codes "sk-ssh-ed25519@openssh.com"
    ∷ codes "sk-ecdsa-sha2-nistp256@openssh.com"
    ∷ [])

is_base64 : ℕ → Bool
is_base64 c =
    leb b'A' c && leb c b'Z'
    || leb b'a' c && leb c b'z'
    || leb b'0' c && leb c b'9'
    || c == b'+'
    || c == b'/'

is_padding : Bytes → Bool
is_padding s = all (λ c. c == b'=') s && leb (length s) 3

is_some_text : Bytes → Bool
is_some_text [] = false
is_some_text (c ∷ s) = true

-- `base64Pattern`
unfoldable pub is_base64_text : Bytes → Bool
unfolding is_base64 is_padding is_some_text
is_base64_text s = is_some_text (take_while is_base64 s) && is_padding (drop_while is_base64 s)

unfoldable pub ends_line : Bytes → Bool
ends_line [] = true
ends_line (c ∷ []) = c == b'\n'
ends_line (c ∷ d ∷ cs) = ends_line (d ∷ cs)

module _ (decode : Bytes → Option Bytes) (digest : Bytes → Bytes) (mac : Bytes → Bytes → Bytes)
    (sum : Bytes → Bytes) (itoa : ℕ → Bytes) where
  unfoldable pub commit : Bytes → Option Bytes → Bytes → Update
  unfolding is_present
  commit operation previous updated = record {
    operation = operation;
    contents = updated;
    exists = is_present previous;
    digest = sum (bytes_of previous);
  }

  -- the loop of `Delete` over the lines, for one target
  unfoldable pub find_target : Target → Bool → List Line → Result ChangeError (Unit {0})
  find_target t found [] = guard found no_such_entry
  find_target t found (l ∷ ls) = elim (l.number == t.line) [
    | false ↦ find_target t found ls
    | true ↦ elim (str_eq (sum l.raw) t.digest) [
      | true ↦ find_target t true ls
      | false ↦ err entry_changed
    ]
  ]

  unfoldable pub find_targets : List Target → List Line → Result ChangeError (Unit {0})
  unfolding find_target
  find_targets [] ls = ok tt
  find_targets (t ∷ ts) ls = do find_target t false ls; find_targets ts ls

  unfoldable pub is_removed : List Target → ℕ → Bool
  is_removed [] number = false
  is_removed (t ∷ ts) number = t.line == number || is_removed ts number

  unfoldable pub remaining : List Target → List Line → List Line
  unfolding is_removed
  remaining ts [] = []
  remaining ts (l ∷ ls) =
      let rest = remaining ts ls in if is_removed ts l.number then rest else l ∷ rest

  unfoldable pub delete : Option Bytes → List Target → Result ChangeError Update
  unfolding find_targets remaining parse_file commit render_lines
  delete contents targets = do
    let ls = (parse_file decode digest mac (bytes_of contents)).lines
    find_targets targets ls
    ok (commit (codes "known_hosts.delete") contents (render_lines (remaining targets ls)))

  unfoldable pub host_field : Candidate → Bytes
  host_field c =
      if c.port == 22 then c.host else codes "[" ++ (c.host ++ (codes "]:" ++ itoa c.port))

  unfoldable pub new_line : Candidate → Bytes
  unfolding host_field
  new_line c = host_field c ++ (codes " " ++ (c.key_type ++ (codes " " ++ c.key)))

  unfoldable pub is_listed : Bytes → List Line → Bool
  unfolding trim_space
  is_listed line [] = false
  is_listed line (l ∷ ls) = str_eq (trim_space l.raw) line || is_listed line ls

  unfoldable pub key_print : Result Problem Bytes → Result ChangeError Bytes
  key_print (ok print) = ok print
  key_print (err problem) = err invalid_public_key

  -- the fingerprint that is expected, or without one the acknowledgement
  unfoldable pub is_verified : Bytes → Bytes → Bool → Bool
  is_verified [] print acknowledged = acknowledged
  is_verified expected print acknowledged = str_eq expected print

  unfoldable pub with_break : Bytes → Bytes
  unfolding ends_line
  with_break contents = if ends_line contents then contents else contents ++ codes "\n"

  -- `none`: the line is there already
  unfoldable pub add : Option Bytes → Candidate → Bytes → Bool → Result ChangeError (Option Update)
  unfolding supported_key_type is_base64_text key_print is_verified is_listed new_line with_break
      commit parse_file
  add contents c expected acknowledged = do
    guard (supported_key_type c.key_type) unsupported_key_type
    guard (is_base64_text c.key) invalid_public_key
    print ← key_print (fingerprint decode digest mac c.key)
    guard (is_verified expected print acknowledged) unverified_candidate
    ok (
        if is_listed (new_line c) (parse_file decode digest mac (bytes_of contents)).lines
        then none
        else some (
            commit (codes "known_hosts.add") contents
              (with_break (bytes_of contents) ++ (new_line c ++ codes "\n"))))
