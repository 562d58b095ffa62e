-- ===== src/KnownHosts/File.antt =====
-- internal/knownhosts/file.go. The decoding of base64, the fingerprint of a blob and the keyed
-- hash of a host are parameters. Space is that of ASCII texts.
pub mod Lossless
use ssh_ui.Base.{
  ℕ, zero, suc, ◌+◌, Bool, true, false, not, ◌&&◌, ◌||◌, Option, none, some, List, [], ◌∷◌, ◌++◌,
  Bytes, codes, ◌==◌, str_eq, has_prefix, contains_byte, if◌then◌else◌, length, is_white,
  trim_space, split_byte, join, to_lower, Result, ok, err, ◌>>=◌, ◌>>◌, or_err, guard,
}
use ssh_ui.Config.Parse.{split_line}
use ssh_ui.Glob.{Answer, answer, match_host_pattern}

pub record Entry : Type 0 where
  pub marker : Bytes
  pub hosts : List Bytes
  pub hashed : Bool
  pub key_type : Bytes
  pub key : Bytes
  pub fingerprint : Bytes
  pub comment : Bytes

pub data Problem : Type 0 where
  too_few_fields invalid_key : Problem

pub record Line : Type 0 where
  pub number : ℕ
  pub raw : Bytes
  pub ending : Bytes
  pub entry : Option Entry
  pub problem : Option Problem

pub record File : Type 0 where
  pub lines : List Line

push_field : Bytes → List Bytes → List Bytes
push_field [] fields = fields
push_field field fields = field ∷ fields

-- `strings.Fields`: the field that is open, and those behind it
unfoldable pub fields_from : Bytes → Bytes × List Bytes
unfolding is_white push_field
fields_from [] = ([], [])
fields_from (c ∷ cs) =
    let rest = fields_from cs in
    if is_white c then ([], push_field rest.0 rest.1) else (c ∷ rest.0, rest.1)

unfoldable pub fields : Bytes → List Bytes
unfolding fields_from push_field
fields s = let rest = fields_from s in push_field rest.0 rest.1

module _ (decode : Bytes → Option Bytes) (digest : Bytes → Bytes)
    (mac : Bytes → Bytes → Bytes) where
  digest_of : Option Bytes → Result Problem Bytes
  digest_of none = err invalid_key
  digest_of (some []) = err invalid_key
  digest_of (some blob) = ok (codes "SHA256:" ++ digest blob)

  unfoldable pub fingerprint : Bytes → Result Problem Bytes
  unfolding digest_of
  fingerprint encoded = digest_of (decode encoded)

  -- behind the marker
  unfoldable pub entry_of : Bytes → List Bytes → Result Problem Entry
  unfolding fingerprint
  entry_of marker (hosts ∷ key_type ∷ key ∷ comment) = do
    print ← fingerprint key
    ok (record {
      marker = marker;
      hosts = split_byte b',' hosts;
      hashed = has_prefix hosts (codes "|1|");
      key_type = key_type;
      key = key;
      fingerprint = print;
      comment = join (codes " ") comment;
    })
  entry_of marker _ = err too_few_fields

  unfoldable pub entry_fields : List Bytes → Result Problem Entry
  unfolding entry_of
  entry_fields [] = entry_of [] []
  entry_fields (first ∷ rest) =
      if has_prefix first (codes "@") then entry_of first rest else entry_of [] (first ∷ rest)

  unfoldable pub parse_entry : Bytes → Result Problem Entry
  unfolding entry_fields fields
  parse_entry text = entry_fields (fields text)

  abbrev plain_line : ℕ → Bytes → Bytes → Line
  plain_line number raw ending = record {
    number = number;
    raw = raw;
    ending = ending;
    entry = none;
    problem = none;
  }

  with_entry : Line → Result Problem Entry → Line
  with_entry l (ok entry) = record l { entry = some entry }
  with_entry l (err problem) = record l { problem = some problem }

  is_silent : Bytes → Bool
  is_silent [] = true
  is_silent (c ∷ cs) = c == b'#'

  -- one round of `ParseFile`
  unfoldable pub read_line : ℕ → Bytes → Bytes → Line
  unfolding with_entry is_silent parse_entry trim_space
  read_line number raw ending =
      if is_silent (trim_space raw)
      then plain_line number raw ending
      else with_entry (plain_line number raw ending) (parse_entry (trim_space raw))

  -- the loop; the fuel bounds the number of lines
  unfoldable pub lines_loop : ℕ → ℕ → Bytes → List Line
  unfolding split_line read_line
  lines_loop zero number remaining = []
  lines_loop (suc fuel) number [] = []
  lines_loop (suc fuel) number (c ∷ cs) =
      let piece = split_line (c ∷ cs) in
      read_line number piece.content piece.ending ∷ lines_loop fuel (number + 1) piece.rest

  unfoldable pub parse_file : Bytes → File
  unfolding lines_loop
  parse_file contents = record { lines = lines_loop (length contents) 1 contents }

  -- `hashedMatch`
  unfoldable pub hashed_parts : List Bytes → Bytes → Bool
  hashed_parts (before ∷ version ∷ salt ∷ hash ∷ []) host =
      str_eq version (codes "1") && elim (decode salt) [
        | none ↦ false
        | some s ↦ elim (decode hash) [
          | none ↦ false
          | some expected ↦ str_eq (mac s host) expected
        ]
      ]
  hashed_parts _ host = false

  is_yes : Answer → Bool
  is_yes (answer b) = b
  is_yes _ = false

  -- the loop of `MatchesHost`
  unfoldable pub any_host : Bool → List Bytes → Bytes → Bool
  unfolding hashed_parts is_yes match_host_pattern
  any_host hashed [] host = false
  any_host hashed (pattern ∷ patterns) host =
      (if hashed
        then hashed_parts (split_byte b'|' pattern) host
        else is_yes (match_host_pattern pattern host))
      || any_host hashed patterns host

  unfoldable pub matches_host : Entry → Bytes → Bool
  unfolding any_host
  matches_host e host = any_host e.hashed e.hosts host

unfoldable pub render_lines : List Line → Bytes
render_lines [] = []
render_lines (l ∷ ls) = l.raw ++ (l.ending ++ render_lines ls)

unfoldable pub render : File → Bytes
unfolding render_lines
render f = render_lines f.lines

has_entry : Option Entry → Bool
has_entry none = false
has_entry (some e) = true

-- the loop of `Entries`
unfoldable pub entries : List Line → List Line
unfolding has_entry
entries [] = []
entries (l ∷ ls) = let rest = entries ls in if has_entry l.entry then l ∷ rest else rest

-- `strings.Contains`
unfoldable pub has_part : Bytes → Bytes → Bool
has_part [] part = has_prefix [] part
has_part (c ∷ cs) part = has_prefix (c ∷ cs) part || has_part cs part

haystack : Option Entry → Bytes
haystack none = []
haystack (some e) =
    join (codes ",") e.hosts
    ++ (codes " " ++ (e.key_type ++ (codes " " ++ (e.fingerprint ++ (codes " " ++ e.comment)))))

found : Bytes → List Line → List Line
found wanted [] = []
found wanted (l ∷ ls) =
    let rest = found wanted ls in
    if has_part (to_lower (haystack l.entry)) wanted then l ∷ rest else rest

-- every text has the empty part
unfoldable pub search_lines : File → Bytes → List Line
unfolding found entries has_part haystack trim_space
search_lines f query = found (to_lower (trim_space query)) (entries f.lines)
