-- ===== src/KnownHosts/Change/Verified.antt =====
-- internal/knownhosts/service.go: what a key that is added was checked for, and what is written.
use ssh_ui.Base.{
  ◌≢◌, trim_space, ℕ, ◌≡◌, refl, ◌⊎◌, Bool, true, false, Option, none, some, List, [], ◌∷◌, ◌++◌,
  Bytes, codes, ok, guard,
}
use ssh_ui.KnownHosts.File.{Line, parse_file}
use ssh_ui.KnownHosts.Change.{Candidate, Update, bytes_of}

pub guard-ok : {E : Type 0} (b : Bool) (e : E) → guard b e ≡ ok tt → b ≡ true
guard-ok true e h = refl
guard-ok false e h = cc

module _ (decode : Bytes → Option Bytes) (digest : Bytes → Bytes) (mac : Bytes → Bytes → Bytes)
    (sum : Bytes → Bytes) (itoa : ℕ → Bytes) where
  -- The host as the file names it: in brackets with its port when that is not 22.
  abbrev pub IsHost : Candidate → Bytes → Type 0
  IsHost c host =
      ((c.port ≡ 22) × (host ≡ c.host))
      ⊎ ((c.port ≢ 22) × (host ≡ codes "[" ++ (c.host ++ (codes "]:" ++ itoa c.port))))

  -- The line of a key: the host, the type and the key, with a space between each two.
  abbrev pub IsLineOf : Candidate → Bytes → Type 0
  IsLineOf c line =
      (host : Bytes) × IsHost c host
      × (line ≡ host ++ (codes " " ++ (c.key_type ++ (codes " " ++ c.key))))

  -- some line of a list is the one given, but for the space around it
  abbrev pub IsAmong : Bytes → List Line → Type 0
  IsAmong line [] = ⊥
  IsAmong line (l ∷ ls) = (trim_space l.raw ≡ line) ⊎ IsAmong line ls

  abbrev pub IsThere : Option Bytes → Bool → Type 0
  IsThere none exists = exists ≡ false
  IsThere (some contents) exists = exists ≡ true

  -- What is written when a key is added.
  abbrev pub IsAppended : Option Bytes → Bytes → Update → Type 0
  IsAppended contents line u =
      (added : Bytes) × ((added ≡ []) ⊎ (added ≡ codes "\n"))
      × (u.contents ≡ (bytes_of contents ++ added) ++ (line ++ codes "\n"))
      × IsThere contents u.exists
      × (u.digest ≡ sum (bytes_of contents))

  abbrev pub IsAddedOrThere : Option Bytes → Bytes → Option Update → Type 0
  IsAddedOrThere contents line none =
      IsAmong line (parse_file decode digest mac (bytes_of contents)).lines
  IsAddedOrThere contents line (some u) = IsAppended contents line u
