-- ===== src/Storage/Record.antt =====
-- internal/storage/transaction.go: the document that the journal keeps of a transaction.
use ssh_ui.Base.{ℕ, zero, suc, ◌+◌, Bool, List, [], ◌∷◌, Bytes}

pub data Action : Type 0 where
  write move remove make_dir remove_dir note : Action

pub data Status : Type 0 where
  staging staged completed rolled_back : Status

-- An empty text is a field that the document leaves out.
pub record Entry : Type 0 where
  pub action : Action
  pub path : Bytes
  pub target : Bytes
  pub temp : Bytes
  pub backup : Bytes
  pub no_backup : Bool
  pub had_previous : Bool
  pub mode : ℕ
  pub digest : Bytes
  pub previous_digest : Bytes

pub record Record : Type 0 where
  pub id : Bytes
  pub operation : Bytes
  pub status : Status
  pub committed : ℕ
  pub entries : List Entry

unfoldable pub clear_temp : ℕ → List Entry → List Entry
clear_temp index [] = []
clear_temp zero (e ∷ es) = record e { temp = [] } ∷ es
clear_temp (suc index) (e ∷ es) = e ∷ clear_temp index es

-- `record.Committed = index + 1; record.Entries[index].Temp = ""`
unfoldable pub advance : Record → Record
unfolding clear_temp
advance r = record r { committed = r.committed + 1; entries = clear_temp r.committed r.entries }
