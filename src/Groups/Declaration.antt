-- ===== src/Groups/Declaration.antt =====
-- internal/application/groups.go: `DeclaredGroups`, the groups that the region of a file includes.
use ssh_ui.Base.{
  ℕ, ◌-◌, not, ◌&&◌, Option, none, some, List, [], ◌∷◌, ◌++◌, Bytes, codes, str_eq, has_prefix,
  if◌then◌else◌,
}
use ssh_ui.Config.Line.{Line, values}
use ssh_ui.Config.Parse.{File}
use ssh_ui.Config.Comment.{slice}
use ssh_ui.Groups.Path.{connections_directory, validate_group_name, has_suffix}
use ssh_ui.Groups.Region.{is_one, is_include, generated_region}

-- `strings.TrimSuffix(strings.TrimPrefix(value, prefix), suffix)`, for a value that has both
unfoldable pub cut_prefix : Bytes → Bytes → Bytes
cut_prefix s [] = s
cut_prefix [] (p ∷ ps) = []
cut_prefix (c ∷ cs) (p ∷ ps) = cut_prefix cs ps

unfoldable pub cut_suffix : Bytes → Bytes → Bytes
cut_suffix [] suffix = []
cut_suffix (c ∷ cs) suffix = if str_eq (c ∷ cs) suffix then [] else c ∷ cut_suffix cs suffix

unfoldable pub group_of_value : Bytes → Option Bytes
unfolding cut_prefix cut_suffix
group_of_value value =
    if has_prefix value (connections_directory ++ codes "/") && has_suffix value (codes "/*.conf")
    then some (cut_suffix (cut_prefix value (connections_directory ++ codes "/")) (codes "/*.conf"))
    else none

unfoldable pub add_name : List Bytes → Option Bytes → List Bytes
unfolding is_one
add_name names none = names
add_name names (some name) =
    if validate_group_name name && not (is_one name names) then names ++ (name ∷ []) else names

-- the loops of `DeclaredGroups`, with the names so far
unfoldable pub declared_values : List Bytes → List Bytes → List Bytes
unfolding add_name group_of_value cut_prefix cut_suffix
declared_values names [] = names
declared_values names (v ∷ vs) = declared_values (add_name names (group_of_value v)) vs

unfoldable pub declared_lines : List Bytes → List Line → List Bytes
unfolding declared_values is_include
declared_lines names [] = names
declared_lines names (l ∷ ls) =
    declared_lines (if is_include l then declared_values names (values l) else names) ls

unfoldable pub declared_in : List Line → Option (ℕ × ℕ) → List Bytes
declared_in ls none = []
declared_in ls (some (start, end)) = declared_lines [] (slice ls start (end - start))

unfoldable pub declared_groups : File → List Bytes
unfolding declared_in generated_region declared_lines
declared_groups f = declared_in f.lines (generated_region f)
