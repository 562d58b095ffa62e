-- ===== src/Tests/Groups.antt =====
-- internal/application/grouppath.go and region.go, at concrete inputs.
use ssh_ui.Config.Line.{equal_keyword}
use ssh_ui.Config.Token.{render_argument, split_arguments}
use ssh_ui.Base.{
  ◌≡◌, refl, true, false, some, List, [], ◌∷◌, ◌++◌, Bytes, codes, Result, ok, err, all, has_prefix,
  contains_any, contains_byte, cut_byte, drop_while, split_byte, str_eq, to_lower, trim_right,
}
use ssh_ui.Config.Parse.{File, parse, cut_return, split_separator}
use ssh_ui.Groups.Path.{validate_group_name, group_directory, group_of_path, group_include_pattern}
use ssh_ui.Groups.Path.RoundTrip.{group_of_path-group_directory}
use ssh_ui.Groups.Region.{is_one, RegionError, RegionPlan, plan_region, apply_region}
use ssh_ui.Groups.Declaration.{declared_groups}
use ssh_ui.Groups.Region.Written.{IsFresh}
use ssh_ui.Groups.Region.Declared.{declared_groups-apply_region}

group_of_path-group_directory_example :
    group_of_path (group_directory (codes "prod/db") ++ (codes "/" ++ codes "web.conf"))
    ≡ some (codes "prod/db")
unfolding str_eq contains_byte split_byte all has_prefix to_lower
group_of_path-group_directory_example =
    group_of_path-group_directory (codes "prod/db") (codes "web.conf")
      (unfold validate_group_name in refl) (unfold all in refl) (unfold all in refl)

-- an entry file with the region of one group
abbrev entry : File
entry = parse (
    codes
      "# >>> sshc groups (generated). Child groups first: OpenSSH keeps the first value it reads.\nInclude connections/old/*.conf\n# <<< sshc groups\nHost web\n\tUser me\n")

abbrev groups : List Bytes
groups = codes "prod/db" ∷ codes "prod" ∷ []

abbrev plan_of : Result RegionError RegionPlan → RegionPlan
plan_of (ok plan) = plan
plan_of (err e) = record {
  insert_at = 0;
  replace_from = 0;
  replace_to = 0;
  replacing = false;
  remove_from = 0;
  remove_to = 0;
  removing = true;
  lines = [];
}

abbrev file_of : Result RegionError File → File
file_of (ok f) = f
file_of (err e) = entry

abbrev planned : RegionPlan
planned = plan_of (plan_region entry groups (codes "sshc/groups.conf"))

abbrev written : File
written = file_of (apply_region entry planned)

fresh : IsFresh [] groups
unfolding validate_group_name is_one str_eq contains_byte split_byte all has_prefix to_lower
fresh = (refl, refl, (refl, refl, tt))

planned_lem : plan_region entry groups (codes "sshc/groups.conf") ≡ ok planned
unfolding plan_region parse drop_while cut_byte cut_return str_eq trim_right split_arguments
    split_separator render_argument contains_any group_include_pattern contains_byte has_prefix
    equal_keyword
planned_lem = refl

planned_stays : planned.removing ≡ false
unfolding plan_region parse drop_while cut_byte cut_return str_eq trim_right split_arguments
    split_separator render_argument contains_any group_include_pattern contains_byte has_prefix
    equal_keyword
planned_stays = refl

written_lem : apply_region entry planned ≡ ok written
unfolding apply_region plan_region parse drop_while cut_byte cut_return str_eq trim_right
    split_arguments split_separator render_argument contains_any group_include_pattern contains_byte
    has_prefix equal_keyword
written_lem = refl

declared_groups-apply_region_example : declared_groups written ≡ groups
declared_groups-apply_region_example =
    declared_groups-apply_region entry written groups (codes "sshc/groups.conf") planned fresh
      (unfold has_prefix in refl) planned_lem planned_stays written_lem
