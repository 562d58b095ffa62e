-- ===== src/Groups/Path.antt =====
-- internal/application/grouppath.go. An order, which the source keeps in an int, is shifted to be
-- a natural number: only comparisons are made of it.
pub mod RoundTrip
use ssh_ui.Base.{
  ℕ, zero, suc, Bool, true, false, not, ◌&&◌, ◌||◌, Option, none, some, List, [], ◌∷◌, ◌++◌, Bytes,
  codes, ◌==◌, leb, ltb, str_eq, has_prefix, contains_byte, if◌then◌else◌, length, all, split_byte,
  join, to_lower, str_leb,
}

abbrev pub connections_directory : Bytes
connections_directory = codes "connections"

abbrev pub keys_directory : Bytes
keys_directory = codes "keys"

abbrev pub max_group_segments : ℕ
max_group_segments = 6

abbrev pub max_group_segment_bytes : ℕ
max_group_segment_bytes = 64

abbrev reserved : List Bytes
reserved =
    codes "sshc"
    ∷ codes "config"
    ∷ codes "known_hosts"
    ∷ codes "known_hosts2"
    ∷ codes "authorized_keys"
    ∷ codes "authorized_keys2"
    ∷ codes "environment"
    ∷ codes "rc"
    ∷ codes "connections"
    ∷ codes "keys"
    ∷ []

is_among : Bytes → List Bytes → Bool
is_among s [] = false
is_among s (t ∷ ts) = str_eq s t || is_among s ts

unfoldable pub is_segment_byte : ℕ → Bool
is_segment_byte c =
    leb b'A' c && leb c b'Z'
    || leb b'a' c && leb c b'z'
    || leb b'0' c && leb c b'9'
    || c == b'.'
    || c == b'-'
    || c == b'_'

-- `validateGroupSegment`; `.` and `..` begin with a dot
unfoldable pub valid_segment : Bytes → Bool
unfolding is_among is_segment_byte
valid_segment s =
    not (str_eq s [] || ltb max_group_segment_bytes (length s))
    && (not (has_prefix s (codes "."))
        && (not (is_among (to_lower s) reserved) && all is_segment_byte s))

unfoldable pub validate_group_name : Bytes → Bool
unfolding valid_segment
validate_group_name name =
    let segments = split_byte b'/' name in
    not (str_eq name [] || contains_byte 0 name)
    && (leb (length segments) max_group_segments && all valid_segment segments)

unfoldable pub group_directory : Bytes → Bytes
group_directory name = connections_directory ++ (codes "/" ++ name)

unfoldable pub group_key_directory : Bytes → Bytes
group_key_directory name = keys_directory ++ (codes "/" ++ name)

unfoldable pub group_include_pattern : Bytes → Bytes
unfolding group_directory
group_include_pattern name = group_directory name ++ codes "/*.conf"

-- `strings.HasSuffix`
unfoldable pub has_suffix : Bytes → Bytes → Bool
has_suffix [] suffix = str_eq [] suffix
has_suffix (c ∷ cs) suffix = str_eq (c ∷ cs) suffix || has_suffix cs suffix

unfoldable pub group_file_name : Bytes → Bytes
unfolding has_suffix
group_file_name base =
    if has_suffix base (codes ".conf") && not (str_eq base (codes ".conf"))
    then base
    else base ++ codes ".conf"

-- `strings.ReplaceAll(relative, "\\", "/")`
unfoldable pub slashes : Bytes → Bytes
slashes [] = []
slashes (c ∷ cs) = (if c == b'\\' then b'/' else c) ∷ slashes cs

unfoldable pub trim_dot : Bytes → Bytes
trim_dot (c ∷ d ∷ cs) = if c == b'.' && d == b'/' then cs else c ∷ d ∷ cs
trim_dot s = s

-- `segments[:len(segments)-1]`
unfoldable pub all_but_last : List Bytes → List Bytes
all_but_last [] = []
all_but_last (s ∷ []) = []
all_but_last (s ∷ t ∷ ts) = s ∷ all_but_last (t ∷ ts)

unfoldable pub valid_name : Bytes → Option Bytes
valid_name name = if validate_group_name name then some name else none

-- three segments or more, the first of them the root
unfoldable pub group_of_segments : Bytes → List Bytes → Option Bytes
unfolding valid_name validate_group_name all_but_last
group_of_segments root (first ∷ second ∷ third ∷ rest) =
    if str_eq first root
    then valid_name (join (codes "/") (all_but_last (second ∷ third ∷ rest)))
    else none
group_of_segments root _ = none

-- `groupOfPath`
unfoldable pub group_of : Bytes → Bytes → Option Bytes
unfolding group_of_segments slashes trim_dot
group_of relative root = group_of_segments root (split_byte b'/' (trim_dot (slashes relative)))

unfoldable pub group_of_path : Bytes → Option Bytes
unfolding group_of
group_of_path relative = group_of relative connections_directory

unfoldable pub group_of_key_path : Bytes → Option Bytes
unfolding group_of
group_of_key_path relative = group_of relative keys_directory

unfoldable pub parent_group_name : Bytes → Bytes
unfolding all_but_last
parent_group_name name = join (codes "/") (all_but_last (split_byte b'/' name))

unfoldable pub group_segments : Bytes → List Bytes
group_segments [] = []
group_segments name = split_byte b'/' name

unfoldable pub group_depth : Bytes → ℕ
unfolding group_segments
group_depth name = length (group_segments name)

-- the comparator of `GroupNameOrder`
unfoldable pub comes_before : (Bytes → ℕ) → Bytes → Bytes → Bool
unfolding group_depth
comes_before order a b =
    if not (group_depth a == group_depth b)
    then ltb (group_depth b) (group_depth a)
    else if not (order a == order b)
    then ltb (order a) (order b)
    else str_leb a b && not (str_eq a b)

-- `sort.SliceStable`: a name goes behind those that do not come after it
unfoldable pub insert_name : (Bytes → ℕ) → Bytes → List Bytes → List Bytes
unfolding comes_before
insert_name order name [] = name ∷ []
insert_name order name (n ∷ ns) =
    if comes_before order n name then n ∷ insert_name order name ns else name ∷ n ∷ ns

unfoldable pub group_name_order : (Bytes → ℕ) → List Bytes → List Bytes
unfolding insert_name
group_name_order order [] = []
group_name_order order (n ∷ ns) = insert_name order n (group_name_order order ns)
