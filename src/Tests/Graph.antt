-- ===== src/Tests/Graph.antt =====
-- internal/config/graph.go, at concrete inputs: a file that includes itself, a file twice, and one
-- that is not there.
use ssh_ui.Config.Line.{equal_keyword, render_arguments, values}
use ssh_ui.Config.Token.{split_arguments}
use ssh_ui.Config.Parse.{cut_return, split_separator}
use ssh_ui.Base.{
  ◌≡◌, refl, true, none, [], ◌∷◌, Bytes, codes, str_eq, if◌then◌else◌, Result, ok, err,
  contains_byte, cut_byte, has_prefix, join, split_byte, trim_right,
}
use ssh_ui.Config.Include.{Resolver, ReadFailure}
use ssh_ui.Config.Graph.{ResolveError, Graph, resolve}
use ssh_ui.Config.Graph.Once.{IsOnce, resolve-IsOnce}
use ssh_ui.Config.Graph.Complete.{IsWhole, resolve-IsWhole}

abbrev read : Bytes → Result ReadFailure Bytes
read path =
    if str_eq path (codes "/s/config")
    then ok (codes "Include a config\nHost b\n\tInclude a ~/c\n")
    else if str_eq path (codes "/s/a")
    then ok (codes "User me\n")
    else err (record { not_exist = true; text = codes "gone" })

abbrev resolver : Resolver
resolver = record {
  read_file = read;
  glob = λ pattern. ok (pattern ∷ []);
  home = codes "/h";
  root = codes "/s";
  normalise = none;
  tokens = λ c. none;
  max_depth = 0;
  generated_region = none;
}

abbrev graph_of : Result ResolveError Graph → Graph
graph_of (ok g) = g
graph_of (err e) = record { root = []; order = []; nodes = []; diagnostics = [] }

abbrev graph : Graph
graph = graph_of (resolve resolver (codes "/s/./config"))

resolved : resolve resolver (codes "/s/./config") ≡ ok graph
unfolding resolve has_prefix
resolved = refl

visited : graph.order ≡ codes "/s/config" ∷ codes "/s/a" ∷ codes "/h/c" ∷ []
unfolding resolve has_prefix str_eq join split_byte cut_byte cut_return split_arguments
    split_separator equal_keyword values contains_byte trim_right render_arguments
visited = refl

resolve-IsOnce_example : IsOnce graph
resolve-IsOnce_example = resolve-IsOnce resolver (codes "/s/./config") graph resolved

resolve-IsWhole_example : IsWhole resolver (codes "/s/./config") graph
resolve-IsWhole_example = resolve-IsWhole resolver (codes "/s/./config") graph resolved
