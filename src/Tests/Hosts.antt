-- ===== src/Tests/Hosts.antt =====
-- internal/knownhosts and the host patterns, at concrete inputs: the decoding is the identity, and
-- a digest is the text itself.
use ssh_ui.Base.{ℕ, ◌≡◌, refl, true, false, some, [], Bytes, codes, all}
use ssh_ui.Glob.{answer, match_pattern}
use ssh_ui.Glob.Meaning.{means}
use ssh_ui.Glob.Decides.{match_pattern-means, match_pattern-star}
use ssh_ui.KnownHosts.File.{render, parse_file, fingerprint}
use ssh_ui.KnownHosts.File.Lossless.{render-parse_file}
use ssh_ui.KnownHosts.Change.{Candidate, Update}

match_pattern-means_example :
    match_pattern (codes "web-?*.lan") (codes "web-12.lan")
    ≡ answer (means (codes "web-?*.lan") (codes "web-12.lan"))
match_pattern-means_example =
    match_pattern-means (codes "web-?*.lan") (codes "web-12.lan") (unfold all in refl)

matched : match_pattern (codes "web-?*.lan") (codes "web-12.lan") ≡ answer true
unfolding match_pattern
matched = refl

match_pattern-star_example : match_pattern (codes "*") (codes "*.lan") ≡ answer false
match_pattern-star_example = match_pattern-star b'.' (codes "lan")

abbrev hosts : Bytes
hosts = codes "# one\nweb ssh-rsa AAAA me\r\n\nbad"

abbrev same : Bytes → Bytes
same b = b

abbrev keyed : Bytes → Bytes → Bytes
keyed salt host = host

render-parse_file_example : render (parse_file some same keyed hosts) ≡ hosts
render-parse_file_example = render-parse_file some same keyed hosts

abbrev candidate : Candidate
candidate = record {
  host = codes "web";
  port = 2222;
  key_type = codes "ssh-ed25519";
  key = codes "AAAA";
  fingerprint = [];
  verified = false;
}

abbrev decimal : ℕ → Bytes
decimal n = codes "2222"

abbrev update : Update
update = record {
  operation = codes "known_hosts.add";
  contents = codes "# one\nweb ssh-rsa AAAA me\r\n\nbad\n[web]:2222 ssh-ed25519 AAAA\n";
  exists = true;
  digest = hosts;
}
