-- ===== src/KnownHosts/File/Lossless.antt =====
-- internal/knownhosts/file.go: a file that is read and rendered again.
use ssh_ui.Base.{
  trim_space, ℕ, zero, suc, ◌+◌, ◌≤◌, ◌≡◌, refl, Bool, true, false, Option, [], ◌∷◌, arith, Bytes,
  length, if◌then◌else◌, Result, ok, err,
}
use ssh_ui.Config.Parse.{split_line}
use ssh_ui.Config.Parse.Lossless.{split_line-IsPieceOf, split_line-shorter}
use ssh_ui.KnownHosts.File.{
  Entry, Problem, Line, read_line, with_entry, is_silent, parse_entry, plain_line, lines_loop,
  parse_file, render_lines, render,
}

module _ (decode : Bytes → Option Bytes) (digest : Bytes → Bytes)
    (mac : Bytes → Bytes → Bytes) where
  -- a line keeps its text and its ending, whatever is read of it
  pub read_line-kept :
      (n : ℕ) (raw ending : Bytes)
      → ((read_line decode digest mac n raw ending).raw ≡ raw)
        × ((read_line decode digest mac n raw ending).ending ≡ ending)
  unfolding read_line
  read_line-kept n raw ending =
      go (is_silent decode digest mac (trim_space raw))
        (parse_entry decode digest mac (trim_space raw))
    where
      bare : Line
      bare = plain_line decode digest mac n raw ending

      go :
          (b : Bool) (r : Result Problem Entry)
          → ((if b then bare else with_entry decode digest mac bare r).raw ≡ raw)
            × ((if b then bare else with_entry decode digest mac bare r).ending ≡ ending)
      go true r = (refl, refl)
      go false (ok e) = (refl, refl)
      go false (err x) = (refl, refl)

  lines_loop-lossless :
      (fuel n : ℕ) (text : Bytes)
      → length text ≤ fuel
      → render_lines (lines_loop decode digest mac fuel n text) ≡ text
  unfolding lines_loop render_lines
  lines_loop-lossless zero n [] h = refl
  lines_loop-lossless zero n (c ∷ cs) h = absurd (omega arith)
  lines_loop-lossless (suc fuel) n [] h = refl
  lines_loop-lossless (suc fuel) n (c ∷ cs) h =
      let p = split_line (c ∷ cs) in
      let (r, e) = read_line-kept n p.content p.ending in
      rw (r, e, lines_loop-lossless fuel (n + 1) p.rest (omega (arith, split_line-shorter c cs)))
        (split_line-IsPieceOf (c ∷ cs)).0

  -- Rendering a file of host keys that was read and not changed gives back its contents, byte for byte.
  pub render-parse_file :
      (contents : Bytes) → render (parse_file decode digest mac contents) ≡ contents
  unfolding render parse_file
  render-parse_file contents = lines_loop-lossless (length contents) 1 contents (omega arith)
