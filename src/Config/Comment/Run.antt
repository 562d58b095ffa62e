-- ===== src/Config/Comment/Run.antt =====
-- internal/config/block.go: `CommentRun`.
use ssh_ui.Base.{
  ℕ, zero, suc, ◌+◌, ◌≤◌, ◌<◌, ◌≡◌, inl, inr, true, false, List, arith, length, get_elem?,
  Bool-cases, ltb,
}
use native.Mathlib.Decide.{dec_lt}
use ssh_ui.Config.Line.{Line}
use ssh_ui.Config.Parse.{File}
use ssh_ui.Config.Comment.{is_comment, run_loop, comment_run}

-- All lines from `start` up to the header are comments, and none stands above them.
pub record IsRun (lines : List Line) (header start : ℕ) : Type 0 where
  pub above : start ≤ header
  pub comments : (i : ℕ) → start ≤ i → i < header → is_comment (get_elem? lines i) ≡ true
  pub maximal : (i : ℕ) → i + 1 ≡ start → is_comment (get_elem? lines i) ≡ false

run_loop-IsRun : (lines : List Line) (header : ℕ) → IsRun lines header (run_loop lines header)
unfolding run_loop
run_loop-IsRun lines zero = record {
  above = omega arith;
  comments = λ i s h. absurd (omega arith);
  maximal = λ i e. absurd (omega arith);
}
run_loop-IsRun lines (suc k) = elim (Bool-cases (is_comment (get_elem? lines k))) [
  | inl c ↦
      let r = run_loop-IsRun lines k in
      rw c (record {
        above = omega (arith, r.above);
        comments = λ i s h. elim (dec_lt i k) [
          | yes p ↦ r.comments i s p
          | no p ↦ let e : i ≡ k = omega arith in rw (e, c)
        ];
        maximal = r.maximal;
      })
  | inr c ↦ rw c (record {
    above = omega arith;
    comments = λ i s h. absurd (omega arith);
    maximal = λ i e. let p : i ≡ k = omega arith in rw (p, c);
  })
]

-- `CommentRun` of a header inside the file finds the longest run of comment lines that ends
-- right above the header.
pub comment_run-IsRun :
    (f : File) (header : ℕ) → header ≤ length f.lines → IsRun f.lines header (comment_run f header)
unfolding comment_run
comment_run-IsRun f header h =
    let e : ltb (length f.lines) header ≡ false = ground arith in
    rw e (run_loop-IsRun f.lines header)
