-- ===== src/Line/Comments.antt =====
-- The comments between /* and */ in cleanup of src/main.c. They are moved behind a semicolon.
use dasm.Base.{
  ℕ, zero, suc, ◌+◌, Bool, true, false, not, ◌&&◌, ◌||◌, Option, none, some, [], ◌∷◌, ◌++◌, Bytes,
  codes, length, take, drop, ltb, leb, ◌==◌, if◌then◌else◌,
}
use mathlib.Core.Option
use dasm.Errors.{spurious_comment_close}
use dasm.Run.{Run, ok, undefined}
use dasm.State.{Globals, report}

-- strstr, for a text of two characters: the place of the first one.
unfoldable pub find_pair : ℕ → ℕ → Bytes → Option ℕ
find_pair c d [] = none
find_pair c d (x ∷ []) = none
find_pair c d (x ∷ y ∷ s) =
    let later = find_pair c d (y ∷ s) in if x == c && y == d then some 0 else Option.map suc later

-- strstr (buf, ";")
unfoldable pub find_char : ℕ → Bytes → Option ℕ
find_char c [] = none
find_char c (x ∷ s) = let later = find_char c s in if x == c then some 0 else Option.map suc later

-- The text up to the end of the line.
unfoldable pub before_newline : Bytes → Bytes
before_newline [] = []
before_newline (c ∷ s) = let r = before_newline s in if c == 13 || c == 10 then [] else c ∷ r

-- `a && (!b || a < b)`, for places
abbrev pub before : Option ℕ → Option ℕ → Bool
before none b = false
before (some i) none = true
before (some i) (some j) = ltb i j

-- What a round of the loop leaves: mlflag, the line, and whether there is another round.
pub record Round : Type 0 where
  pub mlflag : Bool
  pub line : Bytes
  pub more : Bool

-- A round inside of a comment: the rest of the comment goes to the end of the line.
unfoldable pub inside_round : Bytes → Round
unfolding find_pair before_newline
inside_round buf = elim (find_pair b'*' b'/' buf) [
  | some e ↦ record {
    mlflag = false;
    line = before_newline (drop (e + 2) buf) ++ codes ";*/" ++ take e buf;
    more = true;
  }
  | none ↦ record { mlflag = true; line = b';' ∷ buf; more = false }
]

-- A comment that begins at place `i`: one that ends in the line, at place `e`, goes to the end of it.
comment_at : ℕ → Option ℕ → Option ℕ → Bytes → Round
unfolding before_newline
comment_at i mlend semistart buf =
    let open_comment : Round = record {
      mlflag = true;
      line = take i buf ++ b';' ∷ drop i buf;
      more = false;
    } in
    elim mlend [
      | none ↦ open_comment
      | some e ↦
          if ltb i e && before (some e) semistart
          then record {
            mlflag = false;
            line =
                take i buf
                ++ before_newline (drop (e + 2) buf)
                ++ codes ";/"
                ++ drop (i + 1) (take (e + 1) buf);
            more = true;
          }
          else open_comment
    ]

-- A round outside of comments.
unfoldable pub outside_round : Bytes → Round
unfolding find_pair find_char comment_at
outside_round buf =
    let mlstart = find_pair b'/' b'*' buf in
    let mlend = find_pair b'*' b'/' buf in
    let semistart = find_char b';' buf in
    elim mlstart [
      | none ↦ record { mlflag = false; line = buf; more = false }
      | some i ↦
          if before (some i) semistart
          then comment_at i mlend semistart buf
          else record { mlflag = false; line = buf; more = false }
    ]

-- A comment ends that did not begin.
unfoldable pub is_spurious : Bytes → Bool
unfolding find_pair find_char
is_spurious buf =
    let mlend = find_pair b'*' b'/' buf in
    before mlend (find_char b';' buf) && before mlend (find_pair b'/' b'*' buf)

-- MAXLINE
abbrev pub max_line : ℕ
max_line = 1024

-- The rounds of the loop; each that asks for another one takes the end of a comment from the text in
-- front of the first semicolon. A line that fills its MAXLINE characters is left without an end.
unfoldable pub comment_loop : ℕ → Bool → Bytes → Globals → Run (Bool × Bytes × Globals)
unfolding inside_round outside_round is_spurious
comment_loop zero mlflag buf g = ok (mlflag, buf, g)
comment_loop (suc n) mlflag buf g =
    let r = if mlflag then inside_round buf else outside_round buf in
    let h = if not mlflag && is_spurious buf then report spurious_comment_close g else g in
    let next = comment_loop n r.mlflag r.line h in
    if not r.more
    then ok (r.mlflag, r.line, h)
    else if leb max_line (length r.line)
    then undefined
    else next

unfoldable pub comments : Bool → Bytes → Globals → Run (Bool × Bytes × Globals)
unfolding comment_loop
comments mlflag buf = comment_loop (suc (suc (length buf))) mlflag buf
