-- ===== src/Tests/Lines.antt =====
-- Lines of the source at concrete inputs, and the functions on strings and memory of src/util.c.
use dasm.Base.{
  ◌≡◌, refl, Bool, true, false, Option, some, [], ◌∷◌, ◌++◌, Bytes, codes, length, take, arith,
  same_bytes,
}
use dasm.Extension.{findext}
use dasm.Line.Cleanup.{cleanup}
use dasm.Line.Parse.{parse}
use dasm.Line.Plain.{spaces, all_plain, unspaced}
use dasm.Line.Words.{parse-words}
use dasm.Run.{Run, ok}
use dasm.State.{Globals}
use dasm.Tests.{globals}
use dasm.Tests.Expressions.{statics}
use dasm.Util.{strip_whitespace, setprogname, match_either_case}
use dasm.Util.Pool.{Pool}
use dasm.Util.Pool.Regions.{Handed, allocate, allocate-Handed}
use dasm.Util.Strings.{without_space, strip_whitespace-take}

-- A line of three words.
parse-words_example :
    parse 6502
      (codes "loop" ++ (spaces 2 ++ (codes "lda.z" ++ (spaces 1 ++ codes "#$80"))))
      statics
      globals
    ≡ ok (record {
      label = codes "loop";
      op = findext (codes "lda.z");
      str = codes "#$80";
      buf = codes "loop" ++ (spaces 2 ++ (codes "lda.z" ++ (spaces 1 ++ codes "#$80")));
      statics = statics;
      globals = globals;
    })
unfolding spaces all_plain unspaced
parse-words_example =
    parse-words 1 0 6502 (codes "loop") (codes "lda.z") (codes "#$80") statics globals refl refl
      (omega arith) refl (omega arith)

-- A comment, and blanks in front of it.
text_of : Run (Bool × Bytes × Globals) → Option Bytes
text_of (ok r) = some r.1
text_of m = Option.none

cleanup_comment :
    text_of (cleanup false [] false (codes " lda /* low */ #1 ; load") globals)
    ≡ some (codes " lda  #1")
unfolding cleanup text_of
cleanup_comment = refl

-- The arguments of a macro.
cleanup_argument :
    text_of (cleanup false (codes "all" ∷ codes "#1" ∷ []) false (codes " lda {1}") globals)
    ≡ some (codes " lda #1")
unfolding cleanup text_of
cleanup_argument = refl

abbrev no_pool : Pool
no_pool = record { stack = []; buf = Option.none; left = 0; fresh = 0 }

allocate-Handed_example :
    Handed no_pool (allocate ((true, 5) ∷ (true, 16000) ∷ (true, 500) ∷ []) no_pool)
allocate-Handed_example =
    allocate-Handed ((true, 5) ∷ (true, 16000) ∷ (true, 500) ∷ []) no_pool refl
      (omega arith, (omega arith, (omega arith, tt)))

strip_whitespace-take_example :
    strip_whitespace (codes "a b  c") 3
    ≡ (take 2 (without_space (codes "a b  c")), length (without_space (codes "a b  c")))
strip_whitespace-take_example = strip_whitespace-take (codes "a b  c") 3 (omega arith)

progname : setprogname b'/' (codes "bin/dasm") ≡ some (codes "dasm")
unfolding setprogname
progname = refl

either_case : match_either_case (codes "EQU") (codes "Equ") ≡ ok true
unfolding match_either_case same_bytes
either_case = refl
