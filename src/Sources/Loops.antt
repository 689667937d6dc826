-- ===== src/Sources/Loops.antt =====
-- REPEND of src/ops.c in a loop of REPEAT: back to the start, or out of the loop.
use dasm.Base.{
  ℕ, ◌-◌, ◌<◌, ◌≡◌, refl, ap, ◌∙◌, true, false, List, ◌∷◌, Bytes, arith, ◌==◌, ==_refl, ne→==,
}
use dasm.Conditional.{IfStack, assembles, pop_if, pushif}
use dasm.Run.{ok}
use dasm.Sources.{IncFile, RepLoop, Reading, repend_at, v_repend, next_round, close_if}
use dasm.Word.{word_size, sub}

-- A loop of REPEAT: the file in which it stands with what is below it, the loop itself, and the loops
-- and the IF stack around it.
pub record Frame : Type 0 where
  pub inc : IncFile
  pub next : List IncFile
  pub loop : RepLoop
  pub loops : List RepLoop
  pub ifs : IfStack

-- The state in which the last lines of a round have been read, with `left` rounds to go, this one
-- included: the lines have left the loops and the IF stack alone, and are still in the same file.
pub record AtEnd (f : Frame) (left : ℕ) (r : Reading) : Type 0 where
  pub place : IncFile
  pub files : r.incfiles ≡ place ∷ f.next
  pub same_file : place.file ≡ f.inc.file
  pub same_loops : r.reploops ≡ record f.loop { count = left } ∷ f.loops
  pub same_ifs : r.ifs ≡ pushif f.inc.file true f.ifs

-- The state in which a round starts: at the text behind REPEAT.
pub record AtStart (f : Frame) (left : ℕ) (r : Reading) : Type 0 where
  pub at : AtEnd f left r
  pub text : at.place.text ≡ f.inc.text

-- The state behind the loop.
pub record Ended (f : Frame) (r : Reading) : Type 0 where
  pub place : IncFile
  pub files : r.incfiles ≡ place ∷ f.next
  pub loops : r.reploops ≡ f.loops
  pub ifs : r.ifs ≡ f.ifs

-- What makes a loop run to its end: its count is resolved, it stands in its file, and its text is the
-- one behind REPEAT, which is assembled.
pub record IsLoop (f : Frame) : Type 0 where
  pub resolved : f.loop.flags ≡ 0
  pub loop_file : f.loop.file ≡ f.inc.file
  pub seek : f.loop.seek ≡ f.inc.text
  pub assembled : assembles f.ifs.top ≡ true

sub_one : (n : ℕ) → 0 < n → n < word_size → sub n 1 ≡ n - 1
unfolding sub
sub_one n h k = ground arith

pushed-assembles :
    (file : ℕ) (s : IfStack) → assembles s.top ≡ true → assembles (pushif file true s).top ≡ true
unfolding pushif
pushed-assembles file s h = ground arith

next_round-again :
    (label : Bytes) (inc : IncFile) (next : List IncFile) (l : RepLoop) (ls : List RepLoop)
    (r : Reading)
    → assembles r.ifs.top ≡ true
    → (l.file == inc.file) ≡ true
    → (l.flags == 0) ≡ true
    → (sub l.count 1 == 0) ≡ false
    → repend_at label (inc ∷ next) (l ∷ ls) r
      ≡ ok (record r {
        reploops = record l { count = sub l.count 1 } ∷ ls;
        incfiles = record inc { text = l.seek; lineno = l.lineno } ∷ next;
      })
unfolding repend_at next_round
next_round-again label inc next l ls r a f z m = rw (a, f, z, m) refl

next_round-last :
    (label : Bytes) (inc : IncFile) (next : List IncFile) (l : RepLoop) (ls : List RepLoop)
    (r : Reading)
    → assembles r.ifs.top ≡ true
    → (l.file == inc.file) ≡ true
    → (sub l.count 1 == 0) ≡ true
    → repend_at label (inc ∷ next) (l ∷ ls) r ≡ ok (close_if label inc (record r { reploops = ls }))
unfolding repend_at next_round
next_round-last label inc next l ls r a f m = rw (a, f, m) (ground arith)

close_if-pushed :
    (label : Bytes) (inc : IncFile) (ifs : IfStack) (r : Reading)
    → r.ifs ≡ pushif inc.file true ifs
    → ((close_if label inc r).ifs ≡ ifs)
      × ((close_if label inc r).incfiles ≡ r.incfiles)
      × ((close_if label inc r).reploops ≡ r.reploops)
unfolding close_if pushif pop_if
close_if-pushed label inc ifs r h = rw (h, ==_refl) (refl, refl, refl)

repend_found :
    (label : Bytes) (r : Reading) {is : List IncFile} {ls : List RepLoop}
    → r.incfiles ≡ is
    → r.reploops ≡ ls
    → v_repend label r ≡ repend_at label is ls r
repend_found label r {is} {ls} e e' =
    ap (λ x. repend_at label x r.reploops r) e ∙ ap (λ x. repend_at label is x r) e'

-- REPEND with rounds left goes back to the start.
pub repend-AtStart :
    (label : Bytes) (f : Frame) (left : ℕ) (r : Reading)
    → IsLoop f
    → 1 < left
    → left < word_size
    → AtEnd f left r
    → (r' : Reading) × (v_repend label r ≡ ok r') × AtStart f (left - 1) r'
repend-AtStart label f left r l h k e =
    let down = sub_one left (omega arith) k in
    (
      record r {
        reploops = record f.loop { count = sub left 1 } ∷ f.loops;
        incfiles = record (e.place) { text = f.loop.seek; lineno = f.loop.lineno } ∷ f.next;
      },
      repend_found label r e.files e.same_loops
          ∙ next_round-again label e.place f.next (record f.loop { count = left }) f.loops r
              (rw e.same_ifs (pushed-assembles f.inc.file f.ifs l.assembled))
              (rw (l.loop_file, e.same_file) (==_refl f.inc.file)) (rw l.resolved refl)
              (rw down (ne→== (left - 1) 0 (omega arith))),
      record {
        at = record {
          place = record (e.place) { text = f.loop.seek; lineno = f.loop.lineno };
          files = refl;
          same_file = e.same_file;
          same_loops = rw down refl;
          same_ifs = e.same_ifs;
        };
        text = l.seek;
      },
    )

-- REPEND in the last round ends the loop.
pub repend-Ended :
    (label : Bytes) (f : Frame) (r : Reading)
    → IsLoop f
    → AtEnd f 1 r
    → (r' : Reading) × (v_repend label r ≡ ok r') × Ended f r'
repend-Ended label f r l e =
    let (ifs, files, loops) =
      close_if-pushed label e.place f.ifs (record r { reploops = f.loops })
        (rw (e.same_ifs, e.same_file) refl) in
    (
      close_if label e.place (record r { reploops = f.loops }),
      repend_found label r e.files e.same_loops
          ∙ next_round-last label e.place f.next (record f.loop { count = 1 }) f.loops r
              (rw e.same_ifs (pushed-assembles f.inc.file f.ifs l.assembled))
              (rw (l.loop_file, e.same_file) (==_refl f.inc.file))
              (rw (sub_one 1 (omega arith) (omega arith)) refl),
      record { place = e.place; files = files ∙ e.files; loops = loops; ifs = ifs },
    )
