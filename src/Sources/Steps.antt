-- ===== src/Sources/Steps.antt =====
-- All handlers of src/ops.c that change where lines are read, as the steps of a relation.
use dasm.Base.{
  ℕ, ◌≡◌, refl, sym, not, Option, none, some, List, [], ◌∷◌, Bytes, arith, if◌then◌else◌, ◌==◌,
  if-cases,
}
use dasm.Conditional.{assembles}
use dasm.Errors.{AsmError, repeat_negative, file_error}
use dasm.Run.{Run, ok}
use dasm.Sources.{
  IncFile, Reading, RepLoop, v_execmac, v_endm, v_end, repend_at, pushinclude, read_line, v_repend,
  push_loop, close_if, next_round,
}
use dasm.Word.{is_negative}
use dasm.State.{Reason, Globals, Symbol, report, again, repeat_not_resolved, include_failed}
use dasm.Symbols.{programlabel}
use dasm.Sources.Scopes.{macros, file, Scoped, IsScoped, labelled-IsScoped}
use dasm.Sources.Macros.{
  Outcome, goes_on, LineOutcome, execmac-Outcome, endm-Outcome, end-Outcome, line-LineOutcome,
  moved-Scoped,
}

-- Another value for the globals, with the scopes that they had.
redone-Scoped :
    (is : List IncFile) (m : ℕ) (g : Globals) (why : Reason)
    → Scoped is m g
    → Scoped is m (again why g)
redone-Scoped is m g why s = record {
  level = s.level;
  bounded = s.bounded;
  local_scope = s.local_scope;
  dollar_scope = s.dollar_scope;
  on_file = s.on_file;
  saved = s.saved;
}

reported-Scoped :
    (is : List IncFile) (m : ℕ) (g : Globals) (e : AsmError)
    → Scoped is m g
    → Scoped is m (report e g)
reported-Scoped is m g e s = record {
  level = s.level;
  bounded = s.bounded;
  local_scope = s.local_scope;
  dollar_scope = s.dollar_scope;
  on_file = s.on_file;
  saved = s.saved;
}

push_loop-IsScoped :
    (inc : IncFile) (sym : Symbol) (r : Reading) → IsScoped r → IsScoped (push_loop inc sym r)
unfolding push_loop
push_loop-IsScoped inc sym r s =
    if-cases IsScoped (sym.value == 0) (λ z. s)
      (λ z.
        if-cases IsScoped (is_negative sym.value)
          (λ n. reported-Scoped r.incfiles r.mlevel r.globals repeat_negative s)
          (λ n.
            if-cases (Scoped r.incfiles r.mlevel) (sym.flags == 0) (λ f. s)
              (λ f. redone-Scoped r.incfiles r.mlevel r.globals repeat_not_resolved s)))

close_if-IsScoped :
    (label : Bytes) (inc : IncFile) (r : Reading) → IsScoped r → IsScoped (close_if label inc r)
unfolding close_if
close_if-IsScoped label inc r s =
    if-cases IsScoped r.ifs.top.is_base (λ b. s)
      (λ b.
        if-cases (Scoped r.incfiles r.mlevel) r.ifs.top.acctrue (λ t. labelled-IsScoped label r s)
          (λ t. s))

next_round-IsScoped :
    (label : Bytes) (inc : IncFile) (next : List IncFile) (l : RepLoop) (ls : List RepLoop)
    (r : Reading)
    → r.incfiles ≡ inc ∷ next
    → Scoped (inc ∷ next) r.mlevel r.globals
    → IsScoped (next_round label inc next l ls r)
unfolding next_round
next_round-IsScoped label inc next l ls r e s =
    if-cases IsScoped _ (λ b. moved-Scoped inc _ next r.mlevel r.globals refl refl refl s)
      (λ b. close_if-IsScoped label inc (record r { reploops = ls }) (rw e s))

repend-Outcome :
    (label : Bytes) (is : List IncFile) (ls : List RepLoop) (r : Reading)
    → r.incfiles ≡ is
    → Scoped is r.mlevel r.globals
    → Outcome r (repend_at label is ls r)
unfolding repend_at macros
repend-Outcome label [] ls r e s = absurd (omega (arith, s.on_file))
repend-Outcome label (inc ∷ next) [] r e s = goes_on (
    if-cases IsScoped (assembles r.ifs.top) (λ a. rw e s)
      (λ a. close_if-IsScoped label inc r (rw e s)))
repend-Outcome label (inc ∷ next) (l ∷ ls) r e s =
    if-cases (λ q. Outcome r (ok q)) (not (assembles r.ifs.top)) {x = close_if label inc r}
      {y = if l.file == inc.file then next_round label inc next l ls r else r}
      (λ a. goes_on (close_if-IsScoped label inc r (rw e s)))
      (λ a.
        if-cases (λ q. Outcome r (ok q)) (l.file == inc.file) {x = next_round label inc next l ls r}
          {y = r} (λ f. goes_on (next_round-IsScoped label inc next l ls r e s))
          (λ f. goes_on (rw e s)))

include-IsScoped :
    (name : Bytes) (found : Option (List Bytes)) (r : Reading)
    → IsScoped r
    → IsScoped (pushinclude name found r)
unfolding pushinclude macros
include-IsScoped name none r s =
    redone-Scoped r.incfiles r.mlevel _ include_failed
      (reported-Scoped r.incfiles r.mlevel r.globals file_error s)
include-IsScoped name (some lines) r s = record {
  level = omega (arith, s.level);
  bounded = s.bounded;
  local_scope = s.local_scope;
  dollar_scope = s.dollar_scope;
  on_file = omega (arith, s.on_file);
  saved = file (omega arith) (omega arith) s.saved;
}

-- What a line may do to the place where lines are read.
pub data Step (r : Reading) : Run Reading → Type 0 where
  by_label : (label : Bytes) → Step r (ok (record r { globals = programlabel label r.globals }))
  by_macro :
      (name : Bytes) (strlist : List Bytes) (label str : Bytes)
      → Step r (v_execmac name strlist label str r)
  by_endm : Step r (v_endm r)
  by_end : Step r (v_end r)
  by_include : (name : Bytes) (found : Option (List Bytes)) → Step r (ok (pushinclude name found r))
  by_repeat : (inc : IncFile) (sym : Symbol) → Step r (ok (push_loop inc sym r))
  by_repend : (label : Bytes) → Step r (v_repend label r)

-- Every handler that changes the place where lines are read keeps Mlevel the number of macros, at
-- most MAXMACLEVEL, and the numbers of the scopes in order; it finds a file to read, and ends the
-- assembly only at a macro's call at MAXMACLEVEL.
pub Step-Outcome : {r : Reading} {m : Run Reading} → Step r m → IsScoped r → Outcome r m
Step-Outcome {r} (by_label label) s = goes_on (labelled-IsScoped label r s)
Step-Outcome {r} (by_macro name strlist label str) s = execmac-Outcome name strlist label str r s
Step-Outcome {r} by_endm s = endm-Outcome r.incfiles r refl s
Step-Outcome {r} by_end s = end-Outcome r.incfiles r r s
Step-Outcome {r} (by_include name found) s = goes_on (include-IsScoped name found r s)
Step-Outcome {r} (by_repeat inc sym) s = goes_on (push_loop-IsScoped inc sym r s)
Step-Outcome {r} (by_repend label) s = repend-Outcome label r.incfiles r.reploops r refl s

-- A line is always found or the end of the file, whatever macros end on the way to it, and the
-- numbers of the scopes stay in order.
pub read_line-LineOutcome : (r : Reading) → IsScoped r → LineOutcome (read_line r.incfiles r)
read_line-LineOutcome r s = line-LineOutcome r.incfiles r refl s
