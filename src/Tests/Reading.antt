-- ===== src/Tests/Reading.antt =====
-- The theorems on macros, loops, segments and passes at concrete inputs.
use dasm.Base.{
  ℕ, ◌-◌, ◌<◌, ◌≡◌, refl, sym, ap, peek, true, false, none, [], ◌∷◌, codes, arith, same_bytes, ◌==◌,
  if◌then◌else◌,
}
use dasm.Conditional.{If}
use dasm.Passes.{Assembly, Limits, completed, assemble}
use dasm.Passes.Ends.{Ends, Passed, IsSettled, assemble-Ends, assemble-IsSettled}
use dasm.Run.{Run, ok}
use dasm.Segments.{Segments, find_segment, select_segment}
use dasm.Segments.Switch.{IsListed, select-returns}
use dasm.Sources.{IncFile, Reading, v_execmac, v_endm, close_if, push_loop}
use dasm.Sources.Fresh.{current, execmac-fresh}
use dasm.Sources.Macros.{Outcome}
use dasm.Sources.Loops.{AtStart, Ended}
use dasm.Sources.Rounds.{RunsIn, rounds, frame_of, repeat-rounds}
use dasm.Sources.Scopes.{IsScoped, no_file, file, macros}
use dasm.Sources.Steps.{by_macro, Step-Outcome}
use dasm.Sources.Unclosed.{endm-close_if}
use dasm.State.{Symbol}
use dasm.Tests.{globals, known, segment}

abbrev pub base_if : If
base_if = record { file = 0; is_base = true; xtrue = true; acctrue = true }

abbrev pub main_file : IncFile
main_file = record {
  file = 1;
  name = codes "main.asm";
  is_macro = false;
  lineno = 7;
  saveidx = 0;
  savedolidx = 0;
  text = codes " nop" ∷ [];
  args = [];
}

abbrev pub reading : Reading
reading = record {
  incfiles = main_file ∷ [];
  mlevel = 0;
  inclevel = 1;
  reploops = [];
  ifs = record { top = base_if; below = [] };
  globals = globals;
  fresh = 2;
}

reading-IsScoped : IsScoped reading
unfolding macros
reading-IsScoped = record {
  level = refl;
  bounded = omega arith;
  local_scope = omega arith;
  dollar_scope = omega arith;
  on_file = omega arith;
  saved = file (omega arith) (omega arith) no_file;
}

Step-Outcome_example :
    Outcome reading (v_execmac (codes "inc16") (codes " inc {1}" ∷ []) [] (codes "n,m") reading)
Step-Outcome_example =
    Step-Outcome (by_macro (codes "inc16") (codes " inc {1}" ∷ []) [] (codes "n,m"))
      reading-IsScoped

abbrev in_macro : Reading
in_macro = record reading {
  mlevel = 1;
  incfiles =
      record {
        file = 2;
        name = codes "inc16";
        is_macro = true;
        lineno = 0;
        saveidx = 1;
        savedolidx = 2;
        text = [];
        args = [] ∷ [];
      }
      ∷ main_file
      ∷ [];
  globals = record globals {
    lastlocalindex = 2;
    localindex = 2;
    lastlocaldollarindex = 3;
    localdollarindex = 3;
  };
  fresh = 3;
}

execmac-fresh_example : globals.localindex < in_macro.globals.localindex
unfolding v_execmac
execmac-fresh_example =
    execmac-fresh (codes "inc16") [] [] [] reading in_macro 1 reading-IsScoped current refl

-- A symbol with the value 3, and lines that do nothing.
abbrev three : Symbol
three = known 3

nothing-RunsIn : RunsIn (frame_of main_file [] three reading) ok
nothing-RunsIn left r s = (r, refl, s.at)

repeat-rounds_example :
    ((r' : Reading) × (rounds 3 ok [] (push_loop main_file three reading) ≡ ok r')
      × Ended (frame_of main_file [] three reading) r')
    × ((k : ℕ)
        → k < 3
        → (q : Reading) × (rounds k ok [] (push_loop main_file three reading) ≡ ok q)
          × AtStart (frame_of main_file [] three reading) (3 - k) q)
repeat-rounds_example =
    repeat-rounds ok [] main_file [] three reading refl refl refl (omega arith) (omega arith) refl
      nothing-RunsIn

-- The macro has opened an IF.
abbrev open_if : Reading
open_if = record in_macro {
  ifs = record {
    top = record { file = 2; is_base = false; xtrue = true; acctrue = true };
    below = base_if ∷ [];
  };
}

endm-close_if_example :
    (r' : Reading) × (v_endm open_if ≡ ok r') × ((close_if [] main_file r').ifs ≡ open_if.ifs)
endm-close_if_example =
    endm-close_if []
      (record {
        file = 2;
        name = codes "inc16";
        is_macro = true;
        lineno = 0;
        saveidx = 1;
        savedolidx = 2;
        text = [];
        args = [] ∷ [];
      })
      main_file [] open_if refl refl refl (omega arith)

abbrev segments : Segments
segments = record { seglist = segment 0 ∷ []; globals = globals }

code-IsListed : IsListed (codes "CODE") (segment 0 ∷ [])
unfolding same_bytes find_segment
code-IsListed = (segment 0, refl)

select-returns_example :
    (select_segment (codes "CODE") false (record (select_segment (codes "ZP") true segments) {
      globals = record globals { csegment = record (segment 0x80) { name = codes "ZP" } };
    })).globals.csegment
    ≡ segment 0x1003
select-returns_example =
    select-returns (codes "ZP") true false segments
      (record globals { csegment = record (segment 0x80) { name = codes "ZP" } }) code-IsListed
      (λ e. omega (arith, ap peek e)) refl

abbrev assembly : Assembly
assembly = record {
  segments = segments;
  pass = 1;
  old = none;
  declarations = 0;
  closings = 0;
  mlflag = false;
}

abbrev limits : Limits
limits = record { max_passes = 10; all_passes = false }

abbrev pass_in : Run Assembly → ℕ
pass_in (ok a) = a.pass
pass_in m = 0

assemble-Ends_example : Ends (assemble ok limits assembly)
assemble-Ends_example = assemble-Ends ok limits assembly (λ a b h. sym (ap pass_in h)) (omega arith)

-- Lines that ask for another pass in pass 1.
abbrev two_passes : Assembly → Run Assembly
two_passes a = ok (record a {
  segments = record segments { globals = record globals { redo = if a.pass == 1 then 1 else 0 } };
})

assemble-IsSettled_example :
    (c : Assembly) × Passed two_passes limits completed c (record assembly { pass = 1; old = none })
    × IsSettled c
unfolding assemble
assemble-IsSettled_example = assemble-IsSettled two_passes limits assembly refl
