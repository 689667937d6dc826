-- ===== src/Passes.antt =====
-- The passes of the assembler, MainShadow of src/main.c from `nextpass` on. What a pass does with its
-- lines is a parameter.
pub mod Ends
use dasm.Base.{
  ℕ, zero, suc, ◌+◌, ◌*◌, ◌%◌, Bool, true, false, not, ◌&&◌, ◌||◌, Option, none, some, List, [],
  ◌∷◌, map, ltb, ◌==◌, if◌then◌else◌, all_below,
}
use mathlib.Core.Option
use dasm.Errors.{AsmError, stops_at_end}
use dasm.Run.{Run, ok, ◌>>=◌}
use dasm.Segments.{Segments, clearsegs}
use dasm.State.{
  Symbol, Globals, Reason, without_bit, sym_ref, mnemonic_not_resolved, obscure, dc_not_resolved,
  dv_not_resolved_probably, dv_not_resolved_could, ds_not_resolved, align_not_resolved,
  align_relocatable_origin_not_known, align_normal_origin_not_known, equ_not_resolved,
  equ_value_mismatch, if_not_resolved, repeat_not_resolved, forward_reference, phase_error,
  branch_out_of_range, include_failed, incbin_not_resolved,
}
use dasm.Word.{word_size}

-- The bit of a reason in Redo_why.
unfoldable pub reason_bit : Reason → ℕ
reason_bit mnemonic_not_resolved = 0
reason_bit obscure = 1
reason_bit dc_not_resolved = 2
reason_bit dv_not_resolved_probably = 3
reason_bit dv_not_resolved_could = 4
reason_bit ds_not_resolved = 5
reason_bit align_not_resolved = 6
reason_bit align_relocatable_origin_not_known = 7
reason_bit align_normal_origin_not_known = 8
reason_bit equ_not_resolved = 9
reason_bit equ_value_mismatch = 10
reason_bit if_not_resolved = 11
reason_bit repeat_not_resolved = 12
reason_bit forward_reference = 13
reason_bit phase_error = 14
reason_bit branch_out_of_range = 15
reason_bit include_failed = 16
reason_bit incbin_not_resolved = 17

-- Is the bit set in the reasons that were or-ed?
mentions : ℕ → List Reason → Bool
unfolding reason_bit
mentions k [] = false
mentions k (r ∷ rs) = reason_bit r == k || mentions k rs

-- Redo_why == oldwhy
unfoldable pub same_reasons : List Reason → List Reason → Bool
unfolding mentions
same_reasons a b = all_below 18 (λ k. if mentions k a then mentions k b else not (mentions k b))

-- What asks for another pass: Redo, Redo_why and Redo_eval.
pub record Counts : Type 0 where
  pub redo : ℕ
  pub redo_why : List Reason
  pub redo_eval : ℕ

-- Between passes: `old` is none for oldredo -1; nMacroDeclarations and nMacroClosings count over all
-- passes, and mlflag is set inside of a comment.
pub record Assembly : Type 0 where
  pub segments : Segments
  pub pass : ℕ
  pub old : Option Counts
  pub declarations : ℕ
  pub closings : ℕ
  pub mlflag : Bool

abbrev pub globals_of : Assembly → Globals
globals_of a = a.segments.globals

-- nMaxPasses and bDoAllPasses
pub record Limits : Type 0 where
  pub max_passes : ℕ
  pub all_passes : Bool

-- What main returns, or exits with.
pub data Ending : Type 0 where
  completed non_abort missing_endm missing_comment_end not_resolvable too_many_passes : Ending

-- bStopAtEnd[pass]
unfoldable pub stop_at_end : List AsmError → Bool
unfolding stops_at_end
stop_at_end [] = false
stop_at_end (e ∷ es) = stops_at_end e || stop_at_end es

-- From `nextpass` to the first line.
unfoldable pub start_pass : Assembly → Assembly
start_pass a =
    let s = a.segments in
    let g = s.globals in
    record a {
      segments = record s {
        globals = record g {
          localindex = 0;
          lastlocalindex = 0;
          localdollarindex = 0;
          lastlocaldollarindex = 0;
          symbol_count = 0;
          checksum = 0;
        };
      };
    }

abbrev counts_of : Globals → Counts
counts_of g = record { redo = g.redo; redo_why = g.redo_why; redo_eval = g.redo_eval }

-- Redo == oldredo && Redo_why == oldwhy && Redo_eval == oldeval
unfoldable pub same_counts : Counts → Option Counts → Bool
unfolding same_reasons
same_counts c none = false
same_counts c (some d) =
    c.redo == d.redo && same_reasons c.redo_why d.redo_why && c.redo_eval == d.redo_eval

-- What clearrefs does to a symbol.
abbrev clear_ref : Symbol → Symbol
clear_ref s = record s { flags = without_bit s.flags sym_ref }

-- What is cleared in front of the next pass; the errors of this one are forgotten.
unfoldable pub next_pass : Assembly → Assembly
unfolding clearsegs
next_pass a =
    let s = a.segments in
    let g = s.globals in
    record a {
      pass = a.pass + 1;
      old = some (counts_of g);
      segments = clearsegs (record s {
        globals = record g {
          redo = 0;
          redo_why = [];
          redo_eval = 0;
          redo_if = (g.redo_if * 2) % word_size;
          errors = [];
          shash = λ h. map clear_ref (g.shash h);
        };
      });
    }

-- What follows a pass: another one, or the end.
pub data Verdict : Type 0 where
  again : Assembly → Verdict
  finished : Ending → Verdict

-- The end of the last pass.
unfoldable pub final_ending : Assembly → Ending
unfolding stop_at_end
final_ending a =
    if not (a.declarations == a.closings)
    then missing_endm
    else if stop_at_end (globals_of a).errors
    then non_abort
    else completed

unfoldable pub end_pass : Limits → Assembly → Verdict
unfolding final_ending same_counts next_pass
end_pass lim a =
    if a.mlflag
    then finished missing_comment_end
    else if (globals_of a).redo == 0
    then finished (final_ending a)
    else if not lim.all_passes && same_counts (counts_of (globals_of a)) a.old
    then finished not_resolvable
    else if ltb lim.max_passes (a.pass + 1)
    then finished too_many_passes
    else again (next_pass a)

-- What is done on a verdict, where `rest` are the further passes.
abbrev pub follow : (Assembly → Run (Option Ending)) → Verdict → Run (Option Ending)
follow rest (finished e) = ok (some e)
follow rest (again a) = rest a

-- The passes; `lines` reads the files from the first line to the last and closes the output.
unfoldable pub passes : (Assembly → Run Assembly) → Limits → ℕ → Assembly → Run (Option Ending)
unfolding start_pass end_pass
passes lines lim zero a = ok none
passes lines lim (suc n) a =
    lines (start_pass a) >>= λ b. follow (passes lines lim n) (end_pass lim b)

-- The assembly: pass 1, and at most nMaxPasses passes.
unfoldable pub assemble : (Assembly → Run Assembly) → Limits → Assembly → Run (Option Ending)
unfolding passes
assemble lines lim a = passes lines lim lim.max_passes (record a { pass = 1; old = none })
