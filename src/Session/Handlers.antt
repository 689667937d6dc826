-- ===== src/Session/Handlers.antt =====
-- What a line calls: the function of its row, with the label, the text and the row.
use dasm.Base.{ℕ, false, Option, none, some, List, [], ◌∷◌, Bytes, ◌==◌, if◌then◌else◌}
use dasm.Assign.{v_eqm, v_subroutine}
use dasm.Assign.Dynamic.{v_set, v_setstr, v_setsym}
use dasm.Directives.{
  Conditions, v_ds, v_org, v_rorg, v_align, v_dc, v_equ, v_mnemonic, v_if, v_ifconst, v_ifnconst,
  v_else, v_endif, v_repeat,
}
use dasm.Errors.{err_pseudo_op_encountered}
use dasm.Expr.Eval.{Statics}
use dasm.Expr.Steps.{eval}
use dasm.F8.Handlers.{
  v_ins_outs, v_sl_sr, v_lis, v_lisu_lisl, v_sreg_op, v_lr, v_branch, v_bf_bt, v_wordop, v_byteop,
}
use dasm.Include.{v_include, v_incbin}
use dasm.Instruction
use dasm.Instruction.{Mnemonic, Handler, Settings}
use dasm.Modes.{am_bss}
use dasm.Origin.{v_hex, v_rend}
use dasm.Output.{Output}
use dasm.Processor.{v_processor}
use dasm.Run.{Run, ok, exit, undefined, ◌>>=◌}
use dasm.Segments.{v_seg}
use dasm.Session.{Session, Options, reading_of, with_reading, with_globals, with_output}
use dasm.Session.Definition.{v_macro}
use dasm.Session.Values.{second_byte, dc_mnext, v_dv}
use dasm.Sources.{
  Reading, IncFile, v_execmac, v_end, v_endm, leave_macros, endm_at, v_repend, repend_at,
}
use dasm.State.{Globals}
use dasm.Symbols.{programlabel}

-- Mnext where a switch on it has a default; no mode has the number 255.
abbrev mode_of : Option ℕ → ℕ
mode_of none = 255
mode_of (some m) = m

abbrev number : Session → ℕ
number s = s.target.processor

-- A function on the static variables of eval and the output.
abbrev on_output : (Statics → Output → Run (Statics × Output)) → Session → Run Session
on_output f s = f s.statics s.output >>= λ r. ok (with_output s r)

-- A function on the globals.
abbrev on_state : (Globals → Globals) → Session → Session
on_state f s = with_globals (f s.output.globals) s

-- A function on the static variables and the globals.
abbrev on_values : (Statics → Globals → Run (Statics × Globals)) → Session → Run Session
on_values f s =
    f s.statics s.output.globals >>= λ r. ok (with_globals r.1 (record s { statics = r.0 }))

-- A function on the files.
abbrev on_reading : (Reading → Run Reading) → Session → Run Session
on_reading f s = f (reading_of s) >>= λ r. ok (with_reading r s)

-- A function on the static variables and the files.
abbrev on_files : (Statics → Reading → Run (Statics × Reading)) → Session → Run Session
on_files f s =
    f s.statics (reading_of s) >>= λ r. ok (with_reading r.1 (record s { statics = r.0 }))

-- A function of conditional assembly, which is given the number of pIncfile.
on_conditions_in : List IncFile → (ℕ → Conditions → Run Conditions) → Session → Run Session
on_conditions_in [] f s = undefined
on_conditions_in (inc ∷ next) f s =
    f inc.file (record { statics = s.statics; output = s.output; ifs = s.reading.ifs }) >>= λ c.
    ok (record s {
      statics = c.statics;
      output = c.output;
      reading = record s.reading { ifs = c.ifs };
    })

abbrev on_conditions : (ℕ → Conditions → Run Conditions) → Session → Run Session
on_conditions f s = on_conditions_in s.reading.incfiles f s

-- DC and the names that are like it.
call_dc : Options → Mnemonic → Bytes → Bytes → Session → Run Session
unfolding dc_mnext second_byte v_dc v_dv
call_dc opts mne label str s0 =
    let mode = dc_mnext mne.name s0.mnext in
    let s = record s0 { mnext = mode } in
    if second_byte mne.name == b'v'
    then on_output (v_dv (number s) (mode_of mode) opts.strict label str) s
    else on_output (v_dc (number s) (mode_of mode) opts.strict label str) s

call_seg : Bytes → Bytes → Session → Session
unfolding v_seg
call_seg label str s =
    let t =
      v_seg label str (mode_of s.mnext == am_bss)
        (record { seglist = s.seglist; globals = s.output.globals }) in
    with_globals t.globals (record s { seglist = t.seglist })

call_processor : Options → Bytes → Session → Run Session
unfolding v_processor
call_processor opts str s = do
  t ← v_processor opts.tables str s.target
  ok (record s { target = t; output = record s.output { msborder = t.msborder } })

-- ECHO; what it prints is left out.
call_echo : Bytes → Session → Run Session
unfolding eval
call_echo str s = do
  (syms, st, g) ← eval (number s) s.statics s.output.globals str false
  ok (with_globals g (record s { statics = st }))

-- The functions of the F8.
call_f8 : Handler → Mnemonic → Bytes → Bytes → Session → Run Session
unfolding v_ins_outs v_sl_sr v_lis v_lisu_lisl v_sreg_op v_lr v_branch v_bf_bt v_wordop v_byteop
call_f8 Instruction.by_ins_outs mne label str s = on_output (v_ins_outs mne (number s) label str) s
call_f8 Instruction.by_sl_sr mne label str s = on_output (v_sl_sr mne (number s) label str) s
call_f8 Instruction.by_lis mne label str s = on_output (v_lis (number s) label str) s
call_f8 Instruction.by_lisu_lisl mne label str s =
    on_output (v_lisu_lisl mne (number s) label str) s
call_f8 Instruction.by_sreg_op mne label str s = on_output (v_sreg_op mne (number s) label str) s
call_f8 Instruction.by_lr mne label str s = on_output (v_lr (number s) label str) s
call_f8 Instruction.by_branch mne label str s = on_output (v_branch mne (number s) label str) s
call_f8 Instruction.by_bf_bt mne label str s = on_output (v_bf_bt mne (number s) label str) s
call_f8 Instruction.by_wordop mne label str s = on_output (v_wordop mne (number s) label str) s
call_f8 h mne label str s = on_output (v_byteop mne (number s) label str) s

-- (*mne->vect) (Av[2], mne), for a row `mne` with the function `h`. Of LIST, TRACE and INCDIR the
-- listing, the trace and the directories are left out.
unfoldable pub call : Options → Handler → Mnemonic → Bytes → Bytes → Session → Run Session
unfolding call_dc call_seg call_processor call_echo call_f8 on_conditions_in v_mnemonic v_hex v_rend
    v_ds v_org v_rorg v_align v_equ v_eqm v_subroutine v_set v_setstr v_setsym v_macro v_execmac
    leave_macros endm_at repend_at v_repeat v_if v_ifconst v_ifnconst v_else v_endif v_include
    v_incbin programlabel
call opts Instruction.by_list mne label str s =
    let t = on_state (programlabel label) s in
    ok (record t { output = record t.output { gen = [] } })
call opts Instruction.by_include mne label str s =
    on_files (v_include opts.find_lines (number s) label str) s
call opts Instruction.by_seg mne label str s = ok (call_seg label str s)
call opts Instruction.by_hex mne label str s =
    v_hex label str s.output >>= λ out. ok (record s { output = out })
call opts Instruction.by_err mne label str s = exit err_pseudo_op_encountered
call opts Instruction.by_dc mne label str s = call_dc opts mne label str s
call opts Instruction.by_ds mne label str s =
    on_output (v_ds (number s) (mode_of s.mnext) label str) s
call opts Instruction.by_end mne label str s = on_reading v_end s
call opts Instruction.by_trace mne label str s = ok s
call opts Instruction.by_org mne label str s = on_output (v_org (number s) label str) s
call opts Instruction.by_rorg mne label str s = on_output (v_rorg (number s) label str) s
call opts Instruction.by_rend mne label str s = ok (record s { output = v_rend label s.output })
call opts Instruction.by_align mne label str s = on_output (v_align (number s) label str) s
call opts Instruction.by_subroutine mne label str s = ok (on_state (v_subroutine label) s)
call opts Instruction.by_equ mne label str s = on_output (v_equ (number s) label str) s
call opts Instruction.by_eqm mne label str s = ok (on_state (v_eqm label str) s)
call opts Instruction.by_set mne label str s = on_values (v_set (number s) label str) s
call opts Instruction.by_setstr mne label str s = on_values (v_setstr (number s) label str) s
call opts Instruction.by_setsym mne label str s = on_values (v_setsym (number s) label str) s
call opts Instruction.by_macro mne label str s = v_macro opts str s
call opts Instruction.by_endm mne label str s = on_reading v_endm s
call opts Instruction.by_mexit mne label str s = on_reading v_endm s
call opts Instruction.by_ifconst mne label str s =
    on_conditions (λ file. v_ifconst (number s) file label str) s
call opts Instruction.by_ifnconst mne label str s =
    on_conditions (λ file. v_ifnconst (number s) file label str) s
call opts Instruction.by_if mne label str s =
    on_conditions (λ file. v_if (number s) file label str) s
call opts Instruction.by_else mne label str s = on_conditions (λ file c. ok (v_else label c)) s
call opts Instruction.by_endif mne label str s =
    on_conditions (λ file c. ok (v_endif file label c)) s
call opts Instruction.by_repeat mne label str s = on_files (v_repeat (number s) label str) s
call opts Instruction.by_repend mne label str s = on_reading (v_repend label) s
call opts Instruction.by_echo mne label str s = call_echo str s
call opts Instruction.by_processor mne label str s = call_processor opts str s
call opts Instruction.by_incbin mne label str s =
    on_output (v_incbin opts.find_bytes (number s) label str) s
call opts Instruction.by_incdir mne label str s = ok s
call opts Instruction.by_mnemonic mne label str s =
    let set : Settings = record {
      processor = number s;
      mnext = s.mnext;
      strict = opts.strict;
      verbose = opts.verbose;
    } in
    on_output (v_mnemonic set mne label str) s
call opts (Instruction.by_execmac body defpass) mne label str s =
    on_reading (v_execmac mne.name body label str) s
call opts h mne label str s = call_f8 h mne label str s
