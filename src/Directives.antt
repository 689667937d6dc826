-- ===== src/Directives.antt =====
-- The handlers of src/ops.c as they stand: the label, eval and what is done with its symbols, in
-- the order of the source; v_mnemonic among them. `label` is the label field of the line, `str` the
-- text behind the directive.
use dasm.Base.{
  ℕ, Bool, true, false, not, ◌&&◌, ◌||◌, List, [], ◌∷◌, Bytes, codes, ◌==◌, if◌then◌else◌,
  same_bytes,
}
use dasm.Assign.{equ_symbol, listed}
use dasm.Conditional.{
  IfStack, assembles, pushif, if_symbol, ifconst_symbol, ifnconst_symbol, flip_branch, pop_if,
}
use dasm.Data.{dc_all}
use dasm.Expr.Eval.{Statics}
use dasm.Expr.Steps.{eval}
use dasm.Instruction.{Settings, Mnemonic}
use dasm.Instruction.Encode.{reference_segment, assemble}
use dasm.Origin.{on_globals, ds_symbols, org_symbols, rorg_symbols, align_symbols}
use dasm.Output.{Output, here}
use dasm.Run.{Run, ok, undefined, ◌>>=◌}
use dasm.Sources.{IncFile, Reading, push_loop}
use dasm.State.{Symbol, Globals, has, with_bit, again, if_not_resolved, sf_rorg}
use dasm.Symbols.{programlabel}

abbrev labelled : Bytes → Output → Output
labelled label = on_globals (programlabel label)

-- eval (str, 0), and what it does to the globals.
evaluated : ℕ → Bytes → Statics → Output → Run (List Symbol × Statics × Output)
unfolding eval
evaluated processor str st out = do
  (syms, st', g) ← eval processor st out.globals str false
  ok (syms, st', record out { globals = g })

-- A handler that hands the symbols on and keeps the static variables.
abbrev with_symbols :
    ℕ → (List Symbol → Output → Run Output) → Bytes → Statics → Output → Run (Statics × Output)
with_symbols processor f str st out = do
  (syms, st', out1) ← evaluated processor str st out
  out2 ← f syms out1
  ok (st', out2)

unfoldable pub v_ds : ℕ → ℕ → Bytes → Bytes → Statics → Output → Run (Statics × Output)
unfolding evaluated ds_symbols programlabel
v_ds processor mnext label str st out =
    with_symbols processor (ds_symbols mnext) str st (labelled label out)

unfoldable pub v_org : ℕ → Bytes → Bytes → Statics → Output → Run (Statics × Output)
unfolding evaluated org_symbols
v_org processor label str = with_symbols processor (org_symbols label) str

unfoldable pub v_rorg : ℕ → Bytes → Bytes → Statics → Output → Run (Statics × Output)
unfolding evaluated rorg_symbols
v_rorg processor label str = with_symbols processor (rorg_symbols label) str

unfoldable pub v_align : ℕ → Bytes → Bytes → Statics → Output → Run (Statics × Output)
unfolding evaluated align_symbols
v_align processor label str = with_symbols processor (align_symbols label) str

-- DC; `mnext` is the extension, which .byte, db and the like set by their own name.
unfoldable pub v_dc : ℕ → ℕ → Bool → Bytes → Bytes → Statics → Output → Run (Statics × Output)
unfolding evaluated dc_all programlabel
v_dc processor mnext strict label str st out =
    with_symbols processor (dc_all mnext strict) str st (labelled label out)

-- The symbol of EQU, and the bytes for the listing.
equ_list : Bytes → List Symbol → Output → Run Output
unfolding equ_symbol
equ_list label [] out = undefined
equ_list label (s ∷ r) out =
    ok (on_globals (equ_symbol label s) (record out { gen = listed s.value }))

-- The label `.` or `*` makes it an origin: the text is evaluated once more.
unfoldable pub v_equ : ℕ → Bytes → Bytes → Statics → Output → Run (Statics × Output)
unfolding evaluated equ_list v_org v_rorg
v_equ processor label str st out = do
  (syms, st', out1) ← evaluated processor str st out
  (if same_bytes label (codes ".") || same_bytes label (codes "*")
      then (if has (here out1).flags sf_rorg
          then v_rorg processor (codes ".") str st' out1
          else v_org processor (codes ".") str st' out1)
      else (equ_list label syms out1 >>= λ out2. ok (st', out2)))

-- An instruction: the expression is read with its addressing mode (wantmode).
unfoldable pub v_mnemonic :
    Settings → Mnemonic → Bytes → Bytes → Statics → Output → Run (Statics × Output)
unfolding eval assemble programlabel
v_mnemonic set mne label str st out = do
  let out1 = labelled label (on_globals reference_segment out)
  (syms, st', g) ← eval set.processor st out1.globals str true
  out2 ← assemble set mne syms (record out1 { globals = g })
  ok (st', out2)

-- The state of a handler of conditional assembly.
pub record Conditions : Type 0 where
  pub statics : Statics
  pub output : Output
  pub ifs : IfStack

-- `++Redo; Redo_why |= REASON_IF_NOT_RESOLVED; Redo_if |= 1`
abbrev unresolved_if : Globals → Globals
unresolved_if g = let h = again if_not_resolved g in record h { redo_if = with_bit h.redo_if 1 }

-- What IF does with the first symbol.
if_list : ℕ → List Symbol → IfStack → Output → Run (IfStack × Output)
unfolding if_symbol
if_list file [] ifs out = undefined
if_list file (s ∷ r) ifs out =
    ok (if_symbol file s ifs, (if s.flags == 0 then out else on_globals unresolved_if out))

unfoldable pub v_if : ℕ → ℕ → Bytes → Bytes → Conditions → Run Conditions
unfolding evaluated if_list pushif programlabel
v_if processor file label str c =
    if not (assembles c.ifs.top) then ok (record c { ifs = pushif file false c.ifs }) else do
      (syms, st', out1) ← evaluated processor str c.statics (labelled label c.output)
      (ifs, out2) ← if_list file syms c.ifs out1
      ok (record { statics = st'; output = out2; ifs = ifs })

-- IFCONST and IFNCONST, by what they do with the first symbol.
const_list : (Symbol → IfStack → IfStack) → List Symbol → IfStack → Run IfStack
const_list f [] ifs = undefined
const_list f (s ∷ r) ifs = ok (f s ifs)

abbrev test_const : ℕ → (Symbol → IfStack → IfStack) → Bytes → Bytes → Conditions → Run Conditions
test_const processor f label str c = do
  (syms, st', out1) ← evaluated processor str c.statics (labelled label c.output)
  ifs ← const_list f syms c.ifs
  ok (record { statics = st'; output = out1; ifs = ifs })

-- REPEAT; where text is not assembled it only opens an IF.
unfoldable pub v_repeat : ℕ → Bytes → Bytes → Statics → Reading → Run (Statics × Reading)
unfolding eval push_loop pushif programlabel
v_repeat processor label str st r = repeat_in r.incfiles
  where
    repeat_list : IncFile → List Symbol → Reading → Run Reading
    repeat_list inc [] q = undefined
    repeat_list inc (s ∷ others) q = ok (push_loop inc s q)

    repeat_in : List IncFile → Run (Statics × Reading)
    repeat_in [] = undefined
    repeat_in (inc ∷ next) =
        if not (assembles r.ifs.top)
        then ok (st, record r { ifs = pushif inc.file false r.ifs })
        else do
          (syms, st', g) ← eval processor st (programlabel label r.globals) str false
          q ← repeat_list inc syms (record r { globals = g })
          ok (st', q)

unfoldable pub v_ifconst : ℕ → ℕ → Bytes → Bytes → Conditions → Run Conditions
unfolding evaluated const_list ifconst_symbol programlabel
v_ifconst processor file = test_const processor (ifconst_symbol file)

unfoldable pub v_ifnconst : ℕ → ℕ → Bytes → Bytes → Conditions → Run Conditions
unfolding evaluated const_list ifnconst_symbol programlabel
v_ifnconst processor file = test_const processor (ifnconst_symbol file)

unfoldable pub v_else : Bytes → Conditions → Conditions
unfolding flip_branch programlabel
v_else label c =
    let t = c.ifs.top in
    if t.acctrue && not t.is_base
    then record c { output = labelled label c.output; ifs = flip_branch c.ifs }
    else c

unfoldable pub v_endif : ℕ → Bytes → Conditions → Conditions
unfolding pop_if programlabel
v_endif file label c =
    let t = c.ifs.top in
    if t.is_base then c else record c {
      output = if t.acctrue then labelled label c.output else c.output;
      ifs = pop_if file c.ifs;
    }
