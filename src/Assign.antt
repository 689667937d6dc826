-- ===== src/Assign.antt =====
-- EQU, EQM and SUBROUTINE of src/ops.c, behind eval: the symbols that a program names itself.
pub mod Resolve
pub mod Dynamic
pub mod Again
use dasm.Base.{
  ℕ, ◌+◌, ◌/◌, ◌%◌, ◌^◌, Bool, true, false, not, ◌&&◌, ◌||◌, Option, none, some, List, [], ◌∷◌,
  ◌++◌, Bytes, codes, ltb, ◌==◌, if◌then◌else◌, same_bytes,
}
use dasm.Errors.{equ_value_mismatch}
use dasm.Origin.{on_globals, org_symbols, rorg_symbols}
use dasm.Output.{Output, here}
use dasm.Run.{Run, ok, undefined}
use dasm.State.{
  Symbol, Globals, Reason, has, without_bit, again, report, equ_not_resolved, sym_unknown,
  sym_string, sym_set, sym_macro, sf_rorg,
}
use dasm.Symbols.{Ref, findsymbol, createsymbol, modify, programlabel}

-- findsymbol, or CreateSymbol where there is none.
unfoldable pub find_or_create : Globals → Bytes → Globals × Ref × Symbol
find_or_create g label = elim (findsymbol g label) [
  | some (r, s) ↦ (g, r, s)
  | none ↦ createsymbol g label true
]

-- What is wrong with a label that has a value already.
unfoldable pub check_equ : Symbol → Symbol → Globals → Globals
check_equ lab sym g =
    if has lab.flags sym_unknown
    then g
    else if has sym.flags sym_unknown
    then again equ_not_resolved g
    else if lab.value == sym.value
    then g
    else again Reason.equ_value_mismatch (report equ_value_mismatch g)

-- flags & (SYM_UNKNOWN | SYM_STRING)
abbrev kept_flags : ℕ → ℕ
kept_flags flags = flags % 2 + (if has flags sym_string then sym_string else 0)

abbrev pub equate : Symbol → Symbol → Symbol
equate sym lab = record lab { value = sym.value; flags = kept_flags sym.flags; string = sym.string }

-- The bytes for the listing.
abbrev pub listed : ℕ → Bytes
listed v =
    if ltb 0xFFFF v
    then (v / 2 ^ 24) % 256 ∷ (v / 2 ^ 16) % 256 ∷ (v / 256) % 256 ∷ v % 256 ∷ []
    else (v / 256) % 256 ∷ v % 256 ∷ []

unfoldable pub equ_symbol : Bytes → Symbol → Globals → Globals
unfolding find_or_create check_equ modify
equ_symbol label sym g =
    let (g', r, lab) = find_or_create g label in modify (check_equ lab sym g') r (equate sym)

-- EQM: the symbol becomes a macro of the text.
unfoldable pub v_eqm : Bytes → Bytes → Globals → Globals
unfolding find_or_create modify
v_eqm label str g =
    let (g', r, lab) = find_or_create g label in
    modify g' r
      (λ s. record s { value = 0; flags = sym_string + sym_set + sym_macro; string = some str })

unfoldable pub v_subroutine : Bytes → Globals → Globals
unfolding programlabel
v_subroutine label g =
    programlabel label
      (record g { lastlocalindex = g.lastlocalindex + 1; localindex = g.lastlocalindex + 1 })
