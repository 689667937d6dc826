-- ===== src/Expr/Eval.antt =====
-- eval of src/exp.c: the loop over the characters of an expression. The variable Processor is a
-- parameter; a macro symbol is evaluated by the call `nested` of eval.
use dasm.Base.{
  ℕ, ◌+◌, ◌-◌, ◌%◌, Bool, false, Option, none, some, List, [], ◌∷◌, ◌++◌, Bytes, peek, drop, length,
  ltb, ◌==◌, if◌then◌else◌, bit_or,
}
use dasm.Errors.{AsmError, illegal_character, illegal_addressing_mode, recursion_too_deep}
use dasm.Expr.Literals.{scan_value, scan_rest, symbol_name}
use dasm.Expr.Machine.{Op, Machine, asmerr}
use dasm.Expr.Stack.{stackarg, stackarg_string, doop}
use dasm.Modes.{am_imp}
use dasm.Run.{Run, ok, exit, undefined, ◌>>=◌}
use dasm.State.{
  Symbol, Globals, mnemonic_not_resolved, again, has, with_bit, sym_unknown, sym_ref, sym_masref,
  sym_string, sym_macro,
}
use dasm.Symbols.{findsymbol, createsymbol, modify}

-- The static variables of src/exp.c between two calls of eval: Argi, Opi, the entries of Opdis
-- from Opi on, ucasm_indexed_notation and symbolRecursionCount.
pub record Statics : Type 0 where
  pub argi : ℕ
  pub opi : ℕ
  pub spare : List (Option Op)
  pub indexed : Bool
  pub recursion : ℕ

-- The variables of a running call. `finished` are the symbols in front of `cur`, the last first.
pub record Eval : Type 0 where
  pub machine : Machine
  pub globals : Globals
  pub str : Bytes
  pub wantmode : Bool
  pub finished : List Symbol
  pub cur : Symbol
  pub indexed : Bool
  pub recursion : ℕ

abbrev pub Evaluator : Type 0
Evaluator = Statics → Globals → Bytes → Bool → Run (List Symbol × Statics × Globals)

-- allocsymbol
abbrev pub blank_symbol : Symbol
blank_symbol = record {
  name = [];
  string = none;
  flags = 0;
  addrmode = am_imp;
  value = 0;
  order = 0;
}

abbrev pub advance : ℕ → Eval → Eval
advance n e = record e { str = drop n e.str }

abbrev pub on_machine : (Machine → Run Machine) → Eval → Run Eval
on_machine f e = f e.machine >>= λ m. ok (record e { machine = m })

abbrev pub complain : AsmError → Eval → Eval
complain err e = let m = e.machine in record e { machine = asmerr err m }

-- asmerr (...); ++Redo; Redo_why |= REASON_MNEMONIC_NOT_RESOLVED;
abbrev pub bad_mode : Eval → Eval
bad_mode e =
    let g = e.globals in
    record (complain illegal_addressing_mode e) { globals = again mnemonic_not_resolved g }

abbrev pub set_mode : ℕ → Eval → Eval
set_mode mode e = let s = e.cur in record e { cur = record s { addrmode = mode } }

-- c | 0x20
abbrev pub lower : ℕ → ℕ
lower c = bit_or c 0x20

abbrev pub at : ℕ → Eval → ℕ
at i e = peek (drop i e.str)

-- doop, and the characters of the operator.
abbrev pub op_step : Op → ℕ → ℕ → Eval → Run Eval
op_step o pri n e = on_machine (doop o pri) e >>= λ e'. ok (advance n e')

-- What pushsymbol does with a symbol that it found, a macro's value included.
unfoldable pub stack_symbol : Symbol → Machine → Run Machine
unfolding stackarg stackarg_string
stack_symbol s m =
    if has s.flags sym_string
    then elim s.string [ some str ↦ stackarg_string str m | none ↦ undefined ]
    else stackarg s.value (s.flags % 2) m

abbrev pub to_statics : Eval → Statics
to_statics e = record {
  argi = e.machine.argibase + length e.machine.args;
  opi = e.machine.opibase + length e.machine.ops;
  spare = e.machine.spare;
  indexed = e.indexed;
  recursion = e.recursion;
}

-- The globals with the errors of the running call in place.
abbrev pub to_globals : Eval → Globals
to_globals e = let g = e.globals in record g { errors = e.machine.errors }

-- sym = eval (sym->string, 0), and its value.
unfoldable pub eval_macro : Option Evaluator → Option Bytes → Eval → Run Eval
unfolding stack_symbol
eval_macro none str e = exit recursion_too_deep
eval_macro (some nested) none e = undefined
eval_macro (some nested) (some str) e = nested (to_statics e) (to_globals e) str false >>= λ r.
    elim r.0 [
      | [] ↦ undefined
      | s ∷ _ ↦
          let m = e.machine in
          on_machine (stack_symbol s) (record e {
            machine = record m { spare = r.1.spare; errors = r.2.errors };
            globals = r.2;
            indexed = r.1.indexed;
            recursion = r.1.recursion;
          })
    ]

abbrev pub count_unknown : Symbol → Globals → Globals
count_unknown s g = if has s.flags sym_unknown then record g { redo_eval = g.redo_eval + 1 } else g

abbrev pub mark : Symbol → Symbol
mark s = record s { flags = with_bit (with_bit s.flags sym_ref) sym_masref }

-- pushsymbol from the call of findsymbol on, for the symbol `name`.
unfoldable pub push_named : Option Evaluator → Bytes → Eval → Run Eval
unfolding eval_macro stack_symbol stackarg findsymbol createsymbol modify
push_named nested name e0 = elim (findsymbol e0.globals name) [
  | some (r, s) ↦
      let e = record e0 { globals = count_unknown s e0.globals } in
      if has s.flags sym_macro
      then eval_macro nested s.string e
      else (on_machine (stack_symbol s) e >>= λ e'.
          ok (record e' { globals = modify e'.globals r mark }))
  | none ↦ on_machine (stackarg 0 sym_unknown) e0 >>= λ e.
      let (g, r, s) = createsymbol e.globals name false in
      let g' = modify g r (λ t. record t { flags = 0x45 }) in
      ok (record e { globals = record g' { redo_eval = g'.redo_eval + 1 } })
]

-- What pushsymbol takes for the name at `str`, with a dollar behind it.
unfoldable pub name_at : Bytes → Bytes
unfolding symbol_name
name_at str =
    let name = symbol_name str in
    if peek (drop (length name) str) == b'$' then name ++ b'$' ∷ [] else name

-- pushsymbol (str): the state behind it, and the length that it read. The count of recursions is
-- not taken back at an illegal character.
unfoldable pub pushsymbol : Option Evaluator → Bytes → Eval → Run (Eval × ℕ)
unfolding push_named name_at symbol_name
pushsymbol nested str e0 =
    let e = record e0 { recursion = e0.recursion + 1 } in
    if ltb 1000 e.recursion
    then exit recursion_too_deep
    else if length (symbol_name str) == 0
    then ok (complain illegal_character e, 1)
    else (push_named nested (name_at str) e >>= λ e'.
        ok (record e' { recursion = e'.recursion - 1 }, length (name_at str)))

-- pushsymbol at the text of the expression.
unfoldable pub symbol_step : Option Evaluator → Eval → Run Eval
unfolding pushsymbol
symbol_step nested e = pushsymbol nested e.str e >>= λ r. ok (advance r.1 r.0)

-- pushhex and the like, at the text behind `skip` characters.
unfoldable pub number_step : (ℕ → Option ℕ) → ℕ → ℕ → Eval → Run Eval
unfolding scan_value scan_rest stackarg
number_step digit radix skip e =
    let str = drop skip e.str in
    on_machine (stackarg (scan_value digit radix 0 str) 0) e >>= λ e'.
    ok (record e' { str = scan_rest digit str })
