-- ===== src/Assign/Dynamic.antt =====
-- SET, SETSTR and SETSYM of src/ops.c, with the names that SET puts together.
use dasm.Base.{
  ℕ, zero, suc, ◌+◌, ◌-◌, ◌%◌, ◌^◌, Bool, true, false, not, ◌||◌, Option, none, some, List, [], ◌∷◌,
  ◌++◌, Bytes, length, take, ltb, ◌==◌, if◌then◌else◌,
}
use dasm.Assign.{find_or_create, equate}
use dasm.Base.Decimal.{decimal}
use dasm.Errors.{syntax_error, type_mismatch}
use dasm.Expr.Eval.{Statics}
use dasm.Expr.Steps.{eval}
use dasm.Run.{Run, ok, undefined, ◌>>=◌}
use dasm.State.{Symbol, Globals, has, report, sym_unknown, sym_string}
use dasm.Symbols.{modify}

-- The symbol of the label takes value, flags and string of the expression.
unfoldable pub set_symbol : Bytes → Symbol → Globals → Globals
unfolding find_or_create modify
set_symbol label sym g = let (g', r, lab) = find_or_create g label in modify g' r (equate sym)

abbrev comma : ℕ
comma = 44

abbrev quote : ℕ
quote = 34

abbrev space : ℕ
space = 32

-- The name in front of the first quote, space or comma, and the text from there on.
unfoldable pub split_name : Bytes → Bytes × Bytes
split_name [] = ([], [])
split_name (c ∷ s) =
    let (a, r) = split_name s in
    if c == quote || c == space || c == comma then ([], c ∷ s) else (c ∷ a, r)

-- Up to the first comma or space, and from there on.
unfoldable pub split_word : Bytes → Bytes × Bytes
split_word [] = ([], [])
split_word (c ∷ s) =
    let (a, r) = split_word s in if c == space || c == comma then ([], c ∷ s) else (c ∷ a, r)

unfoldable pub before_comma : Bytes → Bytes
before_comma [] = []
before_comma (c ∷ s) = let r = before_comma s in if c == comma then [] else c ∷ r

-- printf's %d, at the lower 32 bits of the value
unfoldable pub int_text : ℕ → Bytes
int_text v = let n = v % 2 ^ 32 in if ltb n (2 ^ 31) then decimal n else b'-' ∷ decimal (2 ^ 32 - n)

-- The name that is put together, the number of arguments that are not known, and the static
-- variables and globals of eval.
pub record Naming : Type 0 where
  pub name : Bytes
  pub unset : Bool
  pub statics : Statics
  pub globals : Globals

-- A string constant, whose characters are not counted against the 257 bytes of the buffer.
unfoldable pub append_string : Bytes → Naming → Run (Bytes × Naming)
unfolding split_name
append_string text n =
    let (a, r) = split_name text in
    let name = n.name ++ a in
    let closed = closing r in
    if ltb 256 (length name) then undefined else elim closed [
      | some after ↦ ok (after, record n { name = name })
      | none ↦ ok (r, record n { name = name; globals = report syntax_error n.globals })
    ]
  where
    closing : Bytes → Option Bytes
    closing [] = none
    closing (c ∷ s) = if c == quote then some s else none

-- The value of a symbol, as far as there is room.
append_value : Symbol → Naming → Naming
unfolding int_text
append_value s n =
    let t = int_text s.value in
    if has s.flags sym_unknown
    then record n { unset = true }
    else if ltb (length n.name + length t) 256
    then record n { name = n.name ++ t }
    else n

-- An argument that is evaluated.
unfoldable pub append_symbol : ℕ → Bytes → Naming → Run (Bytes × Naming)
unfolding eval split_word before_comma append_value
append_symbol processor text n = do
  (syms, st, g) ← eval processor n.statics n.globals (before_comma (take 256 text)) false
  first syms (record n { statics = st; globals = g })
  where
    first : List Symbol → Naming → Run (Bytes × Naming)
    first [] m = undefined
    first (s ∷ others) m = ok ((split_word text).1, append_value s m)

-- The loop over the arguments, each behind a comma or another character. A round takes at least that
-- character.
unfoldable pub concat_loop : ℕ → ℕ → Bytes → Naming → Run Naming
unfolding append_string append_symbol
concat_loop zero processor text n = ok n
concat_loop (suc k) processor [] n = ok n
concat_loop (suc k) processor (c ∷ text) n =
    let next = λ (p : Bytes × Naming). concat_loop k processor p.0 p.1 in
    let arg = argument text in
    if c == quote || c == space then ok n else elim arg [
      | some str ↦ append_string str n >>= next
      | none ↦ append_symbol processor text n >>= next
    ]
  where
    argument : Bytes → Option Bytes
    argument [] = none
    argument (d ∷ s) = if d == quote then some s else none

-- What is done with the expression's symbols.
set_list : Bytes → List Symbol → Statics → Globals → Run (Statics × Globals)
unfolding set_symbol
set_list label [] st g = undefined
set_list label (s ∷ others) st g = ok (st, set_symbol label s g)

abbrev set_expression : ℕ → Bytes → Bytes → Statics → Globals → Run (Statics × Globals)
set_expression processor label str st g = do
  (syms, st', g') ← eval processor st g str false
  set_list label syms st' g'

has_comma : Bytes → Bool
has_comma [] = false
has_comma (c ∷ s) = c == comma

unfoldable pub v_set : ℕ → Bytes → Bytes → Statics → Globals → Run (Statics × Globals)
unfolding split_name has_comma concat_loop set_list eval
v_set processor label str st g =
    let (name, r) = split_name str in
    if not (has_comma r) then set_expression processor label str st g else do
      n ←
          concat_loop (suc (length str)) processor r
            (record { name = take 256 name; unset = false; statics = st; globals = g })
      (if n.unset
          then ok (n.statics, n.globals)
          else set_expression processor label n.name n.statics n.globals)

unfoldable pub v_setstr : ℕ → Bytes → Bytes → Statics → Globals → Run (Statics × Globals)
unfolding v_set
v_setstr processor label symstr = v_set processor label (take 1023 (quote ∷ symstr ++ quote ∷ []))

-- SETSYM at the symbols of its expression.
setsym_list : ℕ → Bytes → List Symbol → Statics → Globals → Run (Statics × Globals)
unfolding v_set
setsym_list processor label [] st g = undefined
setsym_list processor label (s ∷ others) st g =
    if has s.flags sym_unknown
    then ok (st, g)
    else if not (has s.flags sym_string)
    then ok (st, report type_mismatch g)
    else elim s.string [ none ↦ undefined | some str ↦ v_set processor label (take 1023 str) st g ]

unfoldable pub v_setsym : ℕ → Bytes → Bytes → Statics → Globals → Run (Statics × Globals)
unfolding eval setsym_list
v_setsym processor label symstr st g = do
  (syms, st', g') ← eval processor st g symstr false
  setsym_list processor label syms st' g'
