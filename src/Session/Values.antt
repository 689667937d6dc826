-- ===== src/Session/Values.antt =====
-- DV in v_dc of src/ops.c, and the extension that v_dc takes from its own name.
use dasm.Base.{
  ℕ, Bool, false, not, ◌&&◌, Option, none, some, List, [], ◌∷◌, ◌++◌, Bytes, peek, ◌==◌,
  if◌then◌else◌,
}
use dasm.Data.{check_range, data_entry, dc_string}
use dasm.Expr.Eval.{Statics}
use dasm.Expr.Steps.{eval}
use dasm.Extension.{findext}
use dasm.Origin.{on_globals}
use dasm.Output.{Output, generate}
use dasm.Run.{Run, ok, undefined, ◌>>=◌}
use dasm.State.{
  Symbol, has, again, dc_not_resolved, dv_not_resolved_could, sym_unknown, sym_string, sym_macro,
}
use dasm.Symbols.{findsymbol, programlabel, setspecial}

-- The mode of the extension `x.` and a letter.
abbrev letter_mode : ℕ → Option ℕ
letter_mode c = (findext (b'x' ∷ b'.' ∷ c ∷ [])).mnext

unfoldable pub second_byte : Bytes → ℕ
second_byte [] = 0
second_byte (c ∷ s) = peek s

-- Mnext of v_dc: that of the line for DC and DV, else by the name.
unfoldable pub dc_mnext : Bytes → Option ℕ → Option ℕ
unfolding second_byte findext
dc_mnext name mnext =
    let c = second_byte name in
    if not (peek name == b'd')
    then letter_mode (peek name)
    else if not (c == b'c') && not (c == b'v')
    then letter_mode (if c == b'd' then b'l' else c)
    else mnext

-- The value of the macro of DV at a symbol's value, which is `..` in it.
dv_value : ℕ → Bytes → Symbol → Statics → Output → Run (ℕ × Statics × Output)
unfolding eval setspecial
dv_value processor macstr s st out = do
  (syms, st', g) ← eval processor st (setspecial s.value s.flags out.globals) macstr false
  value_of syms st' (record out { globals = g })
  where
    value_of : List Symbol → Statics → Output → Run (ℕ × Statics × Output)
    value_of [] st' out' = undefined
    value_of (t ∷ r) st' out' = ok (
      t.value,
      st',
      (if has t.flags sym_unknown then on_globals (again dv_not_resolved_could) out' else out'),
    )

-- A symbol of DV.
dv_symbol : ℕ → ℕ → Bool → Bytes → Symbol → Statics → Output → Run (Statics × Output)
unfolding dv_value dc_string check_range data_entry
dv_symbol processor mnext strict macstr s st out0 =
    let out = if has s.flags sym_unknown then on_globals (again dc_not_resolved) out0 else out0 in
    if has s.flags sym_string
    then elim s.string [
      | none ↦ undefined
      | some text ↦ dc_string mnext text out >>= λ out1. ok (st, out1)
    ]
    else dv_value processor macstr s st out >>= λ r.
        let checked = check_range mnext strict r.0 r.2 in
        ok (r.1, record checked { gen = checked.gen ++ data_entry mnext checked.msborder r.0 })

dv_symbols : ℕ → ℕ → Bool → Bytes → List Symbol → Statics → Output → Run (Statics × Output)
unfolding dv_symbol
dv_symbols processor mnext strict macstr [] st out = ok (st, out)
dv_symbols processor mnext strict macstr (s ∷ r) st out =
    dv_symbol processor mnext strict macstr s st out >>= λ p.
    dv_symbols processor mnext strict macstr r p.0 p.1

-- The text up to a space, and the rest.
split_space : Bytes → Bytes × Bytes
split_space [] = ([], [])
split_space (c ∷ s) = let (a, r) = split_space s in if c == 32 then ([], c ∷ s) else (c ∷ a, r)

-- DV with the macro that EQM gave the symbol; where there is none a message is printed.
dv_macro : ℕ → ℕ → Bool → Symbol → Bytes → Statics → Output → Run (Statics × Output)
unfolding dv_symbols eval generate
dv_macro processor mnext strict mac str st out =
    if not (has mac.flags sym_macro) then ok (st, out) else elim mac.string [
      | none ↦ undefined
      | some macstr ↦ do
        (syms, st', g) ← eval processor st out.globals str false
        (st'', out') ←
            dv_symbols processor mnext strict macstr syms st' (record out { globals = g; gen = [] })
        out'' ← generate out'
        ok (st'', out'')
    ]

unfoldable pub v_dv : ℕ → ℕ → Bool → Bytes → Bytes → Statics → Output → Run (Statics × Output)
unfolding split_space dv_macro findsymbol programlabel
v_dv processor mnext strict label str st out0 =
    let out = on_globals (programlabel label) (record out0 { gen = [] }) in
    let (name, rest) = split_space str in
    elim (findsymbol out.globals name) [
      | none ↦ ok (st, out)
      | some (r, mac) ↦ dv_macro processor mnext strict mac rest st out
    ]
