-- ===== src/Include.antt =====
-- INCLUDE and INCBIN of src/ops.c. What pfopen finds under a name is a parameter.
use dasm.Base.{
  ℕ, zero, suc, Bool, false, not, ◌&&◌, Option, none, some, List, [], ◌∷◌, Bytes, length, take,
  drop, leb, ◌==◌, if◌then◌else◌,
}
use dasm.Errors.{type_mismatch, value_undefined, syntax_error, file_error}
use dasm.Expr.Eval.{Statics}
use dasm.Expr.Steps.{eval}
use dasm.Origin.{on_globals}
use dasm.Output.{Output, generate, gen_size}
use dasm.Run.{Run, ok, exit, undefined, ◌>>=◌}
use dasm.Sources.{Reading, pushinclude}
use dasm.State.{Symbol, has, again, report, incbin_not_resolved, sym_unknown, sym_string}
use dasm.Symbols.{programlabel}
use dasm.Word.{is_negative}

abbrev quote : ℕ
quote = 34

before_quote : Bytes → Bytes
before_quote [] = []
before_quote (c ∷ s) = let r = before_quote s in if c == quote then [] else c ∷ r

-- A name in quotes, or the text itself.
unfoldable pub getfilename : Bytes → Bytes
unfolding before_quote
getfilename [] = []
getfilename (c ∷ s) = if c == quote then before_quote s else c ∷ s

-- The bytes of a file through Gen, as many at a time as it holds.
unfoldable pub generate_file : ℕ → Bytes → Output → Run Output
unfolding generate
generate_file zero bytes out = ok out
generate_file (suc n) [] out = ok out
generate_file (suc n) (c ∷ s) out =
    generate (record out { gen = take gen_size (c ∷ s) })
    >>= generate_file n (drop gen_size (c ∷ s))

abbrev unlisted : Output → Output
unlisted out = record out { gen = [] }

-- The file's bytes behind those that are skipped. Where another pass is needed, generate counts the
-- bytes and does not read them.
unfoldable pub include_bytes : Option Bytes → ℕ → Output → Run Output
unfolding generate generate_file
include_bytes none skip out = exit file_error
include_bytes (some file) skip out =
    let bytes = drop skip file in
    (if out.globals.redo == 0
      then generate_file (length bytes) bytes out
      else generate (record out { gen = bytes }))
    >>= λ o. ok (unlisted o)

-- The number of bytes to skip, which must be known.
skip_bytes : List Symbol → Run ℕ
skip_bytes [] = ok 0
skip_bytes (s ∷ r) = if has s.flags sym_unknown then exit value_undefined else ok s.value

-- INCBIN at the symbols of its expression.
unfoldable pub incbin_symbols : (Bytes → Option Bytes) → List Symbol → Output → Run Output
unfolding getfilename skip_bytes include_bytes
incbin_symbols find [] out = undefined
incbin_symbols find (s ∷ r) out =
    if not (has s.flags sym_string)
    then ok (on_globals (λ g. again incbin_not_resolved (report type_mismatch g)) out)
    else elim s.string [
      | none ↦ undefined
      | some fname ↦ skip_bytes r >>= λ skip.
          if is_negative skip
          then ok (unlisted (on_globals (report syntax_error) out))
          else include_bytes (find (getfilename fname)) skip out
    ]

unfoldable pub v_incbin :
    (Bytes → Option Bytes) → ℕ → Bytes → Bytes → Statics → Output → Run (Statics × Output)
unfolding eval incbin_symbols programlabel
v_incbin find processor label str st out = do
  (syms, st', g) ← eval processor st (programlabel label out.globals) str false
  out' ← incbin_symbols find syms (record out { globals = g })
  ok (st', out')

starts_with_digit : Bytes → Bool
starts_with_digit [] = false
starts_with_digit (c ∷ s) = leb 48 c && leb c 57

-- The file is named by a symbol with a string, or by the text.
include_name : Bytes → List Symbol → Run Bytes
unfolding getfilename
include_name str [] = undefined
include_name str (s ∷ r) =
    if has s.flags sym_string
    then elim s.string [ none ↦ undefined | some name ↦ ok name ]
    else ok (getfilename str)

unfoldable pub v_include :
    (Bytes → Option (List Bytes)) → ℕ → Bytes → Bytes → Statics → Reading → Run (Statics × Reading)
unfolding eval include_name starts_with_digit pushinclude programlabel getfilename
v_include find processor label str st r =
    let g = programlabel label r.globals in
    if starts_with_digit str
    then (let name = getfilename str in
        ok (st, pushinclude name (find name) (record r { globals = g })))
    else do
      (syms, st', g') ← eval processor st g str false
      name ← include_name str syms
      ok (st', pushinclude name (find name) (record r { globals = g' }))
