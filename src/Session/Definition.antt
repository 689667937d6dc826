-- ===== src/Session/Definition.antt =====
-- v_macro of src/main.c: the lines up to ENDM become a row of the table.
use dasm.Base.{
  ℕ, ◌+◌, Bool, true, false, not, Option, none, some, List, [], ◌∷◌, Bytes, map, ◌==◌,
  if◌then◌else◌,
}
use dasm.Conditional.{assembles}
use dasm.Errors.{premature_eof, macro_repeated}
use dasm.Instruction
use dasm.Instruction.{Mnemonic, by_execmac}
use dasm.Opcodes.{MnemonicTable, lower_case, findmne}
use dasm.Opcodes.Tables.{mf_endm}
use dasm.Run.{Run, ok, exit, undefined, ◌>>=◌}
use dasm.Session.{Session, Options, scan_line}
use dasm.Sources.{IncFile}
use dasm.State.{has}
use dasm.Symbols.{hash1}

-- strlower_inplace
unfoldable pub strlower_inplace : Bytes → Bytes
unfolding lower_case
strlower_inplace str = map lower_case str

-- MF_MACRO
abbrev mf_macro : ℕ
mf_macro = 0x08

-- The row of a macro with these lines, in front of its chain.
abbrev pub macro_row : Bytes → List Bytes → ℕ → Mnemonic
macro_row name body pass = record {
  name = name;
  vect = by_execmac body pass;
  flags = mf_macro;
  okmask = 0;
  opcode = [];
}

unfoldable pub with_macro : Bytes → List Bytes → ℕ → MnemonicTable → MnemonicTable
unfolding hash1
with_macro name body pass table h =
    if h == hash1 name then macro_row name body pass ∷ table h else table h

-- The row of a line ends the definition.
unfoldable pub ends_macro : Bytes → Option Mnemonic → Bool
ends_macro [] mne = false
ends_macro (c ∷ s) none = false
ends_macro (c ∷ s) (some mne) = has mne.flags mf_endm

-- pIncfile->lineno and what is left of its lines
unfoldable pub at_line : List Bytes → List IncFile → List IncFile
at_line text [] = []
at_line text (inc ∷ next) = record inc { text = text; lineno = inc.lineno + 1 } ∷ next

abbrev pub advance : List Bytes → Session → Session
advance text s =
    let r = s.reading in record s { reading = record r { incfiles = at_line text r.incfiles } }

-- The lines up to the one that ends the definition; braces stay as they are in them.
unfoldable pub read_body : List Bytes → Session → Run (List Bytes × Session)
unfolding scan_line ends_macro at_line
read_body [] s = exit premature_eof
read_body (line ∷ text) s = scan_line true line (advance text s) >>= λ r.
    let more = read_body text r.2 in
    if ends_macro r.0.op.opcode r.1 then ok ([], r.2) else (more >>= λ b. ok (r.0.buf ∷ b.0, b.1))

-- In a macro fgets has no file to read.
unfoldable pub body_in : List IncFile → Session → Run (List Bytes × Session)
unfolding read_body
body_in [] s = undefined
body_in (inc ∷ next) s = if inc.is_macro then undefined else read_body inc.text s

abbrev pub with_table : MnemonicTable → Session → Session
with_table table s = let t = s.target in record s { target = record t { table = table } }

-- A macro that is new.
unfoldable pub define_macro : Bytes → Session → Run Session
unfolding with_macro body_in
define_macro name s =
    let old = s.target.table in
    body_in s.reading.incfiles (with_table (with_macro name [] s.pass old) s) >>= λ b.
    ok (with_table (with_macro name b.0 s.pass old) b.1)

-- A macro that was defined in this pass; a row that is no macro has no pass.
defined_in : ℕ → Mnemonic → Run Bool
defined_in pass mne = at mne.vect
  where
    at : Instruction.Handler → Run Bool
    at (by_execmac body defpass) = ok (defpass == pass)
    at h = undefined

-- In strict mode a macro is not defined twice in a pass.
check_repeated : Bool → Option Mnemonic → ℕ → Run (Unit {0})
unfolding defined_in
check_repeated false mne pass = ok tt
check_repeated true none pass = ok tt
check_repeated true (some mne) pass =
    defined_in pass mne >>= λ b. if b then exit macro_repeated else ok tt

-- A macro that is known, or one that is not assembled: its lines are read over.
unfoldable pub skip_macro : Bool → Option Mnemonic → Session → Run Session
unfolding check_repeated body_in
skip_macro strict mne s =
    check_repeated strict mne s.pass >>= λ _. body_in s.reading.incfiles s >>= λ b. ok b.1

unfoldable pub v_macro : Options → Bytes → Session → Run Session
unfolding strlower_inplace findmne define_macro skip_macro
v_macro opts str s =
    let name = strlower_inplace str in
    let mne = findmne name s.target.table in
    if not (assembles s.reading.ifs.top)
    then skip_macro opts.strict mne s
    else elim mne [ none ↦ define_macro name s | some m ↦ skip_macro opts.strict (some m) s ]
