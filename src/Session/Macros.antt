-- ===== src/Session/Macros.antt =====
-- What a macro that v_macro of src/main.c defines does to the table of the mnemonics.
use dasm.Base.{◌≡◌, true, false, Option, some, List, [], ◌∷◌, Bytes, same_bytes, if◌then◌else◌}
use dasm.Instruction.{Mnemonic, by_execmac}
use dasm.Opcodes.{mnemonic_name, findmne}
use dasm.Run.{Run, ok}
use dasm.Session.{Session, scan_line}
use dasm.Line.Parse.{Parsed}
use dasm.Session.Definition.{with_table, with_macro, advance, ends_macro}

-- The lines of a definition: each is scanned, and kept as it is then, up to the one that ends it.
pub data Reads : List Bytes → Session → List Bytes → Session → Type 0 where
  ends :
      {line : Bytes} {text : List Bytes} {s t : Session} {p : Parsed} {mne : Option Mnemonic}
      → scan_line true line (advance text s) ≡ ok (p, mne, t)
      → ends_macro p.op.opcode mne ≡ true
      → Reads (line ∷ text) s [] t
  goes_on :
      {line : Bytes} {text body : List Bytes} {s t u : Session} {p : Parsed} {mne : Option Mnemonic}
      → scan_line true line (advance text s) ≡ ok (p, mne, t)
      → ends_macro p.op.opcode mne ≡ false
      → Reads text t body u
      → Reads (line ∷ text) s (p.buf ∷ body) u

-- The session while the lines of a new macro are read: its name is known already.
abbrev pub opened : Bytes → Session → Session
opened name s = with_table (with_macro name [] s.pass s.target.table) s

-- What v_macro returns for a macro with these lines: the reading behind them, and a table in which the
-- macro, a row with execmac, the lines and the number of the pass, is found under every spelling of its
-- name, and under other names what was found before.
pub record Defined (name : Bytes) (body : List Bytes) (s after : Session) (m : Run Session)
    : Type 0 where
  pub result : Session
  pub returns : m ≡ ok result
  pub reading : result.reading ≡ after.reading
  pub output : result.output ≡ after.output
  pub found :
      (str : Bytes)
      → findmne str result.target.table ≡ (
          if same_bytes (mnemonic_name str) name
          then some (record {
            name = name;
            vect = by_execmac body s.pass;
            flags = 0x08;
            okmask = 0;
            opcode = [];
          })
          else findmne str s.target.table)
