-- ===== src/Session/Lines.antt =====
-- The lines of a pass, in MainShadow of src/main.c.
use dasm.Base.{
  ℕ, zero, suc, Bool, false, ◌||◌, Option, none, some, List, [], ◌∷◌, Bytes, if◌then◌else◌,
}
use dasm.Conditional.{assembles}
use dasm.Errors.{unknown_mnemonic}
use dasm.Instruction.{Mnemonic}
use dasm.Line.Parse.{Parsed}
use dasm.Opcodes.Tables.{mf_if}
use dasm.Run.{Run, ok, ◌>>=◌}
use dasm.Session.{Session, Options, reading_of, with_reading, with_globals, scan_line}
use dasm.Session.Handlers.{call}
use dasm.Sources.{IncFile, read_line, close_file}
use dasm.State.{has, report}
use dasm.Symbols.{programlabel}

-- Ifstack->xtrue && Ifstack->acctrue
abbrev pub is_assembling : Session → Bool
is_assembling s = assembles s.reading.ifs.top

-- What a line does: without an opcode it is a label; the rows with MF_IF are called at all times.
unfoldable pub dispatch : Options → Bytes → Parsed → Option Mnemonic → Session → Run Session
unfolding call programlabel
dispatch opts [] p mne s =
    ok (if is_assembling s then with_globals (programlabel p.label s.output.globals) s else s)
dispatch opts (c ∷ op) p none s =
    ok (if is_assembling s then with_globals (report unknown_mnemonic s.output.globals) s else s)
dispatch opts (c ∷ op) p (some mne) s =
    if has mne.flags mf_if || is_assembling s then call opts mne.vect mne p.label p.str s else ok s

-- A line that has been read.
unfoldable pub process_line : Options → Bytes → Session → Run Session
unfolding scan_line dispatch
process_line opts line s = scan_line false line s >>= λ r. dispatch opts r.0.op.opcode r.0 r.1 r.2

-- The next line, or the end of the file.
unfoldable pub step : Options → Session → Run Session
unfolding read_line process_line close_file
step opts s = read_line s.reading.incfiles (reading_of s) >>= λ r. next r.0 (with_reading r.1 s)
  where
    next : Option Bytes → Session → Run Session
    next none t = close_file t.reading.incfiles (reading_of t) >>= λ q. ok (with_reading q t)
    next (some line) t = process_line opts line t

-- The steps of a pass, until no file is left; none if the fuel is not enough.
unfoldable pub run_lines : Options → ℕ → Session → Run (Option Session)
unfolding step
run_lines opts zero s = ok none
run_lines opts (suc n) s = going s.reading.incfiles (step opts s >>= run_lines opts n)
  where
    going : List IncFile → Run (Option Session) → Run (Option Session)
    going [] more = ok (some s)
    going (inc ∷ next) more = more
