-- ===== src/Session.antt =====
-- A pass over the lines, with the state of all parts: what MainShadow of src/main.c does for a
-- line, and the functions of the directives and instructions behind the rows of the tables.
pub mod Values
pub mod Definition
pub mod Handlers
pub mod Lines
pub mod Macros
pub mod Skipping
use dasm.Base.{ℕ, ◌+◌, Bool, not, Option, none, some, List, [], ◌∷◌, Bytes, if◌then◌else◌}
use dasm.Expr.Eval.{Statics}
use dasm.Instruction.{Mnemonic}
use dasm.Line.Cleanup.{cleanup}
use dasm.Line.Parse.{Parsed, parse}
use dasm.Opcodes.{findmne}
use dasm.Opcodes.Tables.{mf_begm, mf_endm}
use dasm.Output.{Output}
use dasm.Processor.{Tables, Target}
use dasm.Run.{Run, ok, undefined, ◌>>=◌}
use dasm.Segments.{Segments}
use dasm.Sources.{IncFile, Reading}
use dasm.State.{Segment, Globals, has}

-- The state of a pass. The globals are those of `output`; `reading` has a copy that is overwritten.
-- `mnext` is Mnext, none for -1.
pub record Session : Type 0 where
  pub statics : Statics
  pub output : Output
  pub reading : Reading
  pub seglist : List Segment
  pub target : Target
  pub mnext : Option ℕ
  pub mlflag : Bool
  pub declarations : ℕ
  pub closings : ℕ
  pub pass : ℕ

-- The opcode tables, what pfopen finds, bStrictMode and F_verbose.
pub record Options : Type 0 where
  pub tables : Tables
  pub find_bytes : Bytes → Option Bytes
  pub find_lines : Bytes → Option (List Bytes)
  pub strict : Bool
  pub verbose : Bool

abbrev pub reading_of : Session → Reading
reading_of s = record s.reading { globals = s.output.globals }

abbrev pub with_reading : Reading → Session → Session
with_reading r s = record s { reading = r; output = record s.output { globals = r.globals } }

abbrev pub with_globals : Globals → Session → Session
with_globals g s = record s { output = record s.output { globals = g } }

abbrev pub with_output : Session → Statics × Output → Session
with_output s r = record s { statics = r.0; output = r.1 }

-- pIncfile->args
unfoldable pub args_of : List IncFile → List Bytes
args_of [] = []
args_of (inc ∷ next) = inc.args

-- The counts of macros in parse.
unfoldable pub count_macros : Option Mnemonic → Session → Session
count_macros none s = s
count_macros (some mne) s = record s {
  declarations = if has mne.flags mf_begm then s.declarations + 1 else s.declarations;
  closings = if has mne.flags mf_endm then s.closings + 1 else s.closings;
}

-- cleanup and parse of a line, and the row of its opcode.
unfoldable pub scan_line : Bool → Bytes → Session → Run (Parsed × Option Mnemonic × Session)
unfolding cleanup parse args_of count_macros
scan_line disable line s = do
  (mlflag, text, g) ← cleanup disable (args_of s.reading.incfiles) s.mlflag line s.output.globals
  p ← parse s.target.processor text s.statics g
  let mne = findmne p.op.opcode s.target.table
  let t = record (with_globals p.globals s) {
    mlflag = mlflag;
    statics = p.statics;
    mnext = p.op.mnext;
  }
  ok (p, mne, count_macros mne t)
