-- ===== src/Tests/Sessions.antt =====
-- Lines of a pass at concrete inputs.
use dasm.Base.{
  ℕ, ◌≡◌, refl, true, false, Option, none, some, List, [], ◌∷◌, Bytes, codes, same_bytes,
}
use dasm.Instruction.{by_list, Mnemonic, by_endm}
use dasm.Opcodes.{MnemonicTable, addhashtable, findmne}
use dasm.Opcodes.Rows.{expanded, fits_mask, tables-found}
use dasm.Opcodes.Tables.{row}
use dasm.Opcodes.Tables.Directives.{ops}
use mathlib.Core.List.Memᴰ.{head, tail}
use dasm.Run.{Run, ok}
use dasm.Session.{Session, Options}
use dasm.Session.Lines.{run_lines}
use dasm.Session.Macros.{opened}
use dasm.Sources.{IncFile}
use dasm.Symbols.{place_label}
use dasm.Expr.Literals.{dec_digit}
use dasm.Tests.{output}
use dasm.Tests.Expressions.{statics}
use dasm.Tests.Reading.{reading}

abbrev endm_row : Mnemonic
endm_row = record { name = codes "endm"; vect = by_endm; flags = 0x80; okmask = 0; opcode = [] }

-- The table with ENDM alone, which every chain has.
abbrev table : MnemonicTable
table h = endm_row ∷ []

abbrev source : IncFile
source = record {
  file = 1;
  name = codes "a.asm";
  is_macro = false;
  lineno = 1;
  saveidx = 0;
  savedolidx = 0;
  text = codes " dc {1},0 ; twice" ∷ codes " endm" ∷ codes " org 4" ∷ [];
  args = [];
}

abbrev session : Session
session = record {
  statics = statics;
  output = output;
  reading = record reading { incfiles = source ∷ [] };
  seglist = [];
  target = record { called = false; processor = 0; msborder = true; table = table };
  mnext = none;
  mlflag = false;
  declarations = 1;
  closings = 0;
  pass = 1;
}

abbrev options : Options
options = record {
  tables = record {
    mne6502 = [];
    mne65c02 = [];
    mne6803 = [];
    mne_hd6303 = [];
    mne68705 = [];
    mne68hc11 = [];
    mne_f8 = [];
    mne68908 = [];
  };
  find_bytes = λ name. none;
  find_lines = λ name. none;
  strict = false;
  verbose = false;
}

-- The session when a number of its lines are read.
abbrev after_lines : ℕ → List Bytes → Session
after_lines lineno text = record (opened (codes "pair") session) {
  reading = record reading { incfiles = record source { lineno = lineno; text = text } ∷ [] };
}

abbrev at_end : Session
at_end = record (after_lines 3 (codes " org 4" ∷ [])) { closings = 1 }

-- A pass over a source with a macro, with the directives of Ops.
pass_text : List Bytes
pass_text =
    codes " mac pair"
    ∷ codes " dc {1},{2} ; two"
    ∷ codes " endm"
    ∷ codes " pair 3,4"
    ∷ codes "end pair 5,6"
    ∷ []

abbrev pass_session : Session
pass_session = record session {
  reading = record reading { incfiles = record source { text = pass_text } ∷ [] };
  target = record {
    called = false;
    processor = 0;
    msborder = true;
    table = addhashtable ops (λ h. []);
  };
  declarations = 0;
}

-- What a pass has written: behind the byte that is there, two to fill up to the program counter.
written : Run (Option Session) → Option Bytes
written (ok (some s)) = some s.output.file
written r = none

pass_written :
    written (run_lines options 40 pass_session) ≡ some (0x4C ∷ 255 ∷ 255 ∷ 3 ∷ 4 ∷ 5 ∷ 6 ∷ [])
unfolding written run_lines pass_text addhashtable same_bytes dec_digit place_label
pass_written = refl

abbrev list_row : Mnemonic
list_row = row by_list (codes "list") 0 0 (0x00 ∷ [])

tables-found_example :
    (findmne (codes "list") (addhashtable ops (λ h. [])) ≡ some (expanded list_row))
    × (fits_mask list_row ≡ true)
tables-found_example =
    tables-found ops list_row (λ h. [])
      (tail (tail (tail (tail (tail (tail (tail (tail (head refl))))))))) (head refl)
