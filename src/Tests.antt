-- ===== src/Tests.antt =====
-- The theorems at concrete inputs, and runs of the definitions.
mod Names
mod Expressions
mod Instructions
mod Fairchild
mod Reading
mod Converters
mod Lines
mod Messages
mod Sessions
use dasm.Base.{
  ℕ, ◌+◌, ◌%◌, ◌^◌, ◌≤◌, ◌<◌, ◌≡◌, ◌↔◌, refl, Bool, true, false, not, Option, none, some, List, [],
  ◌∷◌, ◌++◌, Bytes, codes, inl, inr, arith, length, if◌then◌else◌, peek, rest, same_bytes,
  replicate,
}
use mathlib.Core.Option
use dasm.Errors.{
  AsmError, no_error, error_number, error_definitions, error_definitions-error_number,
  division_by_0,
}
use dasm.Base.{get_elem?}
use dasm.Run.{Run, ok, ◌>>=◌}
use dasm.State.{Globals, Segment, Symbol}
use dasm.Output.{Output, format_raw, generate, genfill, fill_entry, entries_of, here}
use dasm.Output.Raw.{Writing, Places, generate-Places}
use dasm.Output.Fill.{Grown, genfill-Grown}
use dasm.Origin.{align_counter}
use dasm.Origin.Align.{Aligned, align_counter-Aligned}
use dasm.Data.{data_entry, dc_string}
use dasm.Data.Strings.{
  text_entries, dc_string-Grown, entry_value, order_of, bits_of, entry_value-data_entry,
}
use dasm.Hex.{data_line, sum_of}
use dasm.Hex.Lines.{read_bytes, record_bytes, data_line-reads}

abbrev no_symbol : Symbol
no_symbol = record { name = []; string = none; flags = 0; addrmode = 0; value = 0; order = 0 }

abbrev known : ℕ → Symbol
known v = record no_symbol { value = v }

abbrev pub segment : ℕ → Segment
segment org = record {
  name = codes "CODE";
  flags = 0;
  rflags = 0;
  org = org;
  rorg = 0;
  initorg = org;
  initrorg = 0;
  initflags = 0;
  initrflags = 0;
}

abbrev pub globals : Globals
globals = record {
  shash = λ _. [];
  symbol_count = 0;
  localindex = 1;
  lastlocalindex = 1;
  localdollarindex = 2;
  lastlocaldollarindex = 2;
  org = no_symbol;
  special = no_symbol;
  specchk = no_symbol;
  csegment = segment 0x1003;
  checksum = 0;
  redo = 0;
  redo_eval = 0;
  redo_why = [];
  redo_if = 0;
  errors = [];
}

abbrev pub output : Output
output = record {
  globals = globals;
  gen = 0xEA ∷ 0x60 ∷ [];
  fisclear = false;
  org = 0x1001;
  orgfill = 255;
  msborder = false;
  format = format_raw;
  file = 0x4C ∷ [];
  seekback = 0;
  seglen = 0;
  maxfilesize = 655360;
}

output-Writing : Writing output
output-Writing = record {
  resolved = refl;
  initialized = refl;
  begun = refl;
  plain = inl refl;
  ahead = omega arith;
}

generate-Places_example :
    (out' : Output) × (generate output ≡ ok out') × Places 0x1000 0 output out'
generate-Places_example =
    generate-Places 0x1000 0 output output-Writing (omega arith, omega arith) refl

genfill-Grown_example :
    (out' : Output) × (genfill 0x1234 3000 2 output ≡ ok out')
    × Grown (entries_of 3000 (fill_entry false 0x1234 2)) output out'
genfill-Grown_example =
    genfill-Grown 0x1234 3000 2 output (inr (inl refl)) (omega arith) (omega arith) output-Writing
      (omega arith, omega arith)

align_counter-Aligned_example :
    (out' : Output) × (align_counter (known 256) 234 output ≡ ok out') × Aligned 256 234 output out'
align_counter-Aligned_example =
    align_counter-Aligned (known 256) 234 output refl refl refl (omega arith) (omega arith)
      output-Writing (omega arith, omega arith)

dc_string-Grown_example :
    (out' : Output) × ((dc_string 6 (codes "DASM") output >>= generate) ≡ ok out')
    × Grown (output.gen ++ text_entries 6 false (codes "DASM")) output out'
unfolding text_entries data_entry
dc_string-Grown_example =
    dc_string-Grown 6 (codes "DASM") output output-Writing (omega arith, omega arith)

entry_value-data_entry_example :
    entry_value (order_of 24 true) (data_entry 24 true 0x123456789) ≡ 0x123456789 % 2 ^ bits_of 24
entry_value-data_entry_example = entry_value-data_entry 24 true 0x123456789

data_line-reads_example :
    (read_bytes (rest (data_line 0xF000 (0xA9 ∷ 0x10 ∷ [])))
      ≡ record_bytes 0xF000 (0xA9 ∷ 0x10 ∷ []))
    × (sum_of (read_bytes (rest (data_line 0xF000 (0xA9 ∷ 0x10 ∷ [])))) % 256 ≡ 0)
data_line-reads_example = data_line-reads 0xF000 (0xA9 ∷ 0x10 ∷ []) (omega arith, (omega arith, tt))
