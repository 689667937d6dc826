-- ===== src/Processor.antt =====
-- PROCESSOR of src/ops.c. The tables of src/mne*.c, which Opcodes/Tables has, are an argument.
use dasm.Base.{
  ℕ, Bool, true, false, not, ◌&&◌, ◌||◌, Option, none, some, List, [], ◌∷◌, Bytes, codes, ◌==◌,
  if◌then◌else◌, same_bytes,
}
use dasm.Errors.{processor_not_supported, only_one_processor_supported}
use dasm.Instruction.{Mnemonic}
use dasm.Opcodes.{MnemonicTable, addhashtable}
use dasm.Run.{Run, ok, exit}

-- Mne6502, Mne65c02 and the others
pub record Tables : Type 0 where
  pub mne6502 : List Mnemonic
  pub mne65c02 : List Mnemonic
  pub mne6803 : List Mnemonic
  pub mne_hd6303 : List Mnemonic
  pub mne68705 : List Mnemonic
  pub mne68hc11 : List Mnemonic
  pub mne_f8 : List Mnemonic
  pub mne68908 : List Mnemonic

-- bCalled, Processor (0 for none), MsbOrder and MHash
pub record Target : Type 0 where
  pub called : Bool
  pub processor : ℕ
  pub msborder : Bool
  pub table : MnemonicTable

-- A processor: Processor, MsbOrder and the tables that it adds.
pub record Choice : Type 0 where
  pub number : ℕ
  pub msb_first : Bool
  pub added : List (List Mnemonic)

abbrev choice : ℕ → Bool → List (List Mnemonic) → Option Choice
choice number msb_first added =
    some (record { number = number; msb_first = msb_first; added = added })

-- The processor that a text names; no text names two.
unfoldable pub find_processor : Tables → Bytes → Option Choice
find_processor t str =
    if same_bytes str (codes "6502")
    then choice 6502 false (t.mne6502 ∷ [])
    else if same_bytes str (codes "65c02") || same_bytes str (codes "65C02")
    then choice 16502 false (t.mne65c02 ∷ [])
    else if same_bytes str (codes "6803")
    then choice 6803 true (t.mne6803 ∷ [])
    else if same_bytes str (codes "HD6303") || same_bytes str (codes "hd6303")
    then choice 6303 true (t.mne6803 ∷ t.mne_hd6303 ∷ [])
    else if same_bytes str (codes "68705")
    then choice 68705 true (t.mne68705 ∷ [])
    else if same_bytes str (codes "68HC11") || same_bytes str (codes "68hc11")
    then choice 6811 true (t.mne68hc11 ∷ [])
    else if same_bytes str (codes "F8") || same_bytes str (codes "f8")
    then choice 0xF8 true (t.mne_f8 ∷ [])
    else if same_bytes str (codes "68908") || same_bytes str (codes "68hc908")
    then choice 68908 true (t.mne68908 ∷ [])
    else none

add_tables : List (List Mnemonic) → MnemonicTable → MnemonicTable
unfolding addhashtable
add_tables [] table = table
add_tables (rows ∷ more) table = add_tables more (addhashtable rows table)

-- The tables are added at the first call alone; a second processor ends the assembly.
unfoldable pub v_processor : Tables → Bytes → Target → Run Target
unfolding find_processor add_tables
v_processor t str c = elim (find_processor t str) [
  | none ↦ exit processor_not_supported
  | some p ↦
      if not (c.processor == 0) && not (p.number == c.processor)
      then exit only_one_processor_supported
      else ok (record c {
        called = true;
        processor = p.number;
        msborder = p.msb_first;
        table = if c.called then c.table else add_tables p.added c.table;
      })
]
