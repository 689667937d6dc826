-- ===== src/Opcodes.antt =====
-- The table of the mnemonics: addhashtable and findmne of src/main.c. Its hash function is that of
-- the table of symbols.
pub mod Lookup
pub mod Modes
pub mod Tables
pub mod Rows
use dasm.Base.{
  ℕ, zero, suc, ◌+◌, ◌%◌, ◌^◌, Bool, true, false, ◌&&◌, Option, none, some, List, [], ◌∷◌, Bytes,
  map, ltb, leb, ◌==◌, if◌then◌else◌, same_bytes,
}
use dasm.Instruction.{Mnemonic}
use dasm.Modes.{numoc}
use dasm.State.{has}
use dasm.Symbols.{hash1}

-- MHash
abbrev pub MnemonicTable : Type 0
MnemonicTable = ℕ → List Mnemonic

first_opcode : List ℕ → ℕ
first_opcode [] = 0
first_opcode (c ∷ s) = c

other_opcodes : List ℕ → List ℕ
other_opcodes [] = []
other_opcodes (c ∷ s) = s

-- okmask & (1L << mode)
abbrev pub ok_mode : ℕ → ℕ → Bool
ok_mode okmask mode = has okmask (2 ^ mode)

-- The opcodes of `n` modes from mode `i` on, taken from the list for the modes that are in use.
unfoldable pub expand : ℕ → ℕ → (ℕ → Bool) → List ℕ → List ℕ
unfolding first_opcode other_opcodes
expand zero i in_use listed = []
expand (suc n) i in_use listed =
    let with_mode = expand n (i + 1) in_use (other_opcodes listed) in
    let without_mode = expand n (i + 1) in_use listed in
    if in_use i then first_opcode listed ∷ with_mode else 0 ∷ without_mode

-- A row of the tables of src/mne*.c in MHash: its opcodes by addressing mode, in front of its chain.
unfoldable pub add_mnemonic : Mnemonic → MnemonicTable → MnemonicTable
unfolding expand hash1
add_mnemonic mne table h =
    if h == hash1 mne.name
    then record mne { opcode = expand numoc 0 (ok_mode mne.okmask) mne.opcode } ∷ table h
    else table h

unfoldable pub addhashtable : List Mnemonic → MnemonicTable → MnemonicTable
unfolding add_mnemonic
addhashtable [] table = table
addhashtable (mne ∷ rows) table = addhashtable rows (add_mnemonic mne table)

-- `.OP` is OP, and capital letters are small ones.
unfoldable pub lower_case : ℕ → ℕ
lower_case c = if leb 65 c && leb c 90 then c + 32 else c

unfoldable pub mnemonic_name : Bytes → Bytes
unfolding lower_case
mnemonic_name [] = []
mnemonic_name (c ∷ s) = map lower_case (if c == b'.' then s else c ∷ s)

unfoldable pub find_in_chain : Bytes → List Mnemonic → Option Mnemonic
find_in_chain name [] = none
find_in_chain name (mne ∷ chain) =
    let rest = find_in_chain name chain in if same_bytes name mne.name then some mne else rest

unfoldable pub findmne : Bytes → MnemonicTable → Option Mnemonic
unfolding mnemonic_name find_in_chain hash1
findmne str table = let name = mnemonic_name str in find_in_chain name (table (hash1 name))
