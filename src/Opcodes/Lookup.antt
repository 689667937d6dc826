-- ===== src/Opcodes/Lookup.antt =====
-- The lookup of mnemonics in the table of src/main.c.
use dasm.Base.{
  ◌≡◌, refl, some, Bytes, same_bytes, same_bytes_iff, ◌==◌, ==_refl, if◌then◌else◌, Bool-cases, inl,
  inr,
}
use dasm.Instruction.{Mnemonic}
use dasm.Modes.{numoc}
use dasm.Opcodes.{
  MnemonicTable, expand, ok_mode, add_mnemonic, mnemonic_name, find_in_chain, findmne,
}
use dasm.Symbols.{hash1}

-- After a row is added it is found, with its opcodes by addressing mode, under every spelling of its
-- name; under other names, what was found before.
pub findmne-add_mnemonic :
    (str : Bytes) (mne : Mnemonic) (table : MnemonicTable)
    → findmne str (add_mnemonic mne table) ≡ (
        if same_bytes (mnemonic_name str) mne.name
        then some (record mne { opcode = expand numoc 0 (ok_mode mne.okmask) mne.opcode })
        else findmne str table)
unfolding findmne add_mnemonic find_in_chain
findmne-add_mnemonic str mne table = elim (Bool-cases (same_bytes (mnemonic_name str) mne.name)) [
  | inl same ↦
      let name = (same_bytes_iff (mnemonic_name str) mne.name).0 same in
      rw (same, name, ==_refl) (rw ((same_bytes_iff mne.name mne.name).1 refl) refl)
  | inr other ↦ rw other (elim (Bool-cases (hash1 (mnemonic_name str) == hash1 mne.name)) [
    | inr e ↦ rw e refl
    | inl e ↦ rw (e, other) refl
  ])
]
