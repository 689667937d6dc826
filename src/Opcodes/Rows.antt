-- ===== src/Opcodes/Rows.antt =====
-- The rows of the tables of src/mne*.c and src/globals.c, and what findmne of src/main.c finds of them.
use dasm.Base.{
  ℕ, zero, suc, ◌≡◌, refl, ap, ◌∙◌, Bool, true, false, not, ◌&&◌, ◌||◌, and_true, some, List, [],
  ◌∷◌, Bytes, length, ◌==◌, if◌then◌else◌, same_bytes, same_bytes_iff,
}
use mathlib.Core.List.{Memᴰ}
use mathlib.Core.List.Memᴰ.{head, tail}
use dasm.Instruction.{Mnemonic}
use dasm.Modes.{numoc}
use dasm.Opcodes.{
  MnemonicTable, expand, ok_mode, add_mnemonic, addhashtable, mnemonic_name, findmne,
}
use dasm.Opcodes.Lookup.{findmne-add_mnemonic}
use dasm.Opcodes.Tables.Mos6502.{mne6502}
use dasm.Opcodes.Tables.Mos65c02.{mne65c02}
use dasm.Opcodes.Tables.Motorola6803.{mne6803}
use dasm.Opcodes.Tables.Hitachi6303.{mne_hd6303}
use dasm.Opcodes.Tables.Motorola68hc11.{mne68hc11}
use dasm.Opcodes.Tables.Motorola68705.{mne68705}
use dasm.Opcodes.Tables.Motorola68908.{mne68908}
use dasm.Opcodes.Tables.Fairchild.{mne_f8}
use dasm.Opcodes.Tables.Directives.{ops}

-- The number of modes below `n` that a mask has.
count_modes : ℕ → ℕ → ℕ
count_modes zero okmask = 0
count_modes (suc n) okmask = let r = count_modes n okmask in if ok_mode okmask n then suc r else r

-- A row without a mask is for a function that does not look at it; the others have an opcode for
-- each mode.
unfoldable pub fits_mask : Mnemonic → Bool
unfolding count_modes
fits_mask mne = mne.okmask == 0 || length mne.opcode == count_modes numoc mne.okmask

-- findmne may look for the name as it stands.
unfoldable is_plain_name : Mnemonic → Bool
unfolding mnemonic_name same_bytes
is_plain_name mne = same_bytes (mnemonic_name mne.name) mne.name

-- No row has this name.
unfoldable is_absent : Bytes → List Mnemonic → Bool
unfolding same_bytes
is_absent name [] = true
is_absent name (mne ∷ rows) = not (same_bytes name mne.name) && is_absent name rows

unfoldable pub are_rows : List Mnemonic → Bool
unfolding fits_mask is_plain_name is_absent
are_rows [] = true
are_rows (mne ∷ rows) =
    fits_mask mne && is_plain_name mne && is_absent mne.name rows && are_rows rows

-- A row as it stands in the table.
abbrev pub expanded : Mnemonic → Mnemonic
expanded mne = record mne { opcode = expand numoc 0 (ok_mode mne.okmask) mne.opcode }

absent-found :
    (name : Bytes) (rows : List Mnemonic) (table : MnemonicTable)
    → mnemonic_name name ≡ name
    → is_absent name rows ≡ true
    → findmne name (addhashtable rows table) ≡ findmne name table
unfolding is_absent addhashtable
absent-found name [] table e h = refl
absent-found name (mne ∷ rows) table e h =
    let p = and_true (not (same_bytes name mne.name)) (is_absent name rows) h in
    absent-found name rows (add_mnemonic mne table) e p.1
    ∙ (findmne-add_mnemonic name mne table
        ∙ other (mnemonic_name name) e (not_true (same_bytes name mne.name) p.0))
  where
    not_true : (b : Bool) → not b ≡ true → b ≡ false
    not_true true h = cc
    not_true false h = refl

    other :
        (n : Bytes)
        → n ≡ name
        → same_bytes name mne.name ≡ false
        → (if same_bytes n mne.name then some (expanded mne) else findmne name table)
          ≡ findmne name table
    other n e k = rw (e, k) refl

-- A row of the tables as they are added to MHash, whatever is there already.
row-found :
    (rows : List Mnemonic) (mne : Mnemonic) (table : MnemonicTable)
    → are_rows rows ≡ true
    → Memᴰ mne rows
    → findmne mne.name (addhashtable rows table) ≡ some (expanded mne)
unfolding are_rows addhashtable is_plain_name
row-found [] mne table h x = elim x [ ]
row-found (m ∷ rows) mne table h (head same) =
    let p = and_true (fits_mask m && is_plain_name m && is_absent m.name rows) (are_rows rows) h in
    let q = and_true (fits_mask m && is_plain_name m) (is_absent m.name rows) p.0 in
    let e =
      (same_bytes_iff (mnemonic_name m.name) m.name).0
        (and_true (fits_mask m) (is_plain_name m) q.0).1 in
    rw (same) (
      absent-found m.name rows (add_mnemonic m table) e q.1
      ∙ (findmne-add_mnemonic m.name m table
          ∙ ap (λ (b : Bool). if b then some (expanded m) else findmne m.name table)
              ((same_bytes_iff (mnemonic_name m.name) m.name).1 e)))
row-found (m ∷ rows) mne table h (tail k) =
    row-found rows mne (add_mnemonic m table)
      (and_true (fits_mask m && is_plain_name m && is_absent m.name rows) (are_rows rows) h).1 k

row-fits :
    (rows : List Mnemonic) (mne : Mnemonic)
    → are_rows rows ≡ true
    → Memᴰ mne rows
    → fits_mask mne ≡ true
unfolding are_rows
row-fits [] mne h x = elim x [ ]
row-fits (m ∷ rows) mne h (head same) =
    let p = and_true (fits_mask m && is_plain_name m && is_absent m.name rows) (are_rows rows) h in
    let q = and_true (fits_mask m && is_plain_name m) (is_absent m.name rows) p.0 in
    ap fits_mask same ∙ (and_true (fits_mask m) (is_plain_name m) q.0).0
row-fits (m ∷ rows) mne h (tail k) =
    row-fits rows mne
      (and_true (fits_mask m && is_plain_name m && is_absent m.name rows) (are_rows rows) h).1 k

-- Mne6502 and the other tables of the processors, and Ops
abbrev pub all_tables : List (List Mnemonic)
all_tables =
    mne6502 ∷ mne65c02 ∷ mne6803 ∷ mne_hd6303 ∷ mne68hc11 ∷ mne68705 ∷ mne68908 ∷ mne_f8 ∷ ops ∷ []

all_rows : List (List Mnemonic) → Bool
unfolding are_rows
all_rows [] = true
all_rows (rows ∷ tables) = are_rows rows && all_rows tables

all_rows-Mem :
    (tables : List (List Mnemonic)) (rows : List Mnemonic)
    → all_rows tables ≡ true
    → Memᴰ rows tables
    → are_rows rows ≡ true
unfolding all_rows
all_rows-Mem [] rows h x = elim x [ ]
all_rows-Mem (t ∷ tables) rows h (head same) =
    ap are_rows same ∙ (and_true (are_rows t) (all_rows tables) h).0
all_rows-Mem (t ∷ tables) rows h (tail k) =
    all_rows-Mem tables rows (and_true (are_rows t) (all_rows tables) h).1 k

all_tables-all_rows : all_rows all_tables ≡ true
unfolding all_rows
all_tables-all_rows = refl

-- Each row of each table is found under its name when the table has been added to MHash, whatever
-- was there before: no row hides another one of its table. A row with addressing modes has as many
-- opcodes as its mask has modes.
pub tables-found :
    (rows : List Mnemonic) (mne : Mnemonic) (table : MnemonicTable)
    → Memᴰ rows all_tables
    → Memᴰ mne rows
    → (findmne mne.name (addhashtable rows table) ≡ some (expanded mne)) × (fits_mask mne ≡ true)
tables-found rows mne table t m =
    let h = all_rows-Mem all_tables rows all_tables-all_rows t in
    (row-found rows mne table h m, row-fits rows mne h m)
