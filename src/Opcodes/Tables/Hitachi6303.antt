-- ===== src/Opcodes/Tables/Hitachi6303.antt =====
-- The table MneHD6303 of src/mne6303.c.
use dasm.Base.{◌+◌, List, [], ◌∷◌, codes}
use dasm.Instruction.{Mnemonic, by_mnemonic}
use dasm.Opcodes.Tables.{row, af_imp, af_byteadr, af_byteadrx}

abbrev pub mne_hd6303 : List Mnemonic
mne_hd6303 =
    row by_mnemonic (codes "slp") 0 (af_imp) (0x1A ∷ [])
    ∷ row by_mnemonic (codes "xgdx") 0 (af_imp) (0x18 ∷ [])
    ∷ row by_mnemonic (codes "aim") 0 (af_byteadr + af_byteadrx) (0x71 ∷ 0x61 ∷ [])
    ∷ row by_mnemonic (codes "oim") 0 (af_byteadr + af_byteadrx) (0x72 ∷ 0x62 ∷ [])
    ∷ row by_mnemonic (codes "eim") 0 (af_byteadr + af_byteadrx) (0x75 ∷ 0x65 ∷ [])
    ∷ row by_mnemonic (codes "tim") 0 (af_byteadr + af_byteadrx) (0x7B ∷ 0x6B ∷ [])
    ∷ []
