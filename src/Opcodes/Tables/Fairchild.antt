-- ===== src/Opcodes/Tables/Fairchild.antt =====
-- The table MneF8 of src/mnef8.c.
use dasm.Base.{List, [], ◌∷◌, codes}
use dasm.Instruction.{
  Mnemonic, by_bf_bt, by_branch, by_byteop, by_dc, by_ds, by_ins_outs, by_lis, by_lisu_lisl, by_lr,
  by_mnemonic, by_sl_sr, by_sreg_op, by_wordop,
}
use dasm.Opcodes.Tables.{row, af_imp}

abbrev pub mne_f8 : List Mnemonic
mne_f8 =
    row by_ds (codes "res") 0 0 (0x00 ∷ [])
    ∷ row by_dc (codes "db") 0 0 (0x00 ∷ [])
    ∷ row by_dc (codes "dw") 0 0 (0x00 ∷ [])
    ∷ row by_dc (codes "dd") 0 0 (0x00 ∷ [])
    ∷ row by_mnemonic (codes "adc") 0 (af_imp) (0x8E ∷ [])
    ∷ row by_byteop (codes "ai") 0 (af_imp) (0x24 ∷ [])
    ∷ row by_mnemonic (codes "am") 0 (af_imp) (0x88 ∷ [])
    ∷ row by_mnemonic (codes "amd") 0 (af_imp) (0x89 ∷ [])
    ∷ row by_sreg_op (codes "as") 0 (af_imp) (0xC0 ∷ [])
    ∷ row by_sreg_op (codes "asd") 0 (af_imp) (0xD0 ∷ [])
    ∷ row by_branch (codes "bc") 0 (af_imp) (0x82 ∷ [])
    ∷ row by_bf_bt (codes "bf") 0 (af_imp) (0x90 ∷ [])
    ∷ row by_branch (codes "bm") 0 (af_imp) (0x91 ∷ [])
    ∷ row by_branch (codes "bnc") 0 (af_imp) (0x92 ∷ [])
    ∷ row by_branch (codes "bno") 0 (af_imp) (0x98 ∷ [])
    ∷ row by_branch (codes "bnz") 0 (af_imp) (0x94 ∷ [])
    ∷ row by_branch (codes "bp") 0 (af_imp) (0x81 ∷ [])
    ∷ row by_branch (codes "br") 0 (af_imp) (0x90 ∷ [])
    ∷ row by_branch (codes "br7") 0 (af_imp) (0x8F ∷ [])
    ∷ row by_bf_bt (codes "bt") 0 (af_imp) (0x80 ∷ [])
    ∷ row by_branch (codes "bz") 0 (af_imp) (0x84 ∷ [])
    ∷ row by_byteop (codes "ci") 0 (af_imp) (0x25 ∷ [])
    ∷ row by_mnemonic (codes "clr") 0 (af_imp) (0x70 ∷ [])
    ∷ row by_mnemonic (codes "cm") 0 (af_imp) (0x8D ∷ [])
    ∷ row by_mnemonic (codes "com") 0 (af_imp) (0x18 ∷ [])
    ∷ row by_wordop (codes "dci") 0 (af_imp) (0x2A ∷ [])
    ∷ row by_mnemonic (codes "di") 0 (af_imp) (0x1A ∷ [])
    ∷ row by_sreg_op (codes "ds") 0 (af_imp) (0x30 ∷ [])
    ∷ row by_mnemonic (codes "ei") 0 (af_imp) (0x1B ∷ [])
    ∷ row by_byteop (codes "in") 0 (af_imp) (0x26 ∷ [])
    ∷ row by_mnemonic (codes "inc") 0 (af_imp) (0x1F ∷ [])
    ∷ row by_ins_outs (codes "ins") 0 (af_imp) (0xA0 ∷ [])
    ∷ row by_wordop (codes "jmp") 0 (af_imp) (0x29 ∷ [])
    ∷ row by_byteop (codes "li") 0 (af_imp) (0x20 ∷ [])
    ∷ row by_lis (codes "lis") 0 0 (0x00 ∷ [])
    ∷ row by_lisu_lisl (codes "lisl") 0 (af_imp) (0x68 ∷ [])
    ∷ row by_lisu_lisl (codes "lisu") 0 (af_imp) (0x60 ∷ [])
    ∷ row by_mnemonic (codes "lm") 0 (af_imp) (0x16 ∷ [])
    ∷ row by_mnemonic (codes "lnk") 0 (af_imp) (0x19 ∷ [])
    ∷ row by_lr (codes "lr") 0 0 (0x00 ∷ [])
    ∷ row by_byteop (codes "ni") 0 (af_imp) (0x21 ∷ [])
    ∷ row by_mnemonic (codes "nm") 0 (af_imp) (0x8A ∷ [])
    ∷ row by_mnemonic (codes "nop") 0 (af_imp) (0x2B ∷ [])
    ∷ row by_sreg_op (codes "ns") 0 (af_imp) (0xF0 ∷ [])
    ∷ row by_byteop (codes "oi") 0 (af_imp) (0x22 ∷ [])
    ∷ row by_mnemonic (codes "om") 0 (af_imp) (0x8B ∷ [])
    ∷ row by_byteop (codes "out") 0 (af_imp) (0x27 ∷ [])
    ∷ row by_ins_outs (codes "outs") 0 (af_imp) (0xB0 ∷ [])
    ∷ row by_wordop (codes "pi") 0 (af_imp) (0x28 ∷ [])
    ∷ row by_mnemonic (codes "pk") 0 (af_imp) (0x0C ∷ [])
    ∷ row by_mnemonic (codes "pop") 0 (af_imp) (0x1C ∷ [])
    ∷ row by_sl_sr (codes "sl") 0 (af_imp) (0x13 ∷ [])
    ∷ row by_sl_sr (codes "sr") 0 (af_imp) (0x12 ∷ [])
    ∷ row by_mnemonic (codes "st") 0 (af_imp) (0x17 ∷ [])
    ∷ row by_mnemonic (codes "xdc") 0 (af_imp) (0x2C ∷ [])
    ∷ row by_byteop (codes "xi") 0 (af_imp) (0x23 ∷ [])
    ∷ row by_mnemonic (codes "xm") 0 (af_imp) (0x8C ∷ [])
    ∷ row by_sreg_op (codes "xs") 0 (af_imp) (0xE0 ∷ [])
    ∷ []
