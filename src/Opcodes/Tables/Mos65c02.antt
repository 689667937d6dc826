-- ===== src/Opcodes/Tables/Mos65c02.antt =====
-- The table Mne65c02 of src/mne65c02.c.
use dasm.Base.{◌+◌, List, [], ◌∷◌, codes}
use dasm.Instruction.{Mnemonic, by_mnemonic}
use dasm.Opcodes.Tables.{
  row, af_imp, af_imm8, af_byteadr, af_byteadrx, af_byteadry, af_wordadr, af_wordadrx, af_wordadry,
  af_rel, af_byterel, af_indbytex, af_indbytey, af_indword, af_indwordx, af_indbyte,
}

abbrev pub mne65c02 : List Mnemonic
mne65c02 =
    row by_mnemonic (codes "adc") 0
      (af_imm8 + af_byteadr + af_byteadrx + af_wordadr + af_wordadrx + af_wordadry + af_indbytex
        + af_indbytey + af_indbyte)
      (0x69 ∷ 0x65 ∷ 0x75 ∷ 0x6D ∷ 0x7D ∷ 0x79 ∷ 0x61 ∷ 0x71 ∷ 0x72 ∷ [])
    ∷ row by_mnemonic (codes "and") 0
        (af_imm8 + af_byteadr + af_byteadrx + af_wordadr + af_wordadrx + af_wordadry + af_indbytex
          + af_indbytey + af_indbyte)
        (0x29 ∷ 0x25 ∷ 0x35 ∷ 0x2D ∷ 0x3D ∷ 0x39 ∷ 0x21 ∷ 0x31 ∷ 0x32 ∷ [])
    ∷ row by_mnemonic (codes "asl") 0 (af_imp + af_byteadr + af_byteadrx + af_wordadr + af_wordadrx)
        (0x0A ∷ 0x06 ∷ 0x16 ∷ 0x0E ∷ 0x1E ∷ [])
    ∷ row by_mnemonic (codes "bbr0") 0 (af_byterel) (0x0F ∷ [])
    ∷ row by_mnemonic (codes "bbr1") 0 (af_byterel) (0x1F ∷ [])
    ∷ row by_mnemonic (codes "bbr2") 0 (af_byterel) (0x2F ∷ [])
    ∷ row by_mnemonic (codes "bbr3") 0 (af_byterel) (0x3F ∷ [])
    ∷ row by_mnemonic (codes "bbr4") 0 (af_byterel) (0x4F ∷ [])
    ∷ row by_mnemonic (codes "bbr5") 0 (af_byterel) (0x5F ∷ [])
    ∷ row by_mnemonic (codes "bbr6") 0 (af_byterel) (0x6F ∷ [])
    ∷ row by_mnemonic (codes "bbr7") 0 (af_byterel) (0x7F ∷ [])
    ∷ row by_mnemonic (codes "bbs0") 0 (af_byterel) (0x8F ∷ [])
    ∷ row by_mnemonic (codes "bbs1") 0 (af_byterel) (0x9F ∷ [])
    ∷ row by_mnemonic (codes "bbs2") 0 (af_byterel) (0xAF ∷ [])
    ∷ row by_mnemonic (codes "bbs3") 0 (af_byterel) (0xBF ∷ [])
    ∷ row by_mnemonic (codes "bbs4") 0 (af_byterel) (0xCF ∷ [])
    ∷ row by_mnemonic (codes "bbs5") 0 (af_byterel) (0xDF ∷ [])
    ∷ row by_mnemonic (codes "bbs6") 0 (af_byterel) (0xEF ∷ [])
    ∷ row by_mnemonic (codes "bbs7") 0 (af_byterel) (0xFF ∷ [])
    ∷ row by_mnemonic (codes "bcc") 0 (af_rel) (0x90 ∷ [])
    ∷ row by_mnemonic (codes "bcs") 0 (af_rel) (0xB0 ∷ [])
    ∷ row by_mnemonic (codes "beq") 0 (af_rel) (0xF0 ∷ [])
    ∷ row by_mnemonic (codes "bit") 0
        (af_imm8 + af_byteadr + af_byteadrx + af_wordadr + af_wordadrx)
        (0x89 ∷ 0x24 ∷ 0x34 ∷ 0x2C ∷ 0x3C ∷ [])
    ∷ row by_mnemonic (codes "bmi") 0 (af_rel) (0x30 ∷ [])
    ∷ row by_mnemonic (codes "bne") 0 (af_rel) (0xD0 ∷ [])
    ∷ row by_mnemonic (codes "bpl") 0 (af_rel) (0x10 ∷ [])
    ∷ row by_mnemonic (codes "bra") 0 (af_rel) (0x80 ∷ [])
    ∷ row by_mnemonic (codes "brk") 0 (af_imp) (0x00 ∷ [])
    ∷ row by_mnemonic (codes "bvc") 0 (af_rel) (0x50 ∷ [])
    ∷ row by_mnemonic (codes "bvs") 0 (af_rel) (0x70 ∷ [])
    ∷ row by_mnemonic (codes "clc") 0 (af_imp) (0x18 ∷ [])
    ∷ row by_mnemonic (codes "cld") 0 (af_imp) (0xD8 ∷ [])
    ∷ row by_mnemonic (codes "cli") 0 (af_imp) (0x58 ∷ [])
    ∷ row by_mnemonic (codes "clv") 0 (af_imp) (0xB8 ∷ [])
    ∷ row by_mnemonic (codes "cmp") 0
        (af_imm8 + af_byteadr + af_byteadrx + af_wordadr + af_wordadrx + af_wordadry + af_indbytex
          + af_indbytey + af_indbyte)
        (0xC9 ∷ 0xC5 ∷ 0xD5 ∷ 0xCD ∷ 0xDD ∷ 0xD9 ∷ 0xC1 ∷ 0xD1 ∷ 0xD2 ∷ [])
    ∷ row by_mnemonic (codes "cpx") 0 (af_imm8 + af_byteadr + af_wordadr) (0xE0 ∷ 0xE4 ∷ 0xEC ∷ [])
    ∷ row by_mnemonic (codes "cpy") 0 (af_imm8 + af_byteadr + af_wordadr) (0xC0 ∷ 0xC4 ∷ 0xCC ∷ [])
    ∷ row by_mnemonic (codes "dec") 0 (af_byteadr + af_byteadrx + af_wordadr + af_wordadrx)
        (0xC6 ∷ 0xD6 ∷ 0xCE ∷ 0xDE ∷ [])
    ∷ row by_mnemonic (codes "dea") 0 (af_imp) (0x3A ∷ [])
    ∷ row by_mnemonic (codes "dex") 0 (af_imp) (0xCA ∷ [])
    ∷ row by_mnemonic (codes "dey") 0 (af_imp) (0x88 ∷ [])
    ∷ row by_mnemonic (codes "eor") 0
        (af_imm8 + af_byteadr + af_byteadrx + af_wordadr + af_wordadrx + af_wordadry + af_indbytex
          + af_indbytey + af_indbyte)
        (0x49 ∷ 0x45 ∷ 0x55 ∷ 0x4D ∷ 0x5D ∷ 0x59 ∷ 0x41 ∷ 0x51 ∷ 0x52 ∷ [])
    ∷ row by_mnemonic (codes "ina") 0 (af_imp) (0x1A ∷ [])
    ∷ row by_mnemonic (codes "inc") 0 (af_byteadr + af_byteadrx + af_wordadr + af_wordadrx)
        (0xE6 ∷ 0xF6 ∷ 0xEE ∷ 0xFE ∷ [])
    ∷ row by_mnemonic (codes "inx") 0 (af_imp) (0xE8 ∷ [])
    ∷ row by_mnemonic (codes "iny") 0 (af_imp) (0xC8 ∷ [])
    ∷ row by_mnemonic (codes "jmp") 0
        (af_wordadr + af_indbytex + af_indword + af_indwordx + af_indbyte)
        (0x4C ∷ 0x42 ∷ 0x6C ∷ 0x7C ∷ 0x42 ∷ [])
    ∷ row by_mnemonic (codes "jsr") 0 (af_wordadr) (0x20 ∷ [])
    ∷ row by_mnemonic (codes "lda") 0
        (af_imm8 + af_byteadr + af_byteadrx + af_wordadr + af_wordadrx + af_wordadry + af_indbytex
          + af_indbytey + af_indbyte)
        (0xA9 ∷ 0xA5 ∷ 0xB5 ∷ 0xAD ∷ 0xBD ∷ 0xB9 ∷ 0xA1 ∷ 0xB1 ∷ 0xB2 ∷ [])
    ∷ row by_mnemonic (codes "ldx") 0
        (af_imm8 + af_byteadr + af_byteadry + af_wordadr + af_wordadry)
        (0xA2 ∷ 0xA6 ∷ 0xB6 ∷ 0xAE ∷ 0xBE ∷ [])
    ∷ row by_mnemonic (codes "ldy") 0
        (af_imm8 + af_byteadr + af_byteadrx + af_wordadr + af_wordadrx)
        (0xA0 ∷ 0xA4 ∷ 0xB4 ∷ 0xAC ∷ 0xBC ∷ [])
    ∷ row by_mnemonic (codes "lsr") 0 (af_imp + af_byteadr + af_byteadrx + af_wordadr + af_wordadrx)
        (0x4A ∷ 0x46 ∷ 0x56 ∷ 0x4E ∷ 0x5E ∷ [])
    ∷ row by_mnemonic (codes "nop") 0
        (af_imp + af_imm8 + af_byteadr + af_byteadrx + af_wordadr + af_wordadrx)
        (0xEA ∷ 0x80 ∷ 0x04 ∷ 0x14 ∷ 0x0C ∷ 0x1C ∷ [])
    ∷ row by_mnemonic (codes "ora") 0
        (af_imm8 + af_byteadr + af_byteadrx + af_wordadr + af_wordadrx + af_wordadry + af_indbytex
          + af_indbytey + af_indbyte)
        (0x09 ∷ 0x05 ∷ 0x15 ∷ 0x0D ∷ 0x1D ∷ 0x19 ∷ 0x01 ∷ 0x11 ∷ 0x12 ∷ [])
    ∷ row by_mnemonic (codes "pha") 0 (af_imp) (0x48 ∷ [])
    ∷ row by_mnemonic (codes "phx") 0 (af_imp) (0xDA ∷ [])
    ∷ row by_mnemonic (codes "phy") 0 (af_imp) (0x5A ∷ [])
    ∷ row by_mnemonic (codes "php") 0 (af_imp) (0x08 ∷ [])
    ∷ row by_mnemonic (codes "pla") 0 (af_imp) (0x68 ∷ [])
    ∷ row by_mnemonic (codes "plp") 0 (af_imp) (0x28 ∷ [])
    ∷ row by_mnemonic (codes "plx") 0 (af_imp) (0xFA ∷ [])
    ∷ row by_mnemonic (codes "ply") 0 (af_imp) (0x7A ∷ [])
    ∷ row by_mnemonic (codes "rmb0") 0 (af_byteadr) (0x07 ∷ [])
    ∷ row by_mnemonic (codes "rmb1") 0 (af_byteadr) (0x17 ∷ [])
    ∷ row by_mnemonic (codes "rmb2") 0 (af_byteadr) (0x27 ∷ [])
    ∷ row by_mnemonic (codes "rmb3") 0 (af_byteadr) (0x37 ∷ [])
    ∷ row by_mnemonic (codes "rmb4") 0 (af_byteadr) (0x47 ∷ [])
    ∷ row by_mnemonic (codes "rmb5") 0 (af_byteadr) (0x57 ∷ [])
    ∷ row by_mnemonic (codes "rmb6") 0 (af_byteadr) (0x67 ∷ [])
    ∷ row by_mnemonic (codes "rmb7") 0 (af_byteadr) (0x77 ∷ [])
    ∷ row by_mnemonic (codes "rol") 0 (af_imp + af_byteadr + af_byteadrx + af_wordadr + af_wordadrx)
        (0x2A ∷ 0x26 ∷ 0x36 ∷ 0x2E ∷ 0x3E ∷ [])
    ∷ row by_mnemonic (codes "ror") 0 (af_imp + af_byteadr + af_byteadrx + af_wordadr + af_wordadrx)
        (0x6A ∷ 0x66 ∷ 0x76 ∷ 0x6E ∷ 0x7E ∷ [])
    ∷ row by_mnemonic (codes "rti") 0 (af_imp) (0x40 ∷ [])
    ∷ row by_mnemonic (codes "rts") 0 (af_imp) (0x60 ∷ [])
    ∷ row by_mnemonic (codes "sbc") 0
        (af_imm8 + af_byteadr + af_byteadrx + af_wordadr + af_wordadrx + af_wordadry + af_indbytex
          + af_indbytey + af_indbyte)
        (0xE9 ∷ 0xE5 ∷ 0xF5 ∷ 0xED ∷ 0xFD ∷ 0xF9 ∷ 0xE1 ∷ 0xF1 ∷ 0xF2 ∷ [])
    ∷ row by_mnemonic (codes "sec") 0 (af_imp) (0x38 ∷ [])
    ∷ row by_mnemonic (codes "sed") 0 (af_imp) (0xF8 ∷ [])
    ∷ row by_mnemonic (codes "sei") 0 (af_imp) (0x78 ∷ [])
    ∷ row by_mnemonic (codes "smb0") 0 (af_byteadr) (0x87 ∷ [])
    ∷ row by_mnemonic (codes "smb1") 0 (af_byteadr) (0x97 ∷ [])
    ∷ row by_mnemonic (codes "smb2") 0 (af_byteadr) (0xA7 ∷ [])
    ∷ row by_mnemonic (codes "smb3") 0 (af_byteadr) (0xB7 ∷ [])
    ∷ row by_mnemonic (codes "smb4") 0 (af_byteadr) (0xC7 ∷ [])
    ∷ row by_mnemonic (codes "smb5") 0 (af_byteadr) (0xD7 ∷ [])
    ∷ row by_mnemonic (codes "smb6") 0 (af_byteadr) (0xE7 ∷ [])
    ∷ row by_mnemonic (codes "smb7") 0 (af_byteadr) (0xF7 ∷ [])
    ∷ row by_mnemonic (codes "sta") 0
        (af_byteadr + af_byteadrx + af_wordadr + af_wordadrx + af_wordadry + af_indbytex
          + af_indbytey + af_indbyte)
        (0x85 ∷ 0x95 ∷ 0x8D ∷ 0x9D ∷ 0x99 ∷ 0x81 ∷ 0x91 ∷ 0x92 ∷ [])
    ∷ row by_mnemonic (codes "stx") 0 (af_byteadr + af_byteadry + af_wordadr)
        (0x86 ∷ 0x96 ∷ 0x8E ∷ [])
    ∷ row by_mnemonic (codes "stp") 0 (af_imp) (0xDB ∷ [])
    ∷ row by_mnemonic (codes "sty") 0 (af_byteadr + af_byteadrx + af_wordadr)
        (0x84 ∷ 0x94 ∷ 0x8C ∷ [])
    ∷ row by_mnemonic (codes "stz") 0 (af_byteadr + af_byteadrx + af_wordadr + af_wordadrx)
        (0x64 ∷ 0x74 ∷ 0x9C ∷ 0x9E ∷ [])
    ∷ row by_mnemonic (codes "tax") 0 (af_imp) (0xAA ∷ [])
    ∷ row by_mnemonic (codes "tay") 0 (af_imp) (0xA8 ∷ [])
    ∷ row by_mnemonic (codes "trb") 0 (af_byteadr + af_wordadr) (0x14 ∷ 0x1C ∷ [])
    ∷ row by_mnemonic (codes "tsb") 0 (af_byteadr + af_wordadr) (0x04 ∷ 0x0C ∷ [])
    ∷ row by_mnemonic (codes "tsx") 0 (af_imp) (0xBA ∷ [])
    ∷ row by_mnemonic (codes "txa") 0 (af_imp) (0x8A ∷ [])
    ∷ row by_mnemonic (codes "txs") 0 (af_imp) (0x9A ∷ [])
    ∷ row by_mnemonic (codes "tya") 0 (af_imp) (0x98 ∷ [])
    ∷ row by_mnemonic (codes "wai") 0 (af_imp) (0xCB ∷ [])
    ∷ []
