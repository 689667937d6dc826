-- ===== src/Opcodes/Tables/Motorola68705.antt =====
-- The table Mne68705 of src/mne68705.c.
use dasm.Base.{◌+◌, List, [], ◌∷◌, codes}
use dasm.Instruction.{Mnemonic, by_mnemonic, mf_imod, mf_rel}
use dasm.Opcodes.Tables.{
  row, af_imp, af_imm8, af_byteadr, af_byteadrx, af_wordadr, af_wordadrx, af_rel, af_0x, af_bitmod,
  af_bitbramod,
}

abbrev pub mne68705 : List Mnemonic
mne68705 =
    row by_mnemonic (codes "adc") 0
      (af_imm8 + af_byteadr + af_byteadrx + af_wordadr + af_wordadrx + af_0x)
      (0xA9 ∷ 0xB9 ∷ 0xE9 ∷ 0xC9 ∷ 0xD9 ∷ 0xF9 ∷ [])
    ∷ row by_mnemonic (codes "add") 0
        (af_imm8 + af_byteadr + af_byteadrx + af_wordadr + af_wordadrx + af_0x)
        (0xAB ∷ 0xBB ∷ 0xEB ∷ 0xCB ∷ 0xDB ∷ 0xFB ∷ [])
    ∷ row by_mnemonic (codes "and") 0
        (af_imm8 + af_byteadr + af_byteadrx + af_wordadr + af_wordadrx + af_0x)
        (0xA4 ∷ 0xB4 ∷ 0xE4 ∷ 0xC4 ∷ 0xD4 ∷ 0xF4 ∷ [])
    ∷ row by_mnemonic (codes "asl") 0 (af_imp + af_byteadr + af_byteadrx + af_0x)
        (0x48 ∷ 0x38 ∷ 0x68 ∷ 0x78 ∷ [])
    ∷ row by_mnemonic (codes "asla") 0 (af_imp) (0x48 ∷ [])
    ∷ row by_mnemonic (codes "aslx") 0 (af_imp) (0x58 ∷ [])
    ∷ row by_mnemonic (codes "asr") 0 (af_imp + af_byteadr + af_byteadrx + af_0x)
        (0x47 ∷ 0x37 ∷ 0x67 ∷ 0x77 ∷ [])
    ∷ row by_mnemonic (codes "asra") 0 (af_imp) (0x47 ∷ [])
    ∷ row by_mnemonic (codes "asrx") 0 (af_imp) (0x57 ∷ [])
    ∷ row by_mnemonic (codes "bcc") 0 (af_rel) (0x24 ∷ [])
    ∷ row by_mnemonic (codes "bclr") (mf_imod) (af_bitmod) (0x11 ∷ [])
    ∷ row by_mnemonic (codes "bcs") 0 (af_rel) (0x25 ∷ [])
    ∷ row by_mnemonic (codes "beq") 0 (af_rel) (0x27 ∷ [])
    ∷ row by_mnemonic (codes "bhcc") 0 (af_rel) (0x28 ∷ [])
    ∷ row by_mnemonic (codes "bhcs") 0 (af_rel) (0x29 ∷ [])
    ∷ row by_mnemonic (codes "bhi") 0 (af_rel) (0x22 ∷ [])
    ∷ row by_mnemonic (codes "bhs") 0 (af_rel) (0x24 ∷ [])
    ∷ row by_mnemonic (codes "bih") 0 (af_rel) (0x2F ∷ [])
    ∷ row by_mnemonic (codes "bil") 0 (af_rel) (0x2E ∷ [])
    ∷ row by_mnemonic (codes "bit") 0
        (af_imm8 + af_byteadr + af_byteadrx + af_wordadr + af_wordadrx + af_0x)
        (0xA5 ∷ 0xB5 ∷ 0xE5 ∷ 0xC5 ∷ 0xD5 ∷ 0xF5 ∷ [])
    ∷ row by_mnemonic (codes "blo") 0 (af_rel) (0x25 ∷ [])
    ∷ row by_mnemonic (codes "bls") 0 (af_rel) (0x23 ∷ [])
    ∷ row by_mnemonic (codes "bmc") 0 (af_rel) (0x2C ∷ [])
    ∷ row by_mnemonic (codes "bmi") 0 (af_rel) (0x2B ∷ [])
    ∷ row by_mnemonic (codes "bms") 0 (af_rel) (0x2D ∷ [])
    ∷ row by_mnemonic (codes "bne") 0 (af_rel) (0x26 ∷ [])
    ∷ row by_mnemonic (codes "bpl") 0 (af_rel) (0x2A ∷ [])
    ∷ row by_mnemonic (codes "bra") 0 (af_rel) (0x20 ∷ [])
    ∷ row by_mnemonic (codes "brn") 0 (af_rel) (0x21 ∷ [])
    ∷ row by_mnemonic (codes "brclr") (mf_imod + mf_rel) (af_bitbramod) (0x01 ∷ [])
    ∷ row by_mnemonic (codes "brset") (mf_imod + mf_rel) (af_bitbramod) (0x00 ∷ [])
    ∷ row by_mnemonic (codes "bset") (mf_imod) (af_bitmod) (0x10 ∷ [])
    ∷ row by_mnemonic (codes "bsr") 0 (af_rel) (0xAD ∷ [])
    ∷ row by_mnemonic (codes "clc") 0 (af_imp) (0x98 ∷ [])
    ∷ row by_mnemonic (codes "cli") 0 (af_imp) (0x9A ∷ [])
    ∷ row by_mnemonic (codes "clr") 0 (af_imp + af_byteadr + af_byteadrx + af_0x)
        (0x4F ∷ 0x3F ∷ 0x6F ∷ 0x7F ∷ [])
    ∷ row by_mnemonic (codes "clra") 0 (af_imp) (0x4F ∷ [])
    ∷ row by_mnemonic (codes "clrx") 0 (af_imp) (0x5F ∷ [])
    ∷ row by_mnemonic (codes "cmp") 0
        (af_imm8 + af_byteadr + af_byteadrx + af_wordadr + af_wordadrx + af_0x)
        (0xA1 ∷ 0xB1 ∷ 0xE1 ∷ 0xC1 ∷ 0xD1 ∷ 0xF1 ∷ [])
    ∷ row by_mnemonic (codes "com") 0 (af_imp + af_byteadr + af_byteadrx + af_0x)
        (0x43 ∷ 0x33 ∷ 0x63 ∷ 0x73 ∷ [])
    ∷ row by_mnemonic (codes "coma") 0 (af_imp) (0x43 ∷ [])
    ∷ row by_mnemonic (codes "comx") 0 (af_imp) (0x53 ∷ [])
    ∷ row by_mnemonic (codes "cpx") 0
        (af_imm8 + af_byteadr + af_byteadrx + af_wordadr + af_wordadrx + af_0x)
        (0xA3 ∷ 0xB3 ∷ 0xE3 ∷ 0xC3 ∷ 0xD3 ∷ 0xF3 ∷ [])
    ∷ row by_mnemonic (codes "dec") 0 (af_imp + af_byteadr + af_byteadrx + af_0x)
        (0x4A ∷ 0x3A ∷ 0x6A ∷ 0x7A ∷ [])
    ∷ row by_mnemonic (codes "deca") 0 (af_imp) (0x4A ∷ [])
    ∷ row by_mnemonic (codes "decx") 0 (af_imp) (0x5A ∷ [])
    ∷ row by_mnemonic (codes "dex") 0 (af_imp) (0x5A ∷ [])
    ∷ row by_mnemonic (codes "eor") 0
        (af_imm8 + af_byteadr + af_byteadrx + af_wordadr + af_wordadrx + af_0x)
        (0xA8 ∷ 0xB8 ∷ 0xE8 ∷ 0xC8 ∷ 0xD8 ∷ 0xF8 ∷ [])
    ∷ row by_mnemonic (codes "inc") 0 (af_imp + af_byteadr + af_byteadrx + af_0x)
        (0x4C ∷ 0x3C ∷ 0x6C ∷ 0x7C ∷ [])
    ∷ row by_mnemonic (codes "inca") 0 (af_imp) (0x4C ∷ [])
    ∷ row by_mnemonic (codes "incx") 0 (af_imp) (0x5C ∷ [])
    ∷ row by_mnemonic (codes "inx") 0 (af_imp) (0x5C ∷ [])
    ∷ row by_mnemonic (codes "jmp") 0 (af_byteadr + af_byteadrx + af_wordadr + af_wordadrx + af_0x)
        (0xBC ∷ 0xEC ∷ 0xCC ∷ 0xDC ∷ 0xFC ∷ [])
    ∷ row by_mnemonic (codes "jsr") 0 (af_byteadr + af_byteadrx + af_wordadr + af_wordadrx + af_0x)
        (0xBD ∷ 0xED ∷ 0xCD ∷ 0xDD ∷ 0xFD ∷ [])
    ∷ row by_mnemonic (codes "lda") 0
        (af_imm8 + af_byteadr + af_byteadrx + af_wordadr + af_wordadrx + af_0x)
        (0xA6 ∷ 0xB6 ∷ 0xE6 ∷ 0xC6 ∷ 0xD6 ∷ 0xF6 ∷ [])
    ∷ row by_mnemonic (codes "ldx") 0
        (af_imm8 + af_byteadr + af_byteadrx + af_wordadr + af_wordadrx + af_0x)
        (0xAE ∷ 0xBE ∷ 0xEE ∷ 0xCE ∷ 0xDE ∷ 0xFE ∷ [])
    ∷ row by_mnemonic (codes "lsl") 0 (af_imp + af_byteadr + af_byteadrx + af_0x)
        (0x48 ∷ 0x38 ∷ 0x68 ∷ 0x78 ∷ [])
    ∷ row by_mnemonic (codes "lsla") 0 (af_imp) (0x48 ∷ [])
    ∷ row by_mnemonic (codes "lslx") 0 (af_imp) (0x58 ∷ [])
    ∷ row by_mnemonic (codes "lsr") 0 (af_imp + af_byteadr + af_byteadrx + af_0x)
        (0x44 ∷ 0x34 ∷ 0x64 ∷ 0x74 ∷ [])
    ∷ row by_mnemonic (codes "lsra") 0 (af_imp) (0x44 ∷ [])
    ∷ row by_mnemonic (codes "lsrx") 0 (af_imp) (0x54 ∷ [])
    ∷ row by_mnemonic (codes "neg") 0 (af_imp + af_byteadr + af_byteadrx + af_0x)
        (0x40 ∷ 0x30 ∷ 0x60 ∷ 0x70 ∷ [])
    ∷ row by_mnemonic (codes "nega") 0 (af_imp) (0x40 ∷ [])
    ∷ row by_mnemonic (codes "negx") 0 (af_imp) (0x50 ∷ [])
    ∷ row by_mnemonic (codes "nop") 0 (af_imp) (0x9D ∷ [])
    ∷ row by_mnemonic (codes "ora") 0
        (af_imm8 + af_byteadr + af_byteadrx + af_wordadr + af_wordadrx + af_0x)
        (0xAA ∷ 0xBA ∷ 0xEA ∷ 0xCA ∷ 0xDA ∷ 0xFA ∷ [])
    ∷ row by_mnemonic (codes "rol") 0 (af_imp + af_byteadr + af_byteadrx + af_0x)
        (0x49 ∷ 0x39 ∷ 0x69 ∷ 0x79 ∷ [])
    ∷ row by_mnemonic (codes "rola") 0 (af_imp) (0x49 ∷ [])
    ∷ row by_mnemonic (codes "rolx") 0 (af_imp) (0x59 ∷ [])
    ∷ row by_mnemonic (codes "ror") 0 (af_imp + af_byteadr + af_byteadrx + af_0x)
        (0x46 ∷ 0x36 ∷ 0x66 ∷ 0x76 ∷ [])
    ∷ row by_mnemonic (codes "rora") 0 (af_imp) (0x46 ∷ [])
    ∷ row by_mnemonic (codes "rorx") 0 (af_imp) (0x56 ∷ [])
    ∷ row by_mnemonic (codes "rsp") 0 (af_imp) (0x9C ∷ [])
    ∷ row by_mnemonic (codes "rti") 0 (af_imp) (0x80 ∷ [])
    ∷ row by_mnemonic (codes "rts") 0 (af_imp) (0x81 ∷ [])
    ∷ row by_mnemonic (codes "sbc") 0
        (af_imm8 + af_byteadr + af_byteadrx + af_wordadr + af_wordadrx + af_0x)
        (0xA2 ∷ 0xB2 ∷ 0xE2 ∷ 0xC2 ∷ 0xD2 ∷ 0xF2 ∷ [])
    ∷ row by_mnemonic (codes "sec") 0 (af_imp) (0x99 ∷ [])
    ∷ row by_mnemonic (codes "sei") 0 (af_imp) (0x9B ∷ [])
    ∷ row by_mnemonic (codes "sta") 0 (af_byteadr + af_byteadrx + af_wordadr + af_wordadrx + af_0x)
        (0xB7 ∷ 0xE7 ∷ 0xC7 ∷ 0xD7 ∷ 0xF7 ∷ [])
    ∷ row by_mnemonic (codes "stx") 0 (af_byteadr + af_byteadrx + af_wordadr + af_wordadrx + af_0x)
        (0xBF ∷ 0xEF ∷ 0xCF ∷ 0xDF ∷ 0xFF ∷ [])
    ∷ row by_mnemonic (codes "sub") 0
        (af_imm8 + af_byteadr + af_byteadrx + af_wordadr + af_wordadrx + af_0x)
        (0xA0 ∷ 0xB0 ∷ 0xE0 ∷ 0xC0 ∷ 0xD0 ∷ 0xF0 ∷ [])
    ∷ row by_mnemonic (codes "swi") 0 (af_imp) (0x83 ∷ [])
    ∷ row by_mnemonic (codes "tax") 0 (af_imp) (0x97 ∷ [])
    ∷ row by_mnemonic (codes "tst") 0 (af_imp + af_byteadr + af_byteadrx + af_0x)
        (0x4D ∷ 0x3D ∷ 0x6D ∷ 0x7D ∷ [])
    ∷ row by_mnemonic (codes "tsta") 0 (af_imp) (0x4D ∷ [])
    ∷ row by_mnemonic (codes "tstx") 0 (af_imp) (0x5D ∷ [])
    ∷ row by_mnemonic (codes "txa") 0 (af_imp) (0x9F ∷ [])
    ∷ []
