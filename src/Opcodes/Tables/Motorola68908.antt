-- ===== src/Opcodes/Tables/Motorola68908.antt =====
-- The table Mne68908 of src/mne68908.c.
use dasm.Base.{◌+◌, List, [], ◌∷◌, codes}
use dasm.Instruction.{Mnemonic, by_mnemonic, mf_imod, mf_mask, mf_rel}
use dasm.Opcodes.Tables.{
  row, af_imp, af_imm8, af_imm16, af_byteadr, af_byteadrx, af_wordadr, af_wordadrx, af_rel,
  af_indbytex, af_0x, af_bitmod, af_bitbramod, af_byteadr_sp, af_wordadr_sp,
}

abbrev pub mne68908 : List Mnemonic
mne68908 =
    row by_mnemonic (codes "adc") 0
      (af_imm8 + af_byteadr + af_byteadrx + af_wordadr + af_wordadrx + af_0x + af_byteadr_sp
        + af_wordadr_sp)
      (0xA9 ∷ 0xB9 ∷ 0xE9 ∷ 0xC9 ∷ 0xD9 ∷ 0xF9 ∷ 0x9EE9 ∷ 0x9ED9 ∷ [])
    ∷ row by_mnemonic (codes "add") 0
        (af_imm8 + af_byteadr + af_byteadrx + af_wordadr + af_wordadrx + af_0x + af_byteadr_sp
          + af_wordadr_sp)
        (0xAB ∷ 0xBB ∷ 0xEB ∷ 0xCB ∷ 0xDB ∷ 0xFB ∷ 0x9EEB ∷ 0x9EDB ∷ [])
    ∷ row by_mnemonic (codes "ais") 0 (af_imm8) (0xA7 ∷ [])
    ∷ row by_mnemonic (codes "aix") 0 (af_imm8) (0xAF ∷ [])
    ∷ row by_mnemonic (codes "and") 0
        (af_imm8 + af_byteadr + af_byteadrx + af_wordadr + af_wordadrx + af_0x + af_byteadr_sp
          + af_wordadr_sp)
        (0xA4 ∷ 0xB4 ∷ 0xE4 ∷ 0xC4 ∷ 0xD4 ∷ 0xF4 ∷ 0x9EE4 ∷ 0x9ED4 ∷ [])
    ∷ row by_mnemonic (codes "asl") 0 (af_byteadr + af_byteadrx + af_0x + af_byteadr_sp)
        (0x38 ∷ 0x68 ∷ 0x78 ∷ 0x9E68 ∷ [])
    ∷ row by_mnemonic (codes "asla") 0 (af_imp) (0x48 ∷ [])
    ∷ row by_mnemonic (codes "aslx") 0 (af_imp) (0x58 ∷ [])
    ∷ row by_mnemonic (codes "asr") 0 (af_byteadr + af_byteadrx + af_0x + af_byteadr_sp)
        (0x37 ∷ 0x67 ∷ 0x77 ∷ 0x9E67 ∷ [])
    ∷ row by_mnemonic (codes "asra") 0 (af_imp) (0x47 ∷ [])
    ∷ row by_mnemonic (codes "asrx") 0 (af_imp) (0x57 ∷ [])
    ∷ row by_mnemonic (codes "bcc") 0 (af_rel) (0x24 ∷ [])
    ∷ row by_mnemonic (codes "bclr") (mf_imod) (af_bitmod) (0x11 ∷ [])
    ∷ row by_mnemonic (codes "bcs") 0 (af_rel) (0x25 ∷ [])
    ∷ row by_mnemonic (codes "beq") 0 (af_rel) (0x27 ∷ [])
    ∷ row by_mnemonic (codes "bge") 0 (af_rel) (0x90 ∷ [])
    ∷ row by_mnemonic (codes "bgt") 0 (af_rel) (0x92 ∷ [])
    ∷ row by_mnemonic (codes "bhcc") 0 (af_rel) (0x28 ∷ [])
    ∷ row by_mnemonic (codes "bhcs") 0 (af_rel) (0x29 ∷ [])
    ∷ row by_mnemonic (codes "bhi") 0 (af_rel) (0x22 ∷ [])
    ∷ row by_mnemonic (codes "bhs") 0 (af_rel) (0x24 ∷ [])
    ∷ row by_mnemonic (codes "bih") 0 (af_rel) (0x2F ∷ [])
    ∷ row by_mnemonic (codes "bil") 0 (af_rel) (0x2E ∷ [])
    ∷ row by_mnemonic (codes "bit") 0
        (af_imm8 + af_byteadr + af_byteadrx + af_wordadr + af_wordadrx + af_0x + af_byteadr_sp
          + af_wordadr_sp)
        (0xA5 ∷ 0xB5 ∷ 0xE5 ∷ 0xC5 ∷ 0xD5 ∷ 0xF5 ∷ 0x9EE5 ∷ 0x9ED5 ∷ [])
    ∷ row by_mnemonic (codes "ble") 0 (af_rel) (0x93 ∷ [])
    ∷ row by_mnemonic (codes "blo") 0 (af_rel) (0x25 ∷ [])
    ∷ row by_mnemonic (codes "bls") 0 (af_rel) (0x23 ∷ [])
    ∷ row by_mnemonic (codes "blt") 0 (af_rel) (0x91 ∷ [])
    ∷ row by_mnemonic (codes "bmc") 0 (af_rel) (0x2C ∷ [])
    ∷ row by_mnemonic (codes "bmi") 0 (af_rel) (0x2B ∷ [])
    ∷ row by_mnemonic (codes "bms") 0 (af_rel) (0x2D ∷ [])
    ∷ row by_mnemonic (codes "bne") 0 (af_rel) (0x26 ∷ [])
    ∷ row by_mnemonic (codes "bpl") 0 (af_rel) (0x2A ∷ [])
    ∷ row by_mnemonic (codes "bra") 0 (af_rel) (0x20 ∷ [])
    ∷ row by_mnemonic (codes "brclr") (mf_imod + mf_rel) (af_bitbramod) (0x01 ∷ [])
    ∷ row by_mnemonic (codes "brn") 0 (af_rel) (0x21 ∷ [])
    ∷ row by_mnemonic (codes "brset") (mf_imod + mf_rel) (af_bitbramod) (0x00 ∷ [])
    ∷ row by_mnemonic (codes "bset") (mf_imod) (af_bitmod) (0x10 ∷ [])
    ∷ row by_mnemonic (codes "bsr") 0 (af_rel) (0xAD ∷ [])
    ∷ row by_mnemonic (codes "cbeqa") (mf_mask) (af_rel) (0x41 ∷ [])
    ∷ row by_mnemonic (codes "cbeq") (mf_rel) (af_byteadr + af_indbytex + af_0x + af_byteadr_sp)
        (0x31 ∷ 0x61 ∷ 0x71 ∷ 0x9E61 ∷ [])
    ∷ row by_mnemonic (codes "cbeqx") (mf_mask) (af_rel) (0x51 ∷ [])
    ∷ row by_mnemonic (codes "clc") 0 (af_imp) (0x98 ∷ [])
    ∷ row by_mnemonic (codes "cli") 0 (af_imp) (0x9A ∷ [])
    ∷ row by_mnemonic (codes "clr") 0 (af_byteadr + af_byteadrx + af_0x + af_byteadr_sp)
        (0x3F ∷ 0x6F ∷ 0x7F ∷ 0x9E6F ∷ [])
    ∷ row by_mnemonic (codes "clra") 0 (af_imp) (0x4F ∷ [])
    ∷ row by_mnemonic (codes "clrh") 0 (af_imp) (0x8C ∷ [])
    ∷ row by_mnemonic (codes "clrx") 0 (af_imp) (0x5F ∷ [])
    ∷ row by_mnemonic (codes "cmp") 0
        (af_imm8 + af_byteadr + af_byteadrx + af_wordadr + af_wordadrx + af_0x + af_byteadr_sp
          + af_wordadr_sp)
        (0xA1 ∷ 0xB1 ∷ 0xE1 ∷ 0xC1 ∷ 0xD1 ∷ 0xF1 ∷ 0x9EE1 ∷ 0x9ED1 ∷ [])
    ∷ row by_mnemonic (codes "com") 0 (af_byteadr + af_byteadrx + af_0x + af_byteadr_sp)
        (0x33 ∷ 0x63 ∷ 0x73 ∷ 0x9E63 ∷ [])
    ∷ row by_mnemonic (codes "coma") 0 (af_imp) (0x43 ∷ [])
    ∷ row by_mnemonic (codes "comx") 0 (af_imp) (0x53 ∷ [])
    ∷ row by_mnemonic (codes "cphx") 0 (af_imm16 + af_byteadr) (0x65 ∷ 0x75 ∷ [])
    ∷ row by_mnemonic (codes "cpx") 0
        (af_imm8 + af_byteadr + af_byteadrx + af_wordadr + af_wordadrx + af_0x + af_byteadr_sp
          + af_wordadr_sp)
        (0xA3 ∷ 0xB3 ∷ 0xE3 ∷ 0xC3 ∷ 0xD3 ∷ 0xF3 ∷ 0x9EE3 ∷ 0x9ED3 ∷ [])
    ∷ row by_mnemonic (codes "daa") 0 (af_imp) (0x72 ∷ [])
    ∷ row by_mnemonic (codes "dbnz") (mf_rel) (af_byteadr + af_byteadrx + af_0x + af_byteadr_sp)
        (0x3B ∷ 0x6B ∷ 0x7B ∷ 0x9E6B ∷ [])
    ∷ row by_mnemonic (codes "dbnza") 0 (af_rel) (0x4B ∷ [])
    ∷ row by_mnemonic (codes "dbnzx") 0 (af_rel) (0x5B ∷ [])
    ∷ row by_mnemonic (codes "dec") 0 (af_byteadr + af_byteadrx + af_0x + af_byteadr_sp)
        (0x3A ∷ 0x6A ∷ 0x7A ∷ 0x9E6A ∷ [])
    ∷ row by_mnemonic (codes "deca") 0 (af_imp) (0x4A ∷ [])
    ∷ row by_mnemonic (codes "decx") 0 (af_imp) (0x5A ∷ [])
    ∷ row by_mnemonic (codes "div") 0 (af_imp) (0x52 ∷ [])
    ∷ row by_mnemonic (codes "eor") 0
        (af_imm8 + af_byteadr + af_byteadrx + af_wordadr + af_wordadrx + af_0x + af_byteadr_sp
          + af_wordadr_sp)
        (0xA8 ∷ 0xB8 ∷ 0xE8 ∷ 0xC8 ∷ 0xD8 ∷ 0xF8 ∷ 0x9EE8 ∷ 0x9ED8 ∷ [])
    ∷ row by_mnemonic (codes "inc") 0 (af_byteadr + af_byteadrx + af_0x + af_byteadr_sp)
        (0x3C ∷ 0x6C ∷ 0x7C ∷ 0x9E6C ∷ [])
    ∷ row by_mnemonic (codes "inca") 0 (af_imp) (0x4C ∷ [])
    ∷ row by_mnemonic (codes "incx") 0 (af_imp) (0x5C ∷ [])
    ∷ row by_mnemonic (codes "jmp") 0 (af_byteadr + af_byteadrx + af_wordadr + af_wordadrx + af_0x)
        (0xBC ∷ 0xEC ∷ 0xCC ∷ 0xDC ∷ 0xFC ∷ [])
    ∷ row by_mnemonic (codes "jsr") 0 (af_byteadr + af_byteadrx + af_wordadr + af_wordadrx + af_0x)
        (0xBD ∷ 0xED ∷ 0xCD ∷ 0xDD ∷ 0xFD ∷ [])
    ∷ row by_mnemonic (codes "lda") 0
        (af_imm8 + af_byteadr + af_byteadrx + af_wordadr + af_wordadrx + af_0x + af_byteadr_sp
          + af_wordadr_sp)
        (0xA6 ∷ 0xB6 ∷ 0xE6 ∷ 0xC6 ∷ 0xD6 ∷ 0xF6 ∷ 0x9EE6 ∷ 0x9ED6 ∷ [])
    ∷ row by_mnemonic (codes "ldhx") 0 (af_imm16 + af_byteadr) (0x45 ∷ 0x55 ∷ [])
    ∷ row by_mnemonic (codes "ldx") 0
        (af_imm8 + af_byteadr + af_byteadrx + af_wordadr + af_wordadrx + af_0x + af_byteadr_sp
          + af_wordadr_sp)
        (0xAE ∷ 0xBE ∷ 0xEE ∷ 0xCE ∷ 0xDE ∷ 0xFE ∷ 0x9EEE ∷ 0x9EDE ∷ [])
    ∷ row by_mnemonic (codes "lsl") 0 (af_byteadr + af_byteadrx + af_0x + af_byteadr_sp)
        (0x38 ∷ 0x68 ∷ 0x78 ∷ 0x9E68 ∷ [])
    ∷ row by_mnemonic (codes "lsla") 0 (af_imp) (0x48 ∷ [])
    ∷ row by_mnemonic (codes "lslx") 0 (af_imp) (0x58 ∷ [])
    ∷ row by_mnemonic (codes "lsr") 0 (af_byteadr + af_byteadrx + af_0x + af_byteadr_sp)
        (0x34 ∷ 0x64 ∷ 0x74 ∷ 0x9E64 ∷ [])
    ∷ row by_mnemonic (codes "lsra") 0 (af_imp) (0x44 ∷ [])
    ∷ row by_mnemonic (codes "lsrx") 0 (af_imp) (0x54 ∷ [])
    ∷ row by_mnemonic (codes "mov") (mf_mask) (af_imm8 + af_byteadr) (0x6E ∷ 0x4E ∷ [])
    ∷ row by_mnemonic (codes "movp") 0 (af_byteadrx) (0x5E ∷ [])
    ∷ row by_mnemonic (codes "xmov") 0 (af_byteadr) (0x7E ∷ [])
    ∷ row by_mnemonic (codes "mul") 0 (af_imp) (0x42 ∷ [])
    ∷ row by_mnemonic (codes "neg") 0 (af_byteadr + af_byteadrx + af_0x + af_byteadr_sp)
        (0x30 ∷ 0x60 ∷ 0x70 ∷ 0x9E60 ∷ [])
    ∷ row by_mnemonic (codes "nega") 0 (af_imp) (0x40 ∷ [])
    ∷ row by_mnemonic (codes "negx") 0 (af_imp) (0x50 ∷ [])
    ∷ row by_mnemonic (codes "nsa") 0 (af_imp) (0x62 ∷ [])
    ∷ row by_mnemonic (codes "nop") 0 (af_imp) (0x9D ∷ [])
    ∷ row by_mnemonic (codes "ora") 0
        (af_imm8 + af_byteadr + af_byteadrx + af_wordadr + af_wordadrx + af_0x + af_byteadr_sp
          + af_wordadr_sp)
        (0xAA ∷ 0xBA ∷ 0xEA ∷ 0xCA ∷ 0xDA ∷ 0xFA ∷ 0x9EEA ∷ 0x9EDA ∷ [])
    ∷ row by_mnemonic (codes "psha") 0 (af_imp) (0x87 ∷ [])
    ∷ row by_mnemonic (codes "pshh") 0 (af_imp) (0x8B ∷ [])
    ∷ row by_mnemonic (codes "pshx") 0 (af_imp) (0x89 ∷ [])
    ∷ row by_mnemonic (codes "pula") 0 (af_imp) (0x86 ∷ [])
    ∷ row by_mnemonic (codes "pulh") 0 (af_imp) (0x8A ∷ [])
    ∷ row by_mnemonic (codes "pulx") 0 (af_imp) (0x88 ∷ [])
    ∷ row by_mnemonic (codes "rol") 0 (af_byteadr + af_byteadrx + af_0x + af_byteadr_sp)
        (0x39 ∷ 0x69 ∷ 0x79 ∷ 0x9E69 ∷ [])
    ∷ row by_mnemonic (codes "rola") 0 (af_imp) (0x49 ∷ [])
    ∷ row by_mnemonic (codes "rolx") 0 (af_imp) (0x59 ∷ [])
    ∷ row by_mnemonic (codes "ror") 0 (af_byteadr + af_byteadrx + af_0x + af_byteadr_sp)
        (0x36 ∷ 0x66 ∷ 0x76 ∷ 0x9E66 ∷ [])
    ∷ row by_mnemonic (codes "rora") 0 (af_imp) (0x46 ∷ [])
    ∷ row by_mnemonic (codes "rorx") 0 (af_imp) (0x56 ∷ [])
    ∷ row by_mnemonic (codes "rsp") 0 (af_imp) (0x9C ∷ [])
    ∷ row by_mnemonic (codes "rti") 0 (af_imp) (0x80 ∷ [])
    ∷ row by_mnemonic (codes "rts") 0 (af_imp) (0x81 ∷ [])
    ∷ row by_mnemonic (codes "sbc") 0
        (af_imm8 + af_byteadr + af_byteadrx + af_wordadr + af_wordadrx + af_0x + af_byteadr_sp
          + af_wordadr_sp)
        (0xA2 ∷ 0xB2 ∷ 0xE2 ∷ 0xC2 ∷ 0xD2 ∷ 0xF2 ∷ 0x9EE2 ∷ 0x9ED2 ∷ [])
    ∷ row by_mnemonic (codes "sec") 0 (af_imp) (0x99 ∷ [])
    ∷ row by_mnemonic (codes "sei") 0 (af_imp) (0x9B ∷ [])
    ∷ row by_mnemonic (codes "sta") 0
        (af_byteadr + af_byteadrx + af_wordadr + af_wordadrx + af_0x + af_byteadr_sp
          + af_wordadr_sp)
        (0xB7 ∷ 0xE7 ∷ 0xC7 ∷ 0xD7 ∷ 0xF7 ∷ 0x9EE7 ∷ 0x9ED7 ∷ [])
    ∷ row by_mnemonic (codes "sthx") 0 (af_byteadr) (0x35 ∷ [])
    ∷ row by_mnemonic (codes "stop") 0 (af_imp) (0x8E ∷ [])
    ∷ row by_mnemonic (codes "stx") 0
        (af_byteadr + af_byteadrx + af_wordadr + af_wordadrx + af_0x + af_byteadr_sp
          + af_wordadr_sp)
        (0xBF ∷ 0xEF ∷ 0xCF ∷ 0xDF ∷ 0xFF ∷ 0x9EEF ∷ 0x9EDF ∷ [])
    ∷ row by_mnemonic (codes "sub") 0
        (af_imm8 + af_byteadr + af_byteadrx + af_wordadr + af_wordadrx + af_0x + af_byteadr_sp
          + af_wordadr_sp)
        (0xA0 ∷ 0xB0 ∷ 0xE0 ∷ 0xC0 ∷ 0xD0 ∷ 0xF0 ∷ 0x9EE0 ∷ 0x9ED0 ∷ [])
    ∷ row by_mnemonic (codes "swi") 0 (af_imp) (0x83 ∷ [])
    ∷ row by_mnemonic (codes "tap") 0 (af_imp) (0x84 ∷ [])
    ∷ row by_mnemonic (codes "tax") 0 (af_imp) (0x97 ∷ [])
    ∷ row by_mnemonic (codes "thxs") 0 (af_imp) (0x94 ∷ [])
    ∷ row by_mnemonic (codes "tpa") 0 (af_imp) (0x85 ∷ [])
    ∷ row by_mnemonic (codes "tshx") 0 (af_imp) (0x95 ∷ [])
    ∷ row by_mnemonic (codes "tst") 0 (af_byteadr + af_byteadrx + af_0x + af_byteadr_sp)
        (0x3D ∷ 0x6D ∷ 0x7D ∷ 0x9E6D ∷ [])
    ∷ row by_mnemonic (codes "tsta") 0 (af_imp) (0x4D ∷ [])
    ∷ row by_mnemonic (codes "tstx") 0 (af_imp) (0x5D ∷ [])
    ∷ row by_mnemonic (codes "txa") 0 (af_imp) (0x9F ∷ [])
    ∷ row by_mnemonic (codes "wait") 0 (af_imp) (0x8F ∷ [])
    ∷ []
