-- ===== src/Opcodes/Tables/Motorola68hc11.antt =====
-- The table Mne68HC11 of src/mne6811.c.
use dasm.Base.{◌+◌, List, [], ◌∷◌, codes}
use dasm.Instruction.{Mnemonic, by_mnemonic, mf_mask, mf_rel}
use dasm.Opcodes.Tables.{
  row, af_imp, af_imm8, af_imm16, af_byteadr, af_byteadrx, af_byteadry, af_wordadr, af_rel,
}

abbrev pub mne68hc11 : List Mnemonic
mne68hc11 =
    row by_mnemonic (codes "aba") 0 (af_imp) (0x1B ∷ [])
    ∷ row by_mnemonic (codes "abx") 0 (af_imp) (0x3A ∷ [])
    ∷ row by_mnemonic (codes "aby") 0 (af_imp) (0x183A ∷ [])
    ∷ row by_mnemonic (codes "adca") 0
        (af_imm8 + af_byteadr + af_byteadrx + af_byteadry + af_wordadr)
        (0x89 ∷ 0x99 ∷ 0xA9 ∷ 0x18A9 ∷ 0xB9 ∷ [])
    ∷ row by_mnemonic (codes "adcb") 0
        (af_imm8 + af_byteadr + af_byteadrx + af_byteadry + af_wordadr)
        (0xC9 ∷ 0xD9 ∷ 0xE9 ∷ 0x18E9 ∷ 0xF9 ∷ [])
    ∷ row by_mnemonic (codes "adda") 0
        (af_imm8 + af_byteadr + af_byteadrx + af_byteadry + af_wordadr)
        (0x8B ∷ 0x9B ∷ 0xAB ∷ 0x18AB ∷ 0xBB ∷ [])
    ∷ row by_mnemonic (codes "addb") 0
        (af_imm8 + af_byteadr + af_byteadrx + af_byteadry + af_wordadr)
        (0xCB ∷ 0xDB ∷ 0xEB ∷ 0x18EB ∷ 0xFB ∷ [])
    ∷ row by_mnemonic (codes "addd") 0
        (af_imm16 + af_byteadr + af_byteadrx + af_byteadry + af_wordadr)
        (0xC3 ∷ 0xD3 ∷ 0xE3 ∷ 0x18E3 ∷ 0xF3 ∷ [])
    ∷ row by_mnemonic (codes "anda") 0
        (af_imm8 + af_byteadr + af_byteadrx + af_byteadry + af_wordadr)
        (0x84 ∷ 0x94 ∷ 0xA4 ∷ 0x18A4 ∷ 0xB4 ∷ [])
    ∷ row by_mnemonic (codes "andb") 0
        (af_imm8 + af_byteadr + af_byteadrx + af_byteadry + af_wordadr)
        (0xC4 ∷ 0xD4 ∷ 0xE4 ∷ 0x18E4 ∷ 0xF4 ∷ [])
    ∷ row by_mnemonic (codes "asla") 0 (af_imp) (0x48 ∷ [])
    ∷ row by_mnemonic (codes "aslb") 0 (af_imp) (0x58 ∷ [])
    ∷ row by_mnemonic (codes "asl") 0 (af_byteadrx + af_byteadry + af_wordadr)
        (0x68 ∷ 0x1868 ∷ 0x78 ∷ [])
    ∷ row by_mnemonic (codes "asld") 0 (af_imp) (0x05 ∷ [])
    ∷ row by_mnemonic (codes "asra") 0 (af_imp) (0x47 ∷ [])
    ∷ row by_mnemonic (codes "asrb") 0 (af_imp) (0x57 ∷ [])
    ∷ row by_mnemonic (codes "asr") 0 (af_byteadrx + af_byteadry + af_wordadr)
        (0x67 ∷ 0x1867 ∷ 0x77 ∷ [])
    ∷ row by_mnemonic (codes "bcc") 0 (af_rel) (0x24 ∷ [])
    ∷ row by_mnemonic (codes "bclr") (mf_mask) (af_byteadr + af_byteadrx + af_byteadry)
        (0x15 ∷ 0x1D ∷ 0x181D ∷ [])
    ∷ row by_mnemonic (codes "bcs") 0 (af_rel) (0x25 ∷ [])
    ∷ row by_mnemonic (codes "beq") 0 (af_rel) (0x27 ∷ [])
    ∷ row by_mnemonic (codes "bge") 0 (af_rel) (0x2C ∷ [])
    ∷ row by_mnemonic (codes "bgt") 0 (af_rel) (0x2E ∷ [])
    ∷ row by_mnemonic (codes "bhi") 0 (af_rel) (0x22 ∷ [])
    ∷ row by_mnemonic (codes "bhs") 0 (af_rel) (0x24 ∷ [])
    ∷ row by_mnemonic (codes "bita") 0
        (af_imm8 + af_byteadr + af_byteadrx + af_byteadry + af_wordadr)
        (0x85 ∷ 0x95 ∷ 0xA5 ∷ 0x18A5 ∷ 0xB5 ∷ [])
    ∷ row by_mnemonic (codes "bitb") 0
        (af_imm8 + af_byteadr + af_byteadrx + af_byteadry + af_wordadr)
        (0xC5 ∷ 0xD5 ∷ 0xE5 ∷ 0x18E5 ∷ 0xF5 ∷ [])
    ∷ row by_mnemonic (codes "ble") 0 (af_rel) (0x2F ∷ [])
    ∷ row by_mnemonic (codes "blo") 0 (af_rel) (0x25 ∷ [])
    ∷ row by_mnemonic (codes "bls") 0 (af_rel) (0x23 ∷ [])
    ∷ row by_mnemonic (codes "blt") 0 (af_rel) (0x2D ∷ [])
    ∷ row by_mnemonic (codes "bmi") 0 (af_rel) (0x2B ∷ [])
    ∷ row by_mnemonic (codes "bne") 0 (af_rel) (0x26 ∷ [])
    ∷ row by_mnemonic (codes "bpl") 0 (af_rel) (0x2A ∷ [])
    ∷ row by_mnemonic (codes "bra") 0 (af_rel) (0x20 ∷ [])
    ∷ row by_mnemonic (codes "brclr") (mf_mask + mf_rel) (af_byteadr + af_byteadrx + af_byteadry)
        (0x13 ∷ 0x1F ∷ 0x181F ∷ [])
    ∷ row by_mnemonic (codes "brn") 0 (af_rel) (0x21 ∷ [])
    ∷ row by_mnemonic (codes "brset") (mf_mask + mf_rel) (af_byteadr + af_byteadrx + af_byteadry)
        (0x12 ∷ 0x1E ∷ 0x181E ∷ [])
    ∷ row by_mnemonic (codes "bset") (mf_mask) (af_byteadr + af_byteadrx + af_byteadry)
        (0x14 ∷ 0x1C ∷ 0x181C ∷ [])
    ∷ row by_mnemonic (codes "bsr") 0 (af_rel) (0x8D ∷ [])
    ∷ row by_mnemonic (codes "bvc") 0 (af_rel) (0x28 ∷ [])
    ∷ row by_mnemonic (codes "bvs") 0 (af_rel) (0x29 ∷ [])
    ∷ row by_mnemonic (codes "cba") 0 (af_imp) (0x11 ∷ [])
    ∷ row by_mnemonic (codes "clc") 0 (af_imp) (0x0C ∷ [])
    ∷ row by_mnemonic (codes "cli") 0 (af_imp) (0x0E ∷ [])
    ∷ row by_mnemonic (codes "clra") 0 (af_imp) (0x4F ∷ [])
    ∷ row by_mnemonic (codes "clrb") 0 (af_imp) (0x5F ∷ [])
    ∷ row by_mnemonic (codes "clr") 0 (af_byteadrx + af_byteadry + af_wordadr)
        (0x6F ∷ 0x186F ∷ 0x7F ∷ [])
    ∷ row by_mnemonic (codes "clv") 0 (af_imp) (0x0A ∷ [])
    ∷ row by_mnemonic (codes "cmpa") 0
        (af_imm8 + af_byteadr + af_byteadrx + af_byteadry + af_wordadr)
        (0x81 ∷ 0x91 ∷ 0xA1 ∷ 0x18A1 ∷ 0xB1 ∷ [])
    ∷ row by_mnemonic (codes "cmpb") 0
        (af_imm8 + af_byteadr + af_byteadrx + af_byteadry + af_wordadr)
        (0xC1 ∷ 0xD1 ∷ 0xE1 ∷ 0x18E1 ∷ 0xF1 ∷ [])
    ∷ row by_mnemonic (codes "coma") 0 (af_imp) (0x43 ∷ [])
    ∷ row by_mnemonic (codes "comb") 0 (af_imp) (0x53 ∷ [])
    ∷ row by_mnemonic (codes "com") 0 (af_byteadrx + af_byteadry + af_wordadr)
        (0x63 ∷ 0x1863 ∷ 0x73 ∷ [])
    ∷ row by_mnemonic (codes "cpd") 0
        (af_imm16 + af_byteadr + af_byteadrx + af_byteadry + af_wordadr)
        (0x1A83 ∷ 0x1A93 ∷ 0x1AA3 ∷ 0xCDA3 ∷ 0x1AB3 ∷ [])
    ∷ row by_mnemonic (codes "cpx") 0
        (af_imm16 + af_byteadr + af_byteadrx + af_byteadry + af_wordadr)
        (0x8C ∷ 0x9C ∷ 0xAC ∷ 0xCDAC ∷ 0xBC ∷ [])
    ∷ row by_mnemonic (codes "cpy") 0
        (af_imm16 + af_byteadr + af_byteadrx + af_byteadry + af_wordadr)
        (0x188C ∷ 0x189C ∷ 0x1AAC ∷ 0x18AC ∷ 0x18BC ∷ [])
    ∷ row by_mnemonic (codes "daa") 0 (af_imp) (0x19 ∷ [])
    ∷ row by_mnemonic (codes "deca") 0 (af_imp) (0x4A ∷ [])
    ∷ row by_mnemonic (codes "decb") 0 (af_imp) (0x5A ∷ [])
    ∷ row by_mnemonic (codes "dec") 0 (af_byteadrx + af_byteadry + af_wordadr)
        (0x6A ∷ 0x186A ∷ 0x7A ∷ [])
    ∷ row by_mnemonic (codes "des") 0 (af_imp) (0x34 ∷ [])
    ∷ row by_mnemonic (codes "dex") 0 (af_imp) (0x09 ∷ [])
    ∷ row by_mnemonic (codes "dey") 0 (af_imp) (0x1809 ∷ [])
    ∷ row by_mnemonic (codes "eora") 0
        (af_imm8 + af_byteadr + af_byteadrx + af_byteadry + af_wordadr)
        (0x88 ∷ 0x98 ∷ 0xA8 ∷ 0x18A8 ∷ 0xB8 ∷ [])
    ∷ row by_mnemonic (codes "eorb") 0
        (af_imm8 + af_byteadr + af_byteadrx + af_byteadry + af_wordadr)
        (0xC8 ∷ 0xD8 ∷ 0xE8 ∷ 0x18E8 ∷ 0xF8 ∷ [])
    ∷ row by_mnemonic (codes "fdiv") 0 (af_imp) (0x03 ∷ [])
    ∷ row by_mnemonic (codes "idiv") 0 (af_imp) (0x02 ∷ [])
    ∷ row by_mnemonic (codes "inca") 0 (af_imp) (0x4C ∷ [])
    ∷ row by_mnemonic (codes "incb") 0 (af_imp) (0x5C ∷ [])
    ∷ row by_mnemonic (codes "inc") 0 (af_byteadrx + af_byteadry + af_wordadr)
        (0x6C ∷ 0x186C ∷ 0x7C ∷ [])
    ∷ row by_mnemonic (codes "ins") 0 (af_imp) (0x31 ∷ [])
    ∷ row by_mnemonic (codes "inx") 0 (af_imp) (0x08 ∷ [])
    ∷ row by_mnemonic (codes "iny") 0 (af_imp) (0x1808 ∷ [])
    ∷ row by_mnemonic (codes "jmp") 0 (af_byteadrx + af_byteadry + af_wordadr)
        (0x6E ∷ 0x186E ∷ 0x7E ∷ [])
    ∷ row by_mnemonic (codes "jsr") 0 (af_byteadr + af_byteadrx + af_byteadry + af_wordadr)
        (0x9D ∷ 0xAD ∷ 0x18AD ∷ 0xBD ∷ [])
    ∷ row by_mnemonic (codes "ldaa") 0
        (af_imm8 + af_byteadr + af_byteadrx + af_byteadry + af_wordadr)
        (0x86 ∷ 0x96 ∷ 0xA6 ∷ 0x18A6 ∷ 0xB6 ∷ [])
    ∷ row by_mnemonic (codes "ldab") 0
        (af_imm8 + af_byteadr + af_byteadrx + af_byteadry + af_wordadr)
        (0xC6 ∷ 0xD6 ∷ 0xE6 ∷ 0x18E6 ∷ 0xF6 ∷ [])
    ∷ row by_mnemonic (codes "ldd") 0
        (af_imm16 + af_byteadr + af_byteadrx + af_byteadry + af_wordadr)
        (0xCC ∷ 0xDC ∷ 0xEC ∷ 0x18EC ∷ 0xFC ∷ [])
    ∷ row by_mnemonic (codes "lds") 0
        (af_imm16 + af_byteadr + af_byteadrx + af_byteadry + af_wordadr)
        (0x8E ∷ 0x9E ∷ 0xAE ∷ 0x18AE ∷ 0xBE ∷ [])
    ∷ row by_mnemonic (codes "ldx") 0
        (af_imm16 + af_byteadr + af_byteadrx + af_byteadry + af_wordadr)
        (0xCE ∷ 0xDE ∷ 0xEE ∷ 0xCDEE ∷ 0xFE ∷ [])
    ∷ row by_mnemonic (codes "ldy") 0
        (af_imm16 + af_byteadr + af_byteadrx + af_byteadry + af_wordadr)
        (0x18CE ∷ 0x18DE ∷ 0x1AEE ∷ 0x18EE ∷ 0x18FE ∷ [])
    ∷ row by_mnemonic (codes "lsla") 0 (af_imp) (0x48 ∷ [])
    ∷ row by_mnemonic (codes "lslb") 0 (af_imp) (0x58 ∷ [])
    ∷ row by_mnemonic (codes "lsl") 0 (af_byteadrx + af_byteadry + af_wordadr)
        (0x68 ∷ 0x1868 ∷ 0x78 ∷ [])
    ∷ row by_mnemonic (codes "lsld") 0 (af_imp) (0x05 ∷ [])
    ∷ row by_mnemonic (codes "lsra") 0 (af_imp) (0x44 ∷ [])
    ∷ row by_mnemonic (codes "lsrb") 0 (af_imp) (0x54 ∷ [])
    ∷ row by_mnemonic (codes "lsr") 0 (af_byteadrx + af_byteadry + af_wordadr)
        (0x64 ∷ 0x1864 ∷ 0x74 ∷ [])
    ∷ row by_mnemonic (codes "lsrd") 0 (af_imp) (0x04 ∷ [])
    ∷ row by_mnemonic (codes "mul") 0 (af_imp) (0x3D ∷ [])
    ∷ row by_mnemonic (codes "nega") 0 (af_imp) (0x40 ∷ [])
    ∷ row by_mnemonic (codes "negb") 0 (af_imp) (0x50 ∷ [])
    ∷ row by_mnemonic (codes "neg") 0 (af_byteadrx + af_byteadry + af_wordadr)
        (0x60 ∷ 0x1860 ∷ 0x70 ∷ [])
    ∷ row by_mnemonic (codes "nop") 0 (af_imp) (0x01 ∷ [])
    ∷ row by_mnemonic (codes "oraa") 0
        (af_imm8 + af_byteadr + af_byteadrx + af_byteadry + af_wordadr)
        (0x8A ∷ 0x9A ∷ 0xAA ∷ 0x18AA ∷ 0xBA ∷ [])
    ∷ row by_mnemonic (codes "orab") 0
        (af_imm8 + af_byteadr + af_byteadrx + af_byteadry + af_wordadr)
        (0xCA ∷ 0xDA ∷ 0xEA ∷ 0x18EA ∷ 0xFA ∷ [])
    ∷ row by_mnemonic (codes "psha") 0 (af_imp) (0x36 ∷ [])
    ∷ row by_mnemonic (codes "pshb") 0 (af_imp) (0x37 ∷ [])
    ∷ row by_mnemonic (codes "pshx") 0 (af_imp) (0x3C ∷ [])
    ∷ row by_mnemonic (codes "pshy") 0 (af_imp) (0x183C ∷ [])
    ∷ row by_mnemonic (codes "pula") 0 (af_imp) (0x32 ∷ [])
    ∷ row by_mnemonic (codes "pulb") 0 (af_imp) (0x33 ∷ [])
    ∷ row by_mnemonic (codes "pulx") 0 (af_imp) (0x38 ∷ [])
    ∷ row by_mnemonic (codes "puly") 0 (af_imp) (0x1838 ∷ [])
    ∷ row by_mnemonic (codes "rola") 0 (af_imp) (0x49 ∷ [])
    ∷ row by_mnemonic (codes "rolb") 0 (af_imp) (0x59 ∷ [])
    ∷ row by_mnemonic (codes "rol") 0 (af_byteadrx + af_byteadry + af_wordadr)
        (0x69 ∷ 0x1869 ∷ 0x79 ∷ [])
    ∷ row by_mnemonic (codes "rora") 0 (af_imp) (0x46 ∷ [])
    ∷ row by_mnemonic (codes "rorb") 0 (af_imp) (0x56 ∷ [])
    ∷ row by_mnemonic (codes "ror") 0 (af_byteadrx + af_byteadry + af_wordadr)
        (0x66 ∷ 0x1866 ∷ 0x76 ∷ [])
    ∷ row by_mnemonic (codes "rti") 0 (af_imp) (0x3B ∷ [])
    ∷ row by_mnemonic (codes "rts") 0 (af_imp) (0x39 ∷ [])
    ∷ row by_mnemonic (codes "sba") 0 (af_imp) (0x10 ∷ [])
    ∷ row by_mnemonic (codes "sbca") 0
        (af_imm8 + af_byteadr + af_byteadrx + af_byteadry + af_wordadr)
        (0x82 ∷ 0x92 ∷ 0xA2 ∷ 0x18A2 ∷ 0xB2 ∷ [])
    ∷ row by_mnemonic (codes "sbcb") 0
        (af_imm8 + af_byteadr + af_byteadrx + af_byteadry + af_wordadr)
        (0xC2 ∷ 0xD2 ∷ 0xE2 ∷ 0x18E2 ∷ 0xF2 ∷ [])
    ∷ row by_mnemonic (codes "sec") 0 (af_imp) (0x0D ∷ [])
    ∷ row by_mnemonic (codes "sei") 0 (af_imp) (0x0F ∷ [])
    ∷ row by_mnemonic (codes "sev") 0 (af_imp) (0x0B ∷ [])
    ∷ row by_mnemonic (codes "staa") 0 (af_byteadr + af_byteadrx + af_byteadry + af_wordadr)
        (0x97 ∷ 0xA7 ∷ 0x18A7 ∷ 0xB7 ∷ [])
    ∷ row by_mnemonic (codes "stab") 0 (af_byteadr + af_byteadrx + af_byteadry + af_wordadr)
        (0xD7 ∷ 0xE7 ∷ 0x18E7 ∷ 0xF7 ∷ [])
    ∷ row by_mnemonic (codes "std") 0 (af_byteadr + af_byteadrx + af_byteadry + af_wordadr)
        (0xDD ∷ 0xED ∷ 0x18ED ∷ 0xFD ∷ [])
    ∷ row by_mnemonic (codes "stop") 0 (af_imp) (0xCF ∷ [])
    ∷ row by_mnemonic (codes "sts") 0 (af_byteadr + af_byteadrx + af_byteadry + af_wordadr)
        (0x9F ∷ 0xAF ∷ 0x18AF ∷ 0xBF ∷ [])
    ∷ row by_mnemonic (codes "stx") 0 (af_byteadr + af_byteadrx + af_byteadry + af_wordadr)
        (0xDF ∷ 0xEF ∷ 0xCDEF ∷ 0xFF ∷ [])
    ∷ row by_mnemonic (codes "sty") 0 (af_byteadr + af_byteadrx + af_byteadry + af_wordadr)
        (0x18DF ∷ 0x1AEF ∷ 0x18EF ∷ 0x18FF ∷ [])
    ∷ row by_mnemonic (codes "suba") 0
        (af_imm8 + af_byteadr + af_byteadrx + af_byteadry + af_wordadr)
        (0x80 ∷ 0x90 ∷ 0xA0 ∷ 0x18A0 ∷ 0xB0 ∷ [])
    ∷ row by_mnemonic (codes "subb") 0
        (af_imm8 + af_byteadr + af_byteadrx + af_byteadry + af_wordadr)
        (0xC0 ∷ 0xD0 ∷ 0xE0 ∷ 0x18E0 ∷ 0xF0 ∷ [])
    ∷ row by_mnemonic (codes "subd") 0
        (af_imm16 + af_byteadr + af_byteadrx + af_byteadry + af_wordadr)
        (0x83 ∷ 0x93 ∷ 0xA3 ∷ 0x18A3 ∷ 0xB3 ∷ [])
    ∷ row by_mnemonic (codes "swi") 0 (af_imp) (0x3F ∷ [])
    ∷ row by_mnemonic (codes "tab") 0 (af_imp) (0x16 ∷ [])
    ∷ row by_mnemonic (codes "tap") 0 (af_imp) (0x06 ∷ [])
    ∷ row by_mnemonic (codes "tba") 0 (af_imp) (0x17 ∷ [])
    ∷ row by_mnemonic (codes "test") 0 (af_imp) (0x00 ∷ [])
    ∷ row by_mnemonic (codes "tpa") 0 (af_imp) (0x07 ∷ [])
    ∷ row by_mnemonic (codes "tsta") 0 (af_imp) (0x4D ∷ [])
    ∷ row by_mnemonic (codes "tstb") 0 (af_imp) (0x5D ∷ [])
    ∷ row by_mnemonic (codes "tst") 0 (af_byteadrx + af_byteadry + af_wordadr)
        (0x6D ∷ 0x186D ∷ 0x7D ∷ [])
    ∷ row by_mnemonic (codes "tsx") 0 (af_imp) (0x30 ∷ [])
    ∷ row by_mnemonic (codes "tsy") 0 (af_imp) (0x1830 ∷ [])
    ∷ row by_mnemonic (codes "txs") 0 (af_imp) (0x35 ∷ [])
    ∷ row by_mnemonic (codes "tys") 0 (af_imp) (0x1835 ∷ [])
    ∷ row by_mnemonic (codes "wai") 0 (af_imp) (0x3E ∷ [])
    ∷ row by_mnemonic (codes "xgdx") 0 (af_imp) (0x8F ∷ [])
    ∷ row by_mnemonic (codes "xgdy") 0 (af_imp) (0x188F ∷ [])
    ∷ []
