-- ===== src/Opcodes/Tables.antt =====
-- The tables of the opcodes and directives, src/mne*.c and Ops of src/globals.c.
pub mod Mos6502
pub mod Mos65c02
pub mod Motorola6803
pub mod Hitachi6303
pub mod Motorola68hc11
pub mod Motorola68705
pub mod Motorola68908
pub mod Fairchild
pub mod Directives
use dasm.Base.{ℕ, ◌^◌, List, Bytes}
use dasm.Instruction.{Mnemonic, Handler}
use dasm.Modes.{
  am_imp, am_imm8, am_imm16, am_byteadr, am_byteadrx, am_byteadry, am_wordadr, am_wordadrx,
  am_wordadry, am_rel, am_byterel, am_indbytex, am_indbytey, am_indword, am_indwordx, am_indbyte,
  am_0x, am_0y, am_bitmod, am_bitbramod, am_byteadr_sp, am_wordadr_sp,
}

-- A row of a table
abbrev pub row : Handler → Bytes → ℕ → ℕ → List ℕ → Mnemonic
row vect name flags okmask opcode = record {
  name = name;
  vect = vect;
  flags = flags;
  okmask = okmask;
  opcode = opcode;
}

-- MF_IF, MF_BEGM and MF_ENDM
abbrev pub mf_if : ℕ
mf_if = 0x04

abbrev pub mf_begm : ℕ
mf_begm = 0x02

abbrev pub mf_endm : ℕ
mf_endm = 0x80

-- The bit of each addressing mode
abbrev pub af_imp : ℕ
af_imp = 2 ^ am_imp

abbrev pub af_imm8 : ℕ
af_imm8 = 2 ^ am_imm8

abbrev pub af_imm16 : ℕ
af_imm16 = 2 ^ am_imm16

abbrev pub af_byteadr : ℕ
af_byteadr = 2 ^ am_byteadr

abbrev pub af_byteadrx : ℕ
af_byteadrx = 2 ^ am_byteadrx

abbrev pub af_byteadry : ℕ
af_byteadry = 2 ^ am_byteadry

abbrev pub af_wordadr : ℕ
af_wordadr = 2 ^ am_wordadr

abbrev pub af_wordadrx : ℕ
af_wordadrx = 2 ^ am_wordadrx

abbrev pub af_wordadry : ℕ
af_wordadry = 2 ^ am_wordadry

abbrev pub af_rel : ℕ
af_rel = 2 ^ am_rel

abbrev pub af_byterel : ℕ
af_byterel = 2 ^ am_byterel

abbrev pub af_indbytex : ℕ
af_indbytex = 2 ^ am_indbytex

abbrev pub af_indbytey : ℕ
af_indbytey = 2 ^ am_indbytey

abbrev pub af_indword : ℕ
af_indword = 2 ^ am_indword

abbrev pub af_indwordx : ℕ
af_indwordx = 2 ^ am_indwordx

abbrev pub af_indbyte : ℕ
af_indbyte = 2 ^ am_indbyte

abbrev pub af_0x : ℕ
af_0x = 2 ^ am_0x

abbrev pub af_0y : ℕ
af_0y = 2 ^ am_0y

abbrev pub af_bitmod : ℕ
af_bitmod = 2 ^ am_bitmod

abbrev pub af_bitbramod : ℕ
af_bitbramod = 2 ^ am_bitbramod

abbrev pub af_byteadr_sp : ℕ
af_byteadr_sp = 2 ^ am_byteadr_sp

abbrev pub af_wordadr_sp : ℕ
af_wordadr_sp = 2 ^ am_wordadr_sp
