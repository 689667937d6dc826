-- ===== src/State.antt =====
-- The structures of src/asm.h and the global variables of src/globals.c that the modelled parts
-- share. A pointer to a SYMBOL of the table is the symbol's name there.
use dasm.Base.{ℕ, ◌+◌, ◌%◌, ◌/◌, ◌-◌, Bool, Option, List, ◌∷◌, Bytes, ◌==◌, if◌then◌else◌}
use dasm.Errors.{AsmError}

-- Bits of SEGMENT.flags and SYMBOL.flags.
abbrev pub sf_unknown : ℕ
sf_unknown = 0x01

abbrev pub sf_ref : ℕ
sf_ref = 0x04

abbrev pub sf_bss : ℕ
sf_bss = 0x10

abbrev pub sf_rorg : ℕ
sf_rorg = 0x20

abbrev pub sym_unknown : ℕ
sym_unknown = 0x01

abbrev pub sym_ref : ℕ
sym_ref = 0x04

abbrev pub sym_string : ℕ
sym_string = 0x08

abbrev pub sym_set : ℕ
sym_set = 0x10

abbrev pub sym_macro : ℕ
sym_macro = 0x20

abbrev pub sym_masref : ℕ
sym_masref = 0x40

-- REASON_CODES
pub data Reason : Type 0 where
  mnemonic_not_resolved obscure dc_not_resolved dv_not_resolved_probably : Reason
  dv_not_resolved_could ds_not_resolved align_not_resolved : Reason
  align_relocatable_origin_not_known align_normal_origin_not_known equ_not_resolved : Reason
  equ_value_mismatch if_not_resolved repeat_not_resolved forward_reference phase_error : Reason
  branch_out_of_range include_failed incbin_not_resolved : Reason

pub record Segment : Type 0 where
  pub name : Bytes
  pub flags : ℕ
  pub rflags : ℕ
  pub org : ℕ
  pub rorg : ℕ
  pub initorg : ℕ
  pub initrorg : ℕ
  pub initflags : ℕ
  pub initrflags : ℕ

pub record Symbol : Type 0 where
  pub name : Bytes
  pub string : Option Bytes
  pub flags : ℕ
  pub addrmode : ℕ
  pub value : ℕ
  pub order : ℕ

-- `Redo_why` is the list of the reasons that were or-ed into it.
pub record Globals : Type 0 where
  pub shash : ℕ → List Symbol
  pub symbol_count : ℕ
  pub localindex : ℕ
  pub lastlocalindex : ℕ
  pub localdollarindex : ℕ
  pub lastlocaldollarindex : ℕ
  pub org : Symbol
  pub special : Symbol
  pub specchk : Symbol
  pub csegment : Segment
  pub checksum : ℕ
  pub redo : ℕ
  pub redo_eval : ℕ
  pub redo_why : List Reason
  pub redo_if : ℕ
  pub errors : List AsmError

-- `flags & (1 << k)`, where `bit` is 1 << k.
abbrev pub has : ℕ → ℕ → Bool
has flags bit = (flags / bit) % 2 == 1

-- flags | bit
abbrev pub with_bit : ℕ → ℕ → ℕ
with_bit flags bit = if has flags bit then flags else flags + bit

-- flags & ~bit
abbrev pub without_bit : ℕ → ℕ → ℕ
without_bit flags bit = if has flags bit then flags - bit else flags

-- ++Redo; Redo_why |= reason;
abbrev pub again : Reason → Globals → Globals
again why g = record g { redo = g.redo + 1; redo_why = why ∷ g.redo_why }

-- asmerr without bAbort
abbrev pub report : AsmError → Globals → Globals
report e g = record g { errors = e ∷ g.errors }

-- The program counter and its flags, relocated or not.
abbrev pub pc_of : Segment → ℕ
pc_of s = if has s.flags sf_rorg then s.rorg else s.org

abbrev pub pc_flags : Segment → ℕ
pc_flags s = if has s.flags sf_rorg then s.rflags else s.flags
