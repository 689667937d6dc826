-- ===== src/Tests/Instructions.antt =====
-- The theorems on v_mnemonic at concrete inputs.
use dasm.Base.{ℕ, ◌+◌, ◌^◌, ◌<◌, ◌≡◌, ◌≢◌, ◌⊎◌, refl, false, none, [], ◌∷◌, codes, arith}
use dasm.Base.{get_or, if◌then◌else◌}
use dasm.Instruction.{
  badcode, opcode_at, Mnemonic, by_mnemonic, Settings, widen, cvt_rounds, fit, operand_size,
  legal_mode,
}
use dasm.Instruction.Encode.{Build, branch, encode}
use dasm.Instruction.Fit.{FitResult, fit-FitResult}
use dasm.Instruction.Modes.{Widens, Legal, widen-Widens, legal_mode-Legal}
use dasm.Instruction.Branch.{target, missed, branch-exact}
use dasm.Instruction.Layout.{IsOrdinary, Reads, encode-Reads}
use dasm.Opcodes.{expand, ok_mode, mnemonic_name}
use dasm.Opcodes.Modes.{modes_from, opcode_at-expand}
use dasm.Modes.{numoc, am_byteadr, am_wordadr}
use dasm.Run.{ok}
use dasm.Tests.{globals, known}

-- LDA at an absolute address and at one of the zero page
abbrev lda : Mnemonic
lda = record {
  name = codes "lda";
  vect = by_mnemonic;
  flags = 0;
  okmask = 2 ^ am_byteadr + 2 ^ am_wordadr;
  opcode = 0 ∷ 0 ∷ 0 ∷ 0xA5 ∷ 0 ∷ 0 ∷ 0xAD ∷ [];
}

abbrev settings : Settings
settings = record { processor = 6502; mnext = none; strict = false; verbose = false }

widen-Widens_example : Widens lda am_byteadr (widen cvt_rounds lda am_byteadr)
widen-Widens_example = widen-Widens lda am_byteadr

fit-FitResult_example :
    FitResult
      (known 0x1234)
      globals
      (fit cvt_rounds settings lda
        (operand_size (known 0x1234))
        am_byteadr
        (known 0x1234)
        globals).0
      (fit cvt_rounds settings lda
        (operand_size (known 0x1234))
        am_byteadr
        (known 0x1234)
        globals).1
fit-FitResult_example = fit-FitResult settings lda am_byteadr (known 0x1234) globals

legal_mode-Legal_example : Legal lda globals (legal_mode settings lda am_byteadr globals)
legal_mode-Legal_example = legal_mode-Legal settings lda am_byteadr globals

-- BNE behind its opcode
abbrev bne : Build
bne = record { bytes = 0xD0 ∷ []; args = known 0x1000 ∷ []; globals = globals }

branch-exact_example :
    ((c : ℕ) × (branch [] (known 0x1000 ∷ []) bne ≡ ok (record bne { bytes = 0xD0 ∷ c ∷ [] }))
      × (target 0x1003 2 c ≡ 0x1000))
    ⊎ ((branch [] (known 0x1000 ∷ []) bne ≡ ok (missed bne))
        × ((c : ℕ) → c < 256 → target 0x1003 2 c ≢ 0x1000))
branch-exact_example =
    branch-exact [] (known 0x1000) [] bne refl refl refl (omega arith) (omega arith) (omega arith)

word-IsOrdinary : IsOrdinary am_wordadr
word-IsOrdinary = record {
  not_bit = omega arith;
  not_bit_branch = omega arith;
  not_rel = omega arith;
  not_byte_rel = omega arith;
}

encode-Reads_example :
    (b : Build) × (encode false [] lda am_wordadr (known 0x1234 ∷ []) globals ≡ ok b)
    × Reads false lda am_wordadr 0x1234 b.bytes
encode-Reads_example =
    encode-Reads false [] lda am_wordadr (known 0x1234) [] globals refl refl word-IsOrdinary
      (omega arith)

-- LDA as the table of the 6502 has it: the opcodes of its two modes, in order.
abbrev lda_row : Mnemonic
lda_row = record lda { opcode = 0xA5 ∷ 0xAD ∷ [] }

opcode_at-expand_example :
    opcode_at
      (record lda_row { opcode = expand numoc 0 (ok_mode lda_row.okmask) lda_row.opcode })
      am_wordadr
    ≡ (if badcode lda_row am_wordadr
        then 0
        else get_or lda_row.opcode (modes_from (ok_mode lda_row.okmask) 0 am_wordadr) 0)
opcode_at-expand_example = opcode_at-expand lda_row am_wordadr (omega arith)

mnemonic_name_test : mnemonic_name (codes ".LDA") ≡ codes "lda"
unfolding mnemonic_name
mnemonic_name_test = refl
