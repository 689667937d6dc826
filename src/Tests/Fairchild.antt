-- ===== src/Tests/Fairchild.antt =====
-- The theorems on the F8 at concrete inputs.
use dasm.Base.{ℕ, ◌<◌, ◌≡◌, ◌≢◌, ◌⊎◌, refl, some, [], ◌∷◌, codes, arith}
use dasm.Errors.{branch_out_of_range}
use dasm.F8.{lr_opcode, reg_a}
use dasm.F8.Branch.{branch_code-exact}
use dasm.F8.Handlers.{branch_code, emit_opcode, split_operands}
use dasm.F8.Registers.{lr_opcode-injective}
use dasm.Instruction.{Mnemonic, by_wordop}
use dasm.Instruction.Branch.{target}
use dasm.Origin.{on_globals}
use dasm.State.{report}
use dasm.Tests.{output}

abbrev jmp : Mnemonic
jmp = record { name = codes "jmp"; vect = by_wordop; flags = 0; okmask = 1; opcode = 0x29 ∷ [] }

abbrev three : ℕ
three = 3

lr_opcode-injective_example : (reg_a ≡ reg_a) × (three ≡ three)
unfolding lr_opcode
lr_opcode-injective_example =
    lr_opcode-injective reg_a three reg_a three 0x43 (omega arith) (omega arith) (omega arith)
      (omega arith) refl refl

branch_code-exact_example :
    ((c : ℕ) × (branch_code 0x90 (some 0x1000) output ≡ emit_opcode (0x90 ∷ c ∷ []) output)
      × (target 0x1003 1 c ≡ 0x1000))
    ⊎ ((c : ℕ) × (branch_code 0x90 (some 0x1000) output
          ≡ emit_opcode (0x90 ∷ c ∷ []) (on_globals (report branch_out_of_range) output))
        × ((b : ℕ) → b < 256 → target 0x1003 1 b ≢ 0x1000))
branch_code-exact_example = branch_code-exact 0x90 0x1000 output refl (omega arith) (omega arith)

split_operands_test : split_operands (codes "a,3") ≡ some (codes "a", codes "3")
unfolding split_operands
split_operands_test = refl
