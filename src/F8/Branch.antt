-- ===== src/F8/Branch.antt =====
-- Branches of the F8, generate_branch of src/mnef8.c.
use dasm.Base.{ℕ, ◌<◌, ◌≡◌, ◌≢◌, ◌⊎◌, refl, true, some, [], ◌∷◌, arith, Bool-cases, inl, inr}
use dasm.Errors.{branch_out_of_range}
use dasm.F8.Handlers.{branch_code, emit_opcode, pc_known}
use dasm.Instruction.Branch.{target, target-low_byte, target-in_range}
use dasm.Instruction.Encode.{distance, out_of_range, low_byte}
use dasm.Origin.{on_globals}
use dasm.Output.{Output}
use dasm.State.{report, pc_of}
use dasm.Word.{word_size}

-- The processor adds the byte of a branch to the address of that byte. At a known program counter
-- generate_branch emits a byte that leads to the target; or no byte does, and the error is reported,
-- but no other pass is asked for.
pub branch_code-exact :
    (opcode v : ℕ) (out : Output)
    → pc_known out.globals ≡ true
    → v < word_size
    → pc_of out.globals.csegment < word_size
    → ((c : ℕ) × (branch_code opcode (some v) out ≡ emit_opcode (low_byte opcode ∷ c ∷ []) out)
        × (target (pc_of out.globals.csegment) 1 c ≡ v))
      ⊎ ((c : ℕ) × (branch_code opcode (some v) out
            ≡ emit_opcode (low_byte opcode ∷ c ∷ []) (on_globals (report branch_out_of_range) out))
          × ((b : ℕ) → b < 256 → target (pc_of out.globals.csegment) 1 b ≢ v))
unfolding branch_code
branch_code-exact opcode v out k hv hp =
    let pc = pc_of out.globals.csegment in
    elim (Bool-cases (out_of_range (distance v pc 1))) [
      | inr near ↦ inl (
        low_byte (distance v pc 1),
        simp (k, near) refl,
        target-low_byte v pc 1 hv hp (omega arith) near,
      )
      | inl far ↦ inr (
        low_byte (distance v pc 1),
        simp (k, far) refl,
        λ c h e. cc (far, target-in_range v pc 1 c hv hp (omega arith) h e),
      )
    ]
