-- ===== src/Instruction/Branch.antt =====
-- Relative branches in v_mnemonic of src/ops.c.
use dasm.Base.{
  ℕ, ◌+◌, ◌-◌, ◌%◌, ◌<◌, ◌≡◌, ◌≢◌, ◌⊎◌, refl, false, List, [], ◌∷◌, ◌++◌, Bytes, arith, length, ltb,
  if◌then◌else◌, Bool-cases, inl, inr,
}
use dasm.Errors.{branch_out_of_range}
use dasm.Instruction.{unknown}
use dasm.Instruction.Encode.{Build, branch, distance, out_of_range, low_byte}
use dasm.Run.{ok}
use dasm.State.{Symbol, Reason, has, again, report, pc_of, pc_flags, sf_unknown}
use dasm.Word.{word_size, sub}

-- The address that the processor adds up: the end of the instruction and the signed byte.
abbrev pub target : ℕ → ℕ → ℕ → ℕ
target pc len c = (pc + len + (if ltb c 128 then c else word_size - 256 + c)) % word_size

pub target-low_byte :
    (v pc len : ℕ)
    → v < word_size
    → pc < word_size
    → len < word_size
    → out_of_range (distance v pc len) ≡ false
    → target pc len (low_byte (distance v pc len)) ≡ v
unfolding out_of_range distance sub
target-low_byte v pc len a b c h = ground arith

pub target-in_range :
    (v pc len c : ℕ)
    → v < word_size
    → pc < word_size
    → len < word_size
    → c < 256
    → target pc len c ≡ v
    → out_of_range (distance v pc len) ≡ false
unfolding out_of_range distance sub
target-in_range v pc len c a b d e h = ground arith

abbrev with_byte : ℕ → Build → Build
with_byte c b = record b { bytes = b.bytes ++ c ∷ [] }

-- What branch leaves where no byte leads to the symbol.
abbrev pub missed : Build → Build
missed b =
    let g = b.globals in
    record (with_byte 0 b) {
      globals = again Reason.branch_out_of_range (report branch_out_of_range g);
    }

-- A relative instruction, for a known symbol and at a known program counter, ends with a byte from
-- which the processor computes the address of the symbol; or no byte would do, and then the error is
-- reported and another pass asked for.
pub branch-exact :
    (stale : Bytes) (s : Symbol) (r : List Symbol) (b : Build)
    → unknown s ≡ false
    → has (pc_flags b.globals.csegment) sf_unknown ≡ false
    → has (pc_flags b.globals.csegment) 2 ≡ false
    → s.value < word_size
    → pc_of b.globals.csegment < word_size
    → length b.bytes + 1 < word_size
    → ((c : ℕ) × (branch stale (s ∷ r) b ≡ ok (with_byte c b))
        × (target (pc_of b.globals.csegment) (length b.bytes + 1) c ≡ s.value))
      ⊎ ((branch stale (s ∷ r) b ≡ ok (missed b))
          × ((c : ℕ)
              → c < 256
              → target (pc_of b.globals.csegment) (length b.bytes + 1) c ≢ s.value))
unfolding branch
branch-exact stale s r b u f f' hv hp hl =
    let pc = pc_of b.globals.csegment in
    let len = length b.bytes + 1 in
    elim (Bool-cases (out_of_range (distance s.value pc len))) [
      | inr near ↦ inl (
        low_byte (distance s.value pc len),
        simp (u, f, f', near) refl,
        target-low_byte s.value pc len hv hp hl near,
      )
      | inl far ↦ inr (
        simp (u, f, f', far) refl,
        λ c h e. cc (far, target-in_range s.value pc len c hv hp hl h e),
      )
    ]
