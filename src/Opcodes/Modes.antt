-- ===== src/Opcodes/Modes.antt =====
-- The opcodes by addressing mode in the table of src/main.c.
use dasm.Base.{
  ℕ, zero, suc, ◌+◌, ◌<◌, ◌≡◌, refl, sym, ◌∙◌, Bool, List, [], ◌∷◌, get_or, arith, if◌then◌else◌,
  Bool-cases, inl, inr,
}
use dasm.Instruction.{Mnemonic, badcode, opcode_at}
use dasm.Modes.{numoc}
use dasm.Opcodes.{expand, ok_mode, first_opcode, other_opcodes}

-- How many of the `k` modes from mode `i` on are in use.
unfoldable pub modes_from : (ℕ → Bool) → ℕ → ℕ → ℕ
modes_from in_use i zero = 0
modes_from in_use i (suc k) =
    let others = modes_from in_use (i + 1) k in if in_use i then suc others else others

get_or-first : (l : List ℕ) → get_or l 0 0 ≡ first_opcode l
unfolding first_opcode
get_or-first [] = refl
get_or-first (c ∷ s) = refl

get_or-others : (l : List ℕ) (k : ℕ) → get_or l (suc k) 0 ≡ get_or (other_opcodes l) k 0
unfolding other_opcodes
get_or-others [] k = refl
get_or-others (c ∷ s) k = refl

-- `mode` is the mode k places behind mode i.
expand-from :
    (n i k mode : ℕ) (in_use : ℕ → Bool) (listed : List ℕ)
    → mode ≡ i + k
    → k < n
    → get_or (expand n i in_use listed) k 0
      ≡ (if in_use mode then get_or listed (modes_from in_use i k) 0 else 0)
unfolding expand modes_from
expand-from zero i k mode in_use listed e h = absurd (omega arith)
expand-from (suc n) i zero mode in_use listed e h =
    let at : mode ≡ i = omega arith in
    elim (Bool-cases (in_use i)) [
      | inl used ↦ rw (at, used) (sym (get_or-first listed))
      | inr unused ↦ rw (at, unused) refl
    ]
expand-from (suc n) i (suc k) mode in_use listed e h = elim (Bool-cases (in_use i)) [
  | inl used ↦
      rw (used, get_or-others listed (modes_from in_use (i + 1) k))
        (expand-from n (i + 1) k mode in_use (other_opcodes listed) (omega arith) (omega arith))
  | inr unused ↦ rw unused (expand-from n (i + 1) k mode in_use listed (omega arith) (omega arith))
]

-- A row of the tables lists opcodes for its modes alone, in the order of the modes: in MHash each mode
-- that the mnemonic has holds the opcode that the row lists for it, after as many others as it has
-- modes below, and each other mode holds 0.
pub opcode_at-expand :
    (mne : Mnemonic) (mode : ℕ)
    → mode < numoc
    → opcode_at (record mne { opcode = expand numoc 0 (ok_mode mne.okmask) mne.opcode }) mode ≡ (
        if badcode mne mode
        then 0
        else get_or mne.opcode (modes_from (ok_mode mne.okmask) 0 mode) 0)
unfolding badcode
opcode_at-expand mne mode h =
    expand-from numoc 0 mode mode (ok_mode mne.okmask) mne.opcode (omega arith) h
    ∙ elim (Bool-cases (ok_mode mne.okmask mode)) [ inl e ↦ rw e refl | inr e ↦ rw e refl ]
