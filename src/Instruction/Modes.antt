-- ===== src/Instruction/Modes.antt =====
-- The choice of the addressing mode in v_mnemonic of src/ops.c.
use dasm.Base.{
  ℕ, zero, suc, ◌+◌, ◌≡◌, ◌≢◌, refl, true, false, Option, none, some, arith, inl, inr, Bool-cases,
  Option-cases, leb, ◌==◌, ==_iff,
}
use dasm.Errors.{AsmError, illegal_addressing_mode, illegal_forced_addressing_mode}
use dasm.Instruction.{
  Mnemonic, Settings, not_resolved, Choice, chosen, rejected, indirect_word, force, forced_mode,
  legal_mode, badcode, widen, cvt_rounds,
}
use dasm.Modes.{numoc, cvt, cvt-ends}
use dasm.State.{Globals, report}

-- `mode'` is the first mode on the way from `mode` along Cvt that the mnemonic has, or the last one.
pub data Widens (mne : Mnemonic) : ℕ → ℕ → Type 0 where
  good : {mode : ℕ} → badcode mne mode ≡ false → Widens mne mode mode
  last : {mode : ℕ} → badcode mne mode ≡ true → cvt mode ≡ 0 → Widens mne mode mode
  on :
      {mode mode' : ℕ}
      → badcode mne mode ≡ true
      → cvt mode ≢ 0
      → Widens mne (cvt mode) mode'
      → Widens mne mode mode'

-- `n` steps along Cvt.
abbrev pub along : ℕ → ℕ → ℕ
along zero mode = mode
along (suc n) mode = along n (cvt mode)

cvt-zero : cvt 0 ≡ 0
unfolding cvt
cvt-zero = refl

stay : (mne : Mnemonic) (mode : ℕ) → cvt mode ≡ 0 → Widens mne mode mode
stay mne mode h = elim (Bool-cases (badcode mne mode)) [
  | inl bad ↦ last bad h
  | inr fine ↦ good fine
]

widen-along :
    (n : ℕ) (mne : Mnemonic) (mode : ℕ) → along n mode ≡ 0 → Widens mne mode (widen n mne mode)
unfolding widen
widen-along zero mne mode h = stay mne mode (rw h cvt-zero)
widen-along (suc n) mne mode h = elim (Bool-cases (cvt mode == 0)) [
  | inl z ↦
      let here = (==_iff (cvt mode) 0).0 z in
      rw (z, widen)
        (elim (Bool-cases (badcode mne mode)) [
          | inl bad ↦ rw bad (last bad here)
          | inr fine ↦ rw fine (good fine)
        ])
  | inr more ↦ elim (Bool-cases (badcode mne mode)) [
    | inl bad ↦ rw (bad, more, widen) (on bad (ground arith) (widen-along n mne (cvt mode) h))
    | inr fine ↦ rw (fine, widen) (good fine)
  ]
]

-- The loop along Cvt ends within its three rounds, at the first mode that the mnemonic has or, if
-- it has none of them, at the end of the way.
pub widen-Widens : (mne : Mnemonic) (mode : ℕ) → Widens mne mode (widen cvt_rounds mne mode)
widen-Widens mne mode = widen-along cvt_rounds mne mode (cvt-ends mode)

-- What the choice of a mode leaves.
pub data Legal (mne : Mnemonic) (g : Globals) : Choice → Type 0 where
  legal : {mode : ℕ} → badcode mne mode ≡ false → Legal mne g (chosen mode g)
  illegal : (g' : Globals) → g'.redo ≡ g.redo + 1 → Legal mne g (rejected g')

not_resolved-redo :
    (set : Settings) (e : AsmError) (g : Globals)
    → (not_resolved set (report e g)).redo ≡ g.redo + 1
not_resolved-redo set e g = ground arith

force-Legal :
    (set : Settings) (mne : Mnemonic) (asked mode : ℕ) (g : Globals) (mnext : Option ℕ)
    → badcode mne mode ≡ false
    → Legal mne g (force set mne asked mode g mnext)
unfolding force
force-Legal set mne asked mode g none h = legal h
force-Legal set mne asked mode g (some forced) h = elim (Bool-cases (leb numoc forced)) [
  | inl past ↦ rw past (legal h)
  | inr within ↦ elim (Option-cases (forced_mode asked forced)) [
    | inl refused ↦
        rw (within, refused, force)
          (illegal _ (not_resolved-redo set illegal_forced_addressing_mode g))
    | inr (m, allowed) ↦ elim (Bool-cases (badcode mne m)) [
      | inl bad ↦
          rw (within, allowed, bad, force)
            (illegal _ (not_resolved-redo set illegal_forced_addressing_mode g))
      | inr fine ↦ rw (within, allowed, fine, force) (legal fine)
    ]
  ]
]

-- The mode that is chosen is one that the mnemonic has, and the globals are as they were; where none
-- is chosen, another pass is asked for.
pub legal_mode-Legal :
    (set : Settings) (mne : Mnemonic) (asked : ℕ) (g : Globals)
    → Legal mne g (legal_mode set mne asked g)
unfolding legal_mode
legal_mode-Legal set mne asked g =
    let mode = indirect_word set mne (widen cvt_rounds mne asked) in
    elim (Bool-cases (badcode mne mode)) [
      | inl bad ↦ rw bad (illegal _ (not_resolved-redo set illegal_addressing_mode g))
      | inr fine ↦ rw fine (force-Legal set mne asked mode g set.mnext fine)
    ]
