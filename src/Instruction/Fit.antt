-- ===== src/Instruction/Fit.antt =====
-- The loop of v_mnemonic of src/ops.c that makes room for the operand.
use dasm.Base.{
  ℕ, zero, suc, ◌≤◌, ◌<◌, ◌≡◌, ◌≢◌, refl, true, false, ◌&&◌, ◌||◌, some, arith, ◌⊎◌, inl, inr,
  Bool-cases, Option-cases, and_true, ltb→lt, ltb, ◌==◌, ==_iff,
}
use dasm.Errors.{address_must_be_lt_100}
use dasm.Instruction.{
  Mnemonic, Settings, badcode, cvt_rounds, fit, stop_widening, word_for_byte, operand_size, unknown,
}
use dasm.Word.{is_negative}
use dasm.Modes.{
  am_imm8, am_wordadrx, am_wordadry, am_wordadr_sp, cvt, opsize_of, cvt-ends, opsize-le,
}
use dasm.State.{Globals, Symbol, report}
use dasm.Instruction.Modes.{along}

-- A value that an operand of `size` bytes takes: 0 needs none, a negative value passes for one byte,
-- and two bytes take whatever the value is.
pub data Takes (v size : ℕ) : Type 0 where
  nothing : v ≡ 0 → Takes v size
  one_byte : v < 0x100 → 0 < size → Takes v size
  negative : is_negative v ≡ true → 0 < size → Takes v size
  two_bytes : size ≡ 2 → Takes v size

-- What the loop that makes room for the operand may leave.
pub data FitResult (s : Symbol) (g : Globals) (mode : ℕ) (g' : Globals) : Type 0 where
  fits : Takes s.value (opsize_of mode) → g' ≡ g → FitResult s g mode g'
  not_known : unknown s ≡ true → g' ≡ g → FitResult s g mode g'
  reported :
      unknown s ≡ false
      → ¬ Takes s.value (opsize_of mode)
      → g' ≡ report address_must_be_lt_100 g
      → FitResult s g mode g'

operand_size-le : (s : Symbol) → operand_size s ≤ 2
unfolding operand_size
operand_size-le s = ground arith

operand_size-negative :
    (s : Symbol) → unknown s ≡ false → is_negative s.value ≡ true → operand_size s ≡ 1
unfolding operand_size
operand_size-negative s u n = ground arith

operand_size-byte : (s : Symbol) → unknown s ≡ false → s.value < 0x100 → operand_size s ≤ 1
unfolding operand_size
operand_size-byte s u n = ground arith

operand_size-nothing : (s : Symbol) → unknown s ≡ false → s.value ≡ 0 → operand_size s ≡ 0
unfolding operand_size
operand_size-nothing s u n = ground arith

-- A size of 0 or 1 is one of the cases where fewer than two bytes are enough.
operand_size-cases :
    (s : Symbol)
    → (operand_size s ≡ 2)
      ⊎ (s.value ≡ 0)
      ⊎ ((operand_size s ≡ 1) × ((s.value < 0x100) ⊎ (is_negative s.value ≡ true)))
unfolding operand_size
operand_size-cases s = ground arith

operand_size-Takes :
    (s : Symbol) (mode : ℕ) → operand_size s ≤ opsize_of mode → Takes s.value (opsize_of mode)
operand_size-Takes s mode h = elim (operand_size-cases s) [
  | inl two ↦ two_bytes (omega (arith, two, h, opsize-le mode))
  | inr (inl zero_value) ↦ nothing zero_value
  | inr (inr (one, inl small)) ↦ one_byte small (omega (arith, one, h))
  | inr (inr (one, inr neg)) ↦ negative neg (omega (arith, one, h))
]

not-Takes :
    (s : Symbol) (size : ℕ) → unknown s ≡ false → size < operand_size s → ¬ Takes s.value size
not-Takes s size u h (nothing z) = omega (arith, h, operand_size-nothing s u z)
not-Takes s size u h (one_byte small pos) = omega (arith, h, pos, operand_size-byte s u small)
not-Takes s size u h (negative neg pos) = omega (arith, h, pos, operand_size-negative s u neg)
not-Takes s size u h (two_bytes two) = omega (arith, h, two, operand_size-le s)

opsize-imm8 : opsize_of am_imm8 ≡ 1
unfolding opsize_of
opsize-imm8 = refl

abbrev IsWord : ℕ → Type 0
IsWord m = (m ≡ am_wordadrx) ⊎ (m ≡ am_wordadry) ⊎ (m ≡ am_wordadr_sp)

opsize-IsWord : (m : ℕ) → IsWord m → opsize_of m ≡ 2
unfolding opsize_of
opsize-IsWord m (inl h) = rw h refl
opsize-IsWord m (inr (inl h)) = rw h refl
opsize-IsWord m (inr (inr h)) = rw h refl

word_for_byte-IsWord :
    (set : Settings) (mne : Mnemonic) (mode m : ℕ) (s : Symbol)
    → word_for_byte set mne mode s ≡ some m
    → IsWord m
unfolding word_for_byte
word_for_byte-IsWord set mne mode m s h = ground arith

stop_widening-FitResult :
    (set : Settings) (mne : Mnemonic) (mode : ℕ) (s : Symbol) (g : Globals)
    → ltb (opsize_of mode) (operand_size s) ≡ true
    → FitResult s g (stop_widening set mne mode s g).0 (stop_widening set mne mode s g).1
unfolding stop_widening
stop_widening-FitResult set mne mode s g h = elim (Bool-cases (unknown s)) [
  | inl u ↦ rw u (not_known u refl)
  | inr k ↦ elim (Bool-cases (mode == am_imm8 && is_negative s.value)) [
    | inl n ↦
        let (e, neg) = and_true (mode == am_imm8) (is_negative s.value) n in
        let size : opsize_of mode ≡ 1 = rw ((==_iff mode am_imm8).0 e) opsize-imm8 in
        absurd (
          omega (
            arith,
            size,
            operand_size-negative s k neg,
            ltb→lt (opsize_of mode) (operand_size s) h,
          ))
    | inr other ↦ elim (Option-cases (word_for_byte set mne mode s)) [
      | inl no_word ↦
          rw (k, other, no_word)
            (reported k
              (not-Takes s (opsize_of mode) k (ltb→lt (opsize_of mode) (operand_size s) h)) refl)
      | inr (m, word) ↦
          let size = opsize-IsWord m (word_for_byte-IsWord set mne mode m s word) in
          rw (k, other, word) (fits (two_bytes size) refl)
    ]
  ]
]

abbrev Fitted : ℕ → Settings → Mnemonic → ℕ → Symbol → Globals → Type 0
Fitted n set mne mode s g =
    FitResult s g (fit n set mne (operand_size s) mode s g).0
      (fit n set mne (operand_size s) mode s g).1

fit_round :
    (n : ℕ) (set : Settings) (mne : Mnemonic) (mode : ℕ) (s : Symbol) (g : Globals)
    → (cvt mode ≢ 0 → Fitted n set mne (cvt mode) s g)
    → Fitted (suc n) set mne mode s g
unfolding fit
fit_round n set mne mode s g moved = elim (Bool-cases (ltb (opsize_of mode) (operand_size s))) [
  | inr room ↦ rw (room, fit) (fits (operand_size-Takes s mode (ground arith)) refl)
  | inl small ↦ elim (Bool-cases (cvt mode == 0 || badcode mne (cvt mode))) [
    | inl stop ↦ rw (small, stop, fit) (stop_widening-FitResult set mne mode s g small)
    | inr move ↦ rw (small, move, fit) (moved (ground arith))
  ]
]

fit-Fitted :
    (n : ℕ) (set : Settings) (mne : Mnemonic) (mode : ℕ) (s : Symbol) (g : Globals)
    → along (suc n) mode ≡ 0
    → Fitted (suc n) set mne mode s g
fit-Fitted zero set mne mode s g h = fit_round zero set mne mode s g (λ k. absurd (k h))
fit-Fitted (suc n) set mne mode s g h =
    fit_round (suc n) set mne mode s g (λ _. fit-Fitted n set mne (cvt mode) s g h)

-- The loop that makes room for the operand ends within its three rounds. Then the mode takes the value
-- (one of two bytes takes any value, one of one byte a value below 0x100 or a negative one, and one
-- without an operand just 0), or the symbol is not known, or the mode does not take the value and the
-- message has been given; nothing else of the globals changes.
pub fit-FitResult :
    (set : Settings) (mne : Mnemonic) (mode : ℕ) (s : Symbol) (g : Globals)
    → FitResult s g
        (fit cvt_rounds set mne (operand_size s) mode s g).0
        (fit cvt_rounds set mne (operand_size s) mode s g).1
fit-FitResult set mne mode s g = fit-Fitted 2 set mne mode s g (cvt-ends mode)
