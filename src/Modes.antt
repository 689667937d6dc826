-- ===== src/Modes.antt =====
-- enum ADDRESS_MODES of src/asm.h, and the tables Cvt and Opsize of src/globals.c.
use dasm.Base.{
  ◌≡◌, ◌≤◌, refl, true, leb, leb→le, arith, inl, inr, ltb, ◌==◌, ltb→lt, ==_iff, Bool-cases,
  all_below, all_below-lt, get_or-beyond, ℕ, List, [], ◌∷◌, get_or,
}

abbrev pub am_imp : ℕ
am_imp = 0

abbrev pub am_imm8 : ℕ
am_imm8 = 1

abbrev pub am_imm16 : ℕ
am_imm16 = 2

abbrev pub am_byteadr : ℕ
am_byteadr = 3

abbrev pub am_byteadrx : ℕ
am_byteadrx = 4

abbrev pub am_byteadry : ℕ
am_byteadry = 5

abbrev pub am_wordadr : ℕ
am_wordadr = 6

abbrev pub am_wordadrx : ℕ
am_wordadrx = 7

abbrev pub am_wordadry : ℕ
am_wordadry = 8

abbrev pub am_rel : ℕ
am_rel = 9

abbrev pub am_byterel : ℕ
am_byterel = 10

abbrev pub am_indbytex : ℕ
am_indbytex = 11

abbrev pub am_indbytey : ℕ
am_indbytey = 12

abbrev pub am_indword : ℕ
am_indword = 13

abbrev pub am_indwordx : ℕ
am_indwordx = 14

abbrev pub am_indbyte : ℕ
am_indbyte = 15

abbrev pub am_0x : ℕ
am_0x = 16

abbrev pub am_0y : ℕ
am_0y = 17

abbrev pub am_bitmod : ℕ
am_bitmod = 18

abbrev pub am_bitbramod : ℕ
am_bitbramod = 19

abbrev pub am_byteadr_sp : ℕ
am_byteadr_sp = 20

abbrev pub am_wordadr_sp : ℕ
am_wordadr_sp = 21

abbrev pub am_symbol : ℕ
am_symbol = 22

abbrev pub am_explist : ℕ
am_explist = 23

abbrev pub am_long : ℕ
am_long = 24

abbrev pub am_bss : ℕ
am_bss = 25

abbrev pub am_other_endian : ℕ
am_other_endian = 26

abbrev pub numoc : ℕ
numoc = 27

cvt_table : List ℕ
cvt_table =
    0 ∷ 2 ∷ 0 ∷ 6 ∷ 7 ∷ 8 ∷ 9 ∷ 0 ∷ 0 ∷ 0 ∷ 0 ∷ 0 ∷ 0 ∷ 0 ∷ 2 ∷ 0 ∷ 4 ∷ 5 ∷ 0 ∷ 0 ∷ 0 ∷ 0 ∷ 0 ∷ 0
    ∷ 0 ∷ 0 ∷ 0 ∷ []

opsize_table : List ℕ
opsize_table =
    0 ∷ 1 ∷ 2 ∷ 1 ∷ 1 ∷ 1 ∷ 2 ∷ 2 ∷ 2 ∷ 2 ∷ 1 ∷ 1 ∷ 1 ∷ 2 ∷ 2 ∷ 1 ∷ 0 ∷ 0 ∷ 1 ∷ 1 ∷ 1 ∷ 2 ∷ 0 ∷ 0
    ∷ 0 ∷ 0 ∷ 0 ∷ []

-- Cvt[mode] and Opsize[mode], for the modes that the tables have.
unfoldable pub cvt : ℕ → ℕ
unfolding cvt_table
cvt mode = get_or cvt_table mode 0

unfoldable pub opsize_of : ℕ → ℕ
unfolding opsize_table
opsize_of mode = get_or opsize_table mode 0

cvt-beyond : (mode : ℕ) → numoc ≤ mode → cvt mode ≡ 0
unfolding cvt
cvt-beyond mode h = get_or-beyond cvt_table mode 0 (unfold cvt_table in h)

cvt_table-ends : all_below numoc (λ mode. cvt (cvt (cvt mode)) == 0) ≡ true
unfolding all_below cvt
cvt_table-ends = refl

-- Three steps along Cvt lead to 0 from every mode.
pub cvt-ends : (mode : ℕ) → cvt (cvt (cvt mode)) ≡ 0
cvt-ends mode = elim (Bool-cases (ltb mode numoc)) [
  | inl small ↦ (==_iff (cvt (cvt (cvt mode))) 0).0 (
      all_below-lt numoc (λ m. cvt (cvt (cvt m)) == 0) mode cvt_table-ends
        (ltb→lt mode numoc small))
  | inr large ↦ rw (cvt-beyond mode (ground arith)) (unfold cvt in refl)
]

opsize_table-le : all_below numoc (λ mode. leb (opsize_of mode) 2) ≡ true
unfolding all_below opsize_of
opsize_table-le = refl

-- No operand is longer than two bytes.
pub opsize-le : (mode : ℕ) → opsize_of mode ≤ 2
opsize-le mode = elim (Bool-cases (ltb mode numoc)) [
  | inl small ↦
      leb→le (opsize_of mode) 2 (
        all_below-lt numoc (λ m. leb (opsize_of m) 2) mode opsize_table-le
          (ltb→lt mode numoc small))
  | inr large ↦
      let none_there : opsize_of mode ≡ 0 =
        unfold opsize_of in
        get_or-beyond opsize_table mode 0 (unfold opsize_table in ground arith) in
      omega (arith, none_there)
]
