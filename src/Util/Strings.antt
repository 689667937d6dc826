-- ===== src/Util/Strings.antt =====
-- What the copying functions of src/util.c leave in a buffer.
use dasm.Base.{
  ℕ, zero, suc, ◌+◌, ◌-◌, ◌<◌, ◌≡◌, refl, ap, arith, Bool-cases, inl, inr, [], ◌∷◌, ◌++◌, Bytes,
  length, take, lt→leb, if◌then◌else◌,
}
use dasm.Util.{copy_fitting, strlcat, isspace, count_needed, copy_stripped, strip_whitespace}

copy_fitting-all : (n : ℕ) (s : Bytes) → length s < n → copy_fitting n s ≡ s
unfolding copy_fitting
copy_fitting-all n [] h = refl
copy_fitting-all n (c ∷ s) h =
    rw (lt→leb n 1 (omega (arith, h)))
      (ap (λ (r : Bytes). c ∷ r) (copy_fitting-all (n - 1) s (omega (arith, h))))

-- strlcat appends a string that fits.
pub strlcat-append :
    (a b : Bytes) (size : ℕ)
    → length a + length b < size
    → strlcat a b size ≡ (a ++ b, length a + length b)
unfolding strlcat
strlcat-append a b size h =
    rw
      (
        lt→leb size (length a) (omega (arith, h)),
        copy_fitting-all (size - length a) b (omega (arith, h)),
      )
      refl

-- The characters of a string that are no space.
unfoldable pub without_space : Bytes → Bytes
without_space [] = []
without_space (c ∷ s) = let r = without_space s in if isspace c then r else c ∷ r

count_needed-length : (s : Bytes) → count_needed s ≡ length (without_space s)
unfolding count_needed without_space
count_needed-length [] = refl
count_needed-length (c ∷ s) = elim (Bool-cases (isspace c)) [
  | inl h ↦ rw (h) (count_needed-length s)
  | inr h ↦ rw (h) (ap suc (count_needed-length s))
]

suc_sub : (n : ℕ) → suc n - 1 ≡ n
suc_sub n = omega arith

copy_stripped-take : (n : ℕ) (s : Bytes) → copy_stripped (suc n) s ≡ take n (without_space s)
unfolding copy_stripped without_space
copy_stripped-take zero [] = refl
copy_stripped-take (suc n) [] = refl
copy_stripped-take zero (c ∷ s) = refl
copy_stripped-take (suc n) (c ∷ s) = elim (Bool-cases (isspace c)) [
  | inl h ↦ rw (lt→leb (suc (suc n)) 1 (omega arith), h) (copy_stripped-take (suc n) s)
  | inr h ↦
      rw (lt→leb (suc (suc n)) 1 (omega arith), h, suc_sub (suc n))
        (ap (λ (r : Bytes). c ∷ r) (copy_stripped-take n s))
]

-- strip_whitespace leaves as many of the characters that are no space as fit in front of the zero, and
-- returns how many there are.
pub strip_whitespace-take :
    (src : Bytes) (size : ℕ)
    → 0 < size
    → strip_whitespace src size ≡ (take (size - 1) (without_space src), length (without_space src))
unfolding strip_whitespace
strip_whitespace-take src zero h = absurd (omega (arith, h))
strip_whitespace-take src (suc n) h =
    rw (copy_stripped-take n src, count_needed-length src) (rw (suc_sub n) refl)
