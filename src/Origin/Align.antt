-- ===== src/Origin/Align.antt =====
-- ALIGN, on the last pass and in a format without records.
use dasm.Base.{
  ℕ, zero, suc, ◌+◌, ◌-◌, ◌%◌, ◌^◌, ◌≤◌, ◌<◌, ◌≡◌, ◌≢◌, refl, sym, ap, ◌∙◌, Bool, false, inl, inr,
  arith, Bytes, ◌==◌, replicate, ◌++◌, ne→==, Bool-cases, ==_iff, length-replicate, ◌∷◌,
}
use dasm.Origin.{align_counter, fill_up}
use dasm.Output.{Output, here, fill_entry, entries_of, genfill}
use dasm.Output.Fill.{genfill-Grown}
use dasm.Output.Raw.{Writing, Fits}
use dasm.Run.{ok}
use dasm.State.{Symbol, has, sf_rorg, sf_unknown, sym_unknown}
use native.Mathlib.Nat.{mod-lt, mod-add-mod, mod_self}

whole : (c value : ℕ) → c % value < value → c % value + (value - c % value) ≡ value
whole c value h = omega (arith, h)

same_padding : (front : Bytes) (v m n : ℕ) → m ≡ n → front ++ replicate m v ≡ front ++ replicate n v
same_padding front v m n h = ap (λ (k : ℕ). front ++ replicate k v) h

==-ne : (a b : ℕ) → (a == b) ≡ false → a ≢ b
==-ne a b h = ground arith

-- What ALIGN does to the file and the program counter.
pub record Aligned (value : ℕ) (fill : ℕ) (out out' : Output) : Type 0 where
  pub multiple : (here out').org % value ≡ 0
  pub forward : (here out).org ≤ (here out').org
  pub nearest : (here out').org < (here out).org + value
  pub padding :
      (here out).org < (here out').org
      → out'.file
        ≡ (out.file ++ replicate ((here out).org - out.org) out.orgfill)
          ++ replicate ((here out').org - (here out).org) (fill % 256)

-- One byte an entry.
entries_of-replicate :
    (n fill : ℕ) (m : Bool) → entries_of n (fill_entry m fill 1) ≡ replicate n (fill % 256)
unfolding entries_of fill_entry
entries_of-replicate zero fill m = refl
entries_of-replicate (suc n) fill m =
    ap (λ (s : Bytes). fill % 256 ∷ s) (entries_of-replicate n fill m)

-- genfill at bytes.
pad :
    (n fill : ℕ) (out : Output)
    → 0 < n
    → n < 2 ^ 63
    → Writing out
    → Fits n out
    → (out' : Output) × (genfill fill n 1 out ≡ ok out')
      × ((here out').org ≡ (here out).org + n)
      × (out'.file
          ≡ (out.file ++ replicate ((here out).org - out.org) out.orgfill)
            ++ replicate n (fill % 256))
pad n fill out p b w f =
    let (out', e, g) =
      genfill-Grown fill n 1 out (inl refl) p (omega arith) w (omega (arith, f.0), f.1) in
    let bytes = entries_of-replicate n fill out.msborder in
    (
      out',
      e,
      g.counter ∙ rw bytes (ap (λ (k : ℕ). (here out).org + k) (length-replicate n _)),
      g.file ∙ rw bytes,
    )

fill_up-Aligned :
    (fill value : ℕ) (out : Output)
    → 0 < value
    → value < 2 ^ 63
    → Writing out
    → Fits value out
    → (out' : Output) × (fill_up fill (here out).org value out ≡ ok out')
      × Aligned value fill out out'
unfolding fill_up
fill_up-Aligned fill value out p b w f =
    let c = (here out).org in
    let lt = mod-lt c p in
    elim (Bool-cases (c % value == 0)) [
      | inl z ↦
          let zero_mod = (==_iff (c % value) 0).0 z in
          (
            out,
            simp ((==_iff (value - c % value) value).1 (omega (arith, zero_mod))) refl,
            record {
              multiple = zero_mod;
              forward = omega arith;
              nearest = omega arith;
              padding = λ h. absurd (omega arith);
            },
          )
      | inr n ↦
          let some_left = ==-ne (c % value) 0 n in
          let (out', e, counter, file) =
            pad (value - c % value) fill out (omega (arith, lt)) (omega (arith, lt)) w
              (omega (arith, f.0), f.1) in
          (
            out',
            simp (ne→== (value - c % value) value (omega (arith, some_left, lt))) e,
            record {
              multiple = rw counter (
                  sym (mod-add-mod c value (value - c % value))
                  ∙ rw (whole c value lt) (mod_self value));
              forward = omega (arith, counter);
              nearest = omega (arith, counter, some_left, lt);
              padding = λ h.
                  file
                  ∙ same_padding (out.file ++ replicate (c - out.org) out.orgfill) (fill % 256) _
                      ((here out').org - c) (omega (arith, counter));
            },
          )
    ]

-- ALIGN on the last pass, in a format without records, behind the first output and with the program
-- counter not behind the file's, in an initialized segment with a known origin and no relocation,
-- for a known positive value below 2 ^ 63 that leaves the next multiple within the largest file: it
-- returns, and the program counter moves to the nearest multiple ahead, over padding.
pub align_counter-Aligned :
    (s : Symbol) (fill : ℕ) (out : Output)
    → has (here out).flags sf_rorg ≡ false
    → has (here out).flags sf_unknown ≡ false
    → has s.flags sym_unknown ≡ false
    → 0 < s.value
    → s.value < 2 ^ 63
    → Writing out
    → Fits s.value out
    → (out' : Output) × (align_counter s fill out ≡ ok out') × Aligned s.value fill out out'
unfolding align_counter
align_counter-Aligned s fill out r k u p b w f =
    rw (r, k, u) (fill_up-Aligned fill s.value out p b w f)
