-- ===== src/Data/Strings.antt =====
-- The bytes of DC: they stand for the value, and a string of any length reaches the file whole.
use dasm.Base.{
  ℕ, ◌+◌, ◌*◌, ◌%◌, ◌^◌, ◌≡◌, refl, Bool, true, not, inl, inr, arith, Bytes, length, [], ◌∷◌, ◌++◌,
  leb, ◌==◌, if◌then◌else◌, Bool-cases, append_assoc, append-nil, length-append,
}
use dasm.Data.{data_entry, dc_string}
use dasm.Modes.{am_wordadr, am_long, am_other_endian}
use dasm.Output.{Output, generate, gen_size}
use dasm.Output.Fill.{
  Grown, Grown-trans, generate-Grown, with_gen, Writing-with_gen, Grown-with_gen,
}
use dasm.Output.Raw.{Writing, Fits}
use dasm.Run.{ok, ◌>>=◌}

-- The number that bytes stand for, the last one the least or the most significant.
unfoldable pub big_value : ℕ → Bytes → ℕ
big_value acc [] = acc
big_value acc (c ∷ s) = big_value (acc * 256 + c) s

unfoldable pub little_value : Bytes → ℕ
little_value [] = 0
little_value (c ∷ s) = c + 256 * little_value s

unfoldable pub entry_value : Bool → Bytes → ℕ
unfolding big_value little_value
entry_value msb s = if msb then big_value 0 s else little_value s

-- The order of a target that reads the entry, and the width of the entry in bits.
abbrev pub order_of : ℕ → Bool → Bool
order_of mnext msborder = if mnext == am_other_endian then not msborder else msborder

abbrev pub bits_of : ℕ → ℕ
bits_of mnext =
    if mnext == am_wordadr
    then 16
    else if mnext == am_long
    then 32
    else if mnext == am_other_endian
    then 16
    else 8

-- Read back in the order for which it was written, an entry of DC is the value, cut to its width.
pub entry_value-data_entry :
    (mnext : ℕ) (msborder : Bool) (v : ℕ)
    → entry_value (order_of mnext msborder) (data_entry mnext msborder v) ≡ v % 2 ^ bits_of mnext
unfolding entry_value data_entry big_value little_value
entry_value-data_entry mnext msborder v = ground arith

unfoldable pub text_entries : ℕ → Bool → Bytes → Bytes
text_entries mnext msborder [] = []
text_entries mnext msborder (c ∷ s) = data_entry mnext msborder c ++ text_entries mnext msborder s

-- A whole Gen is flushed, and what follows is filled as claimed.
after_flush :
    (mnext c : ℕ) (s rest : Bytes) (out out1 : Output)
    → leb gen_size (length out.gen + 4) ≡ true
    → generate out ≡ ok out1
    → Grown out.gen out out1
    → (out' : Output) × ((dc_string mnext s (record out1 { gen = data_entry mnext out.msborder c })
          >>= generate)
        ≡ ok out')
      × Grown rest out1 out'
    → (out' : Output) × ((dc_string mnext (c ∷ s) out >>= generate) ≡ ok out')
      × Grown (out.gen ++ rest) out out'
unfolding dc_string
after_flush mnext c s rest out out1 full e g (out', e', g') =
    (out', simp (full, e) e', Grown-trans out.gen rest out out1 out' g g')

-- The bytes of a string of DC, on the last pass, in an initialized segment and in a format without
-- records, behind the first output and with the program counter not behind the file's: where they
-- fit into the largest file, the loop and generate return, and the file, filled up to the program
-- counter, goes on with what was in Gen and the entries of all the bytes of the string.
pub dc_string-Grown :
    (mnext : ℕ) (s : Bytes) (out : Output)
    → Writing out
    → Fits (length out.gen + length (text_entries mnext out.msborder s)) out
    → (out' : Output) × ((dc_string mnext s out >>= generate) ≡ ok out')
      × Grown (out.gen ++ text_entries mnext out.msborder s) out out'
unfolding dc_string text_entries
dc_string-Grown mnext [] out w f =
    rw (append-nil out.gen) (generate-Grown out.gen out w (omega (arith, f.0), f.1))
dc_string-Grown mnext (c ∷ s) out w f =
    let entry = data_entry mnext out.msborder c in
    let others = text_entries mnext out.msborder s in
    elim (Bool-cases (leb gen_size (length out.gen + 4))) [
      | inl full ↦
          let (out1, e, g) = generate-Grown out.gen out w (omega (arith, f.0), f.1) in
          let f' : Fits (length entry + length (text_entries mnext out1.msborder s)) out1 = (
            rw g.order (omega (arith, f.0, g.counter, g.limit, length-append entry others)),
            rw g.limit f.1,
          ) in
          let (out', e', g') =
            dc_string-Grown mnext s (with_gen entry out1) (Writing-with_gen entry out1 g.writing)
              f' in
          after_flush mnext c s (entry ++ others) out out1 full e g
            (out', e', Grown-with_gen entry _ _ out1 out' (rw g.order refl) g')
      | inr room ↦
          let f' : Fits (length (out.gen ++ entry) + length others) out =
            (omega (arith, f.0, length-append out.gen entry, length-append entry others), f.1) in
          let (out', e, g) =
            dc_string-Grown mnext s (with_gen (out.gen ++ entry) out)
              (Writing-with_gen (out.gen ++ entry) out w) f' in
          (
            out',
            simp room e,
            Grown-with_gen (out.gen ++ entry) _ _ out out' (append_assoc out.gen entry others) g,
          )
    ]
