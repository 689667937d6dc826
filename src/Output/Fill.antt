-- ===== src/Output/Fill.antt =====
-- genfill fills in buffers of 1024 bytes, and the file and the program counter do not show it.
use dasm.Base.{
  ℕ, zero, suc, ◌+◌, ◌-◌, ◌*◌, ◌/◌, ◌^◌, ◌<◌, ◌≡◌, refl, sym, ap, ◌∙◌, Bool, true, false, ◌⊎◌, inl,
  inr, arith, Bytes, length, [], ◌++◌, replicate, length-append, append_assoc, append-nil, ltb,
  ltb→lt, Bool-cases, ne→==,
}
use dasm.Output.{
  Output, gen_size, generate, here, genfill, fill_loop, fill_entry, entries_of, most_entries,
}
use dasm.Output.Raw.{Writing, Fits, result, generate-result}
use native.Mathlib.Nat.{suc-add, suc-mul}
use dasm.Run.{ok}
use dasm.Word.{is_negative}

-- The sizes that DS and ALIGN fill with.
abbrev pub IsSize : ℕ → Type 0
IsSize size = (size ≡ 1) ⊎ (size ≡ 2) ⊎ (size ≡ 4)

length-fill_entry :
    (m : Bool) (fill size : ℕ) → IsSize size → length (fill_entry m fill size) ≡ size
unfolding fill_entry
length-fill_entry m fill size (inl h) = rw h (ground arith)
length-fill_entry m fill size (inr (inl h)) = rw h (ground arith)
length-fill_entry m fill size (inr (inr h)) = rw h (ground arith)

entries_of-add :
    (a b : ℕ) (entry : Bytes) → entries_of (a + b) entry ≡ entries_of a entry ++ entries_of b entry
unfolding entries_of
entries_of-add zero b entry = ap (λ (n : ℕ). entries_of n entry) (omega arith)
entries_of-add (suc a) b entry = rw (suc-add a b, entries_of-add a b entry, append_assoc)

length-entries_of :
    (n size : ℕ) (entry : Bytes) → length entry ≡ size → length (entries_of n entry) ≡ n * size
unfolding entries_of
length-entries_of zero size entry h = omega arith
length-entries_of (suc n) size entry h = omega (
  arith,
  length-append entry (entries_of n entry),
  length-entries_of n size entry h,
  suc-mul n size,
)

div_size : (c size : ℕ) → IsSize size → (c * size) / size ≡ c
div_size c size (inl h) = rw h (omega arith)
div_size c size (inr (inl h)) = rw h (omega arith)
div_size c size (inr (inr h)) = rw h (omega arith)

-- A whole buffer taken off.
take_buffer :
    (c size : ℕ)
    → IsSize size
    → gen_size < c * size
    → (c * size - gen_size ≡ (c - gen_size / size) * size)
      × (gen_size / size + (c - gen_size / size) ≡ c)
      × ((gen_size / size) * size ≡ gen_size)
take_buffer c size (inl e) h =
    rw e (let k : 1024 < c * 1 = rw e at h in (omega arith, omega arith, omega arith))
take_buffer c size (inr (inl e)) h =
    rw e (let k : 1024 < c * 2 = rw e at h in (omega arith, omega arith, omega arith))
take_buffer c size (inr (inr e)) h =
    rw e (let k : 1024 < c * 4 = rw e at h in (omega arith, omega arith, omega arith))

-- The file of `out'` is that of `out`, filled up to the program counter, and `bytes`.
pub record Grown (bytes : Bytes) (out out' : Output) : Type 0 where
  pub file : out'.file ≡ (out.file ++ replicate ((here out).org - out.org) out.orgfill) ++ bytes
  pub counter : (here out').org ≡ (here out).org + length bytes
  pub synced : out'.org ≡ (here out').org
  pub limit : out'.maxfilesize ≡ out.maxfilesize
  pub order : out'.msborder ≡ out.msborder
  pub writing : Writing out'

abbrev pub with_gen : Bytes → Output → Output
with_gen bytes out = record out { gen = bytes }

pub Writing-with_gen : (bytes : Bytes) (out : Output) → Writing out → Writing (with_gen bytes out)
Writing-with_gen bytes out w = record {
  resolved = w.resolved;
  initialized = w.initialized;
  begun = w.begun;
  plain = w.plain;
  ahead = w.ahead;
}

pub generate-Grown :
    (bytes : Bytes) (out : Output)
    → Writing out
    → Fits (length bytes) out
    → (out' : Output) × (generate (with_gen bytes out) ≡ ok out') × Grown bytes out out'
generate-Grown bytes out w f =
    let w' = Writing-with_gen bytes out w in
    (
      result (with_gen bytes out),
      generate-result (with_gen bytes out) w' f,
      record {
        file = refl;
        counter = omega (arith, f.0, f.1);
        synced = refl;
        limit = refl;
        order = refl;
        writing = record {
          resolved = w.resolved;
          initialized = w.initialized;
          begun = w.begun;
          plain = w.plain;
          ahead = omega arith;
        };
      },
    )

replicate-none : (a n : ℕ) (v : ℕ) → a ≡ n → replicate (a - n) v ≡ []
replicate-none a n v h = let none_left : a - n ≡ 0 = omega arith in rw none_left

pub Grown-trans :
    (xs ys : Bytes) (a b c : Output) → Grown xs a b → Grown ys b c → Grown (xs ++ ys) a c
Grown-trans xs ys a b c g h = record {
  file =
      h.file
      ∙ rw (replicate-none (here b).org b.org b.orgfill (sym g.synced), append-nil, g.file)
          (append_assoc _ xs ys);
  counter = omega (arith, h.counter, g.counter, length-append xs ys);
  synced = h.synced;
  limit = h.limit ∙ g.limit;
  order = h.order ∙ g.order;
  writing = h.writing;
}

-- What Gen held before does not count.
pub Grown-with_gen :
    (gen xs ys : Bytes) (out out' : Output)
    → xs ≡ ys
    → Grown xs (with_gen gen out) out'
    → Grown ys out out'
Grown-with_gen gen xs ys out out' h g = record {
  file =
      g.file
      ∙ ap (λ (s : Bytes). (out.file ++ replicate ((here out).org - out.org) out.orgfill) ++ s) h;
  counter = g.counter ∙ ap (λ (s : Bytes). (here out).org + length s) h;
  synced = g.synced;
  limit = g.limit;
  order = g.order;
  writing = g.writing;
}

last_buffer :
    (c size : ℕ) (entry : Bytes) (out : Output)
    → IsSize size
    → length entry ≡ size
    → Writing out
    → Fits (c * size) out
    → (out' : Output) × (generate (with_gen (entries_of ((c * size) / size) entry) out) ≡ ok out')
      × Grown (entries_of c entry) out out'
last_buffer c size entry out k l w f =
    rw (div_size c size k)
      (generate-Grown (entries_of c entry) out w (rw (length-entries_of c size entry l) f))

next-Fits :
    (bytes : Bytes) (n n' : ℕ) (out out' : Output)
    → Grown bytes out out'
    → length bytes ≡ gen_size
    → gen_size < n
    → n - gen_size ≡ n'
    → Fits n out
    → Fits n' out'
next-Fits bytes n n' out out' g l h e f = (omega (arith, g.counter, g.limit, f.0), rw g.limit f.1)

-- The loop after its first buffer, when the rest is filled as claimed.
after_buffer :
    (k c size : ℕ) (entry : Bytes) (out out1 : Output)
    → ltb gen_size (c * size) ≡ true
    → c * size - gen_size ≡ (c - gen_size / size) * size
    → gen_size / size + (c - gen_size / size) ≡ c
    → generate (with_gen (entries_of (gen_size / size) entry) out) ≡ ok out1
    → Grown (entries_of (gen_size / size) entry) out out1
    → (out' : Output) × (fill_loop k ((c - gen_size / size) * size) size entry out1 ≡ ok out')
      × Grown (entries_of (c - gen_size / size) entry) out1 out'
    → (out' : Output) × (fill_loop (suc k) (c * size) size entry out ≡ ok out')
      × Grown (entries_of c entry) out out'
unfolding fill_loop
after_buffer k c size entry out out1 more less together e1 g1 (out2, e2, g2) =
    let split : entries_of c entry
        ≡ entries_of (gen_size / size) entry ++ entries_of (c - gen_size / size) entry =
      ap (λ (n : ℕ). entries_of n entry) (sym together)
      ∙ entries_of-add (gen_size / size) (c - gen_size / size) entry in
    (
      out2,
      rw (fill_loop, more, e1) (ap (λ (n : ℕ). fill_loop k n size entry out1) less ∙ e2),
      rw split (Grown-trans _ _ out out1 out2 g1 g2),
    )

fill_loop-Grown :
    (k c size : ℕ) (entry : Bytes) (out : Output)
    → IsSize size
    → length entry ≡ size
    → Writing out
    → Fits (c * size) out
    → (out' : Output) × (fill_loop k (c * size) size entry out ≡ ok out')
      × Grown (entries_of c entry) out out'
unfolding fill_loop entries_of
fill_loop-Grown zero c size entry out i l w f =
    unfold fill_loop in last_buffer c size entry out i l w f
fill_loop-Grown (suc k) c size entry out i l w f = elim (Bool-cases (ltb gen_size (c * size))) [
  | inr fits ↦ rw (fill_loop, fits) (last_buffer c size entry out i l w f)
  | inl more ↦
      let (less, together, whole) = take_buffer c size i (ltb→lt gen_size (c * size) more) in
      let first_length : length (entries_of (gen_size / size) entry) ≡ gen_size =
        length-entries_of (gen_size / size) size entry l ∙ whole in
      let larger = ltb→lt gen_size (c * size) more in
      let (out1, e1, g1) =
        generate-Grown (entries_of (gen_size / size) entry) out w
          (rw first_length (omega (arith, f.0, larger), f.1)) in
      let fits : Fits ((c - gen_size / size) * size) out1 =
        next-Fits (entries_of (gen_size / size) entry) (c * size) _ out out1 g1 first_length larger
          less f in
      after_buffer k c size entry out out1 more less together e1 g1
        (fill_loop-Grown k (c - gen_size / size) size entry out1 i l g1.writing fits)
]

fits_long :
    (entries size : ℕ)
    → IsSize size
    → entries * size < 2 ^ 63
    → (is_negative entries ≡ false) × (ltb (most_entries size) entries ≡ false)
fits_long entries size (inl e) b =
    let k : entries * 1 < 2 ^ 63 = rw e at b in (ground arith, rw e (ground arith))
fits_long entries size (inr (inl e)) b =
    let k : entries * 2 < 2 ^ 63 = rw e at b in (ground arith, rw e (ground arith))
fits_long entries size (inr (inr e)) b =
    let k : entries * 4 < 2 ^ 63 = rw e at b in (ground arith, rw e (ground arith))

-- genfill, on the last pass, in an initialized segment and in a format without records, behind the
-- first output and with the program counter not behind the file's: for a positive number of entries
-- of 1, 2 or 4 bytes that fit into a long and into the largest file, it returns, and the file,
-- filled up to the program counter, goes on with as many entries, in one piece.
pub genfill-Grown :
    (fill entries size : ℕ) (out : Output)
    → IsSize size
    → 0 < entries
    → entries * size < 2 ^ 63
    → Writing out
    → Fits (entries * size) out
    → (out' : Output) × (genfill fill entries size out ≡ ok out')
      × Grown (entries_of entries (fill_entry out.msborder fill size)) out out'
unfolding genfill
genfill-Grown fill entries size out i p b w f =
    rw
      (
        ne→== entries 0 (omega arith),
        (fits_long entries size i b).0,
        (fits_long entries size i b).1,
      )
      (fill_loop-Grown (entries * size) entries size (fill_entry out.msborder fill size) out i
        (length-fill_entry out.msborder fill size i) w f)
