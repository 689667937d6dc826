-- ===== src/Output/Raw.antt =====
-- What generate does to a file of the formats DEFAULT and RAW on the last pass.
use dasm.Base.{
  ℕ, ◌+◌, ◌-◌, ◌%◌, ◌≤◌, ◌<◌, ◌≡◌, refl, ap, ◌∙◌, false, ◌⊎◌, inl, inr, arith, Bytes, length, ◌++◌,
  ltb, get_elem?, get_elem?-append_left, get_elem?-append_right, get_elem?-replicate, replicate,
  length-append, length-replicate, some, le→ltb,
}
use dasm.Output.{
  Output, format_raw, format_default, generate, emit, write_gen, after_emit, here, moved, sum_bytes,
}
use dasm.Run.{ok}
use dasm.State.{has, sf_bss}
use dasm.Word.{word_size}

-- The last pass, in an initialized segment, behind the first output of a format without records.
pub record Writing (out : Output) : Type 0 where
  pub resolved : out.globals.redo ≡ 0
  pub initialized : has (here out).flags sf_bss ≡ false
  pub begun : out.fisclear ≡ false
  pub plain : (out.format ≡ format_raw) ⊎ (out.format ≡ format_default)
  pub ahead : out.org ≤ (here out).org

-- The program counter stays within the largest file, and that within a long.
abbrev pub Fits : ℕ → Output → Type 0
Fits n out = ((here out).org + n ≤ out.maxfilesize) × (out.maxfilesize < word_size)

-- What write_gen leaves.
abbrev appended : Output → Output
appended out = record out {
  file = (out.file ++ replicate ((here out).org - out.org) out.orgfill) ++ out.gen;
  org = ((here out).org + length out.gen) % word_size;
}

write_gen-appended : (out : Output) → Writing out → write_gen out ≡ ok (appended out)
unfolding write_gen
write_gen-appended out w = elim w.plain [
  | inl raw ↦ rw (raw, le→ltb (here out).org out.org w.ahead)
  | inr default ↦ rw (default, le→ltb (here out).org out.org w.ahead)
]

abbrev summed : Output → Output
summed out =
    let g = out.globals in
    record out { globals = record g { checksum = (g.checksum + sum_bytes out.gen) % word_size } }

-- What generate leaves.
abbrev pub result : Output → Output
result out = moved (appended (summed out))

pub generate-result :
    (out : Output) → Writing out → Fits (length out.gen) out → generate out ≡ ok (result out)
unfolding generate emit after_emit
generate-result out w f =
    let sum : Output = summed out in
    let w' : Writing sum = record {
      resolved = w.resolved;
      initialized = w.initialized;
      begun = w.begun;
      plain = w.plain;
      ahead = w.ahead;
    } in
    let small : ((here out).org + length out.gen) % word_size ≡ (here out).org + length out.gen =
      omega (arith, f.0, f.1) in
    let under : ltb out.maxfilesize (((here out).org + length out.gen) % word_size) ≡ false =
      le→ltb out.maxfilesize _ (omega (arith, small, f.0)) in
    simp (w.resolved, w.initialized, w.begun, write_gen-appended sum w', under)

-- Behind a header of `header` bytes, the file holds the bytes for the addresses from `base` on: the
-- one for `a` stands at `offset base header a`.
abbrev pub InStep : ℕ → ℕ → Output → Type 0
InStep base header out = length out.file + base ≡ out.org + header

abbrev pub offset : ℕ → ℕ → ℕ → ℕ
offset base header a = a + header - base

length-appended :
    (out : Output)
    → length (appended out).file ≡ length out.file + ((here out).org - out.org) + length out.gen
length-appended out =
    let fill = replicate ((here out).org - out.org) out.orgfill in
    omega (
      arith,
      length-append (out.file ++ fill) out.gen,
      length-append out.file fill,
      length-replicate ((here out).org - out.org) out.orgfill,
    )

-- What generate does to the file: what was in step with the program counter stays so, no byte
-- changes, the gap up to the program counter holds the fill byte, and each byte of Gen stands at
-- the place of its address.
pub record Places (base header : ℕ) (out out' : Output) : Type 0 where
  pub in_step : InStep base header out'
  pub synced : out'.org ≡ (here out').org
  pub kept : (i : ℕ) → i < length out.file → get_elem? out'.file i ≡ get_elem? out.file i
  pub filled :
      (a : ℕ)
      → out.org ≤ a
      → a < (here out).org
      → get_elem? out'.file (offset base header a) ≡ some out.orgfill
  pub placed :
      (i : ℕ)
      → i < length out.gen
      → get_elem? out'.file (offset base header ((here out).org + i)) ≡ get_elem? out.gen i

module _ (base header : ℕ) (out : Output) (w : Writing out) (s : InStep base header out) where
  abbrev file : Bytes
  file = out.file

  abbrev gap : Bytes
  gap = replicate ((here out).org - out.org) out.orgfill

  length-gap : length file + length gap ≡ length file + ((here out).org - out.org)
  length-gap = omega (arith, length-replicate ((here out).org - out.org) out.orgfill)

  appended-kept :
      (i : ℕ) → i < length file → get_elem? ((file ++ gap) ++ out.gen) i ≡ get_elem? file i
  appended-kept i h =
      get_elem?-append_left (file ++ gap) out.gen i (omega (arith, length-append file gap))
      ∙ get_elem?-append_left file gap i h

  appended-filled :
      (a : ℕ)
      → out.org ≤ a
      → a < (here out).org
      → get_elem? ((file ++ gap) ++ out.gen) (offset base header a) ≡ some out.orgfill
  appended-filled a h k =
      get_elem?-append_left (file ++ gap) out.gen (offset base header a)
        (omega (arith, length-append file gap, length-gap))
      ∙ get_elem?-append_right file gap (offset base header a) (omega arith)
      ∙ get_elem?-replicate ((here out).org - out.org) _ out.orgfill (omega arith)

  appended-placed :
      (i : ℕ)
      → i < length out.gen
      → get_elem? ((file ++ gap) ++ out.gen) (offset base header ((here out).org + i))
        ≡ get_elem? out.gen i
  appended-placed i h =
      get_elem?-append_right (file ++ gap) out.gen _
        (omega (arith, length-append file gap, length-gap, w.ahead))
      ∙ ap (get_elem? out.gen) (omega (arith, length-append file gap, length-gap, w.ahead))

-- On the last pass, in an initialized segment and in a format without records, behind the first
-- output, generate returns and places the bytes of Gen in the file, if the program counter is not
-- behind the file's and the largest file is not exceeded.
pub generate-Places :
    (base header : ℕ) (out : Output)
    → Writing out
    → Fits (length out.gen) out
    → InStep base header out
    → (out' : Output) × (generate out ≡ ok out') × Places base header out out'
generate-Places base header out w f s = (
  result out,
  generate-result out w f,
  record {
    in_step = omega (arith, length-appended out, w.ahead, f.0, f.1);
    synced = refl;
    kept = appended-kept base header out w s;
    filled = appended-filled base header out w s;
    placed = appended-placed base header out w s;
  },
)
