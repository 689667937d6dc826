-- ===== src/Output.antt =====
-- generate, closegenerate and genfill of src/ops.c: the bytes of a line go to the output file and
-- the program counter moves on. Writes and seeks on the file succeed.
pub mod Raw
pub mod Fill
use dasm.Base.{
  ℕ, zero, suc, ◌+◌, ◌-◌, ◌*◌, ◌/◌, ◌%◌, ◌^◌, Bool, true, false, not, ◌&&◌, ◌||◌, List, [], ◌∷◌,
  ◌++◌, Bytes, length, set, replicate, ltb, leb, ◌==◌, if◌then◌else◌,
}
use dasm.Errors.{origin_reverse_indexed, avoid_segfault}
use dasm.Run.{Run, ok, exit, panicked, ◌>>=◌}
use dasm.State.{Segment, Globals, has, sf_unknown, sf_bss, sf_rorg, again, obscure}
use dasm.Word.{word_size, is_negative}

-- enum FORMAT. F_format is checked before it is stored (src/main.c).
pub data Format : Type 0 where
  format_default format_ras format_raw : Format

abbrev pub gen_size : ℕ
gen_size = 1024

-- The globals of the output. `gen` is the first Glen bytes of Gen, `org` the static variable of
-- generate, `file` what was written to FI_temp, and `seekback` a position in it.
pub record Output : Type 0 where
  pub globals : Globals
  pub gen : Bytes
  pub fisclear : Bool
  pub org : ℕ
  pub orgfill : ℕ
  pub msborder : Bool
  pub format : Format
  pub file : Bytes
  pub seekback : ℕ
  pub seglen : ℕ
  pub maxfilesize : ℕ

abbrev pub sum_bytes : Bytes → ℕ
sum_bytes [] = 0
sum_bytes (c ∷ s) = c + sum_bytes s

-- putc (n & 0xFF); putc ((n >> 8) & 0xFF);
abbrev pub word_bytes : ℕ → Bytes
word_bytes n = n % 256 ∷ (n / 256) % 256 ∷ []

-- The length of a RAS record, once it is known.
unfoldable pub patch_length : ℕ → ℕ → Bytes → Bytes
patch_length k n file = set (set file k (n % 256)) (k + 1) ((n / 256) % 256)

-- The origin and a place for the length: a new RAS record.
unfoldable pub open_record : ℕ → Output → Output
open_record org out = record out {
  org = org;
  file = (out.file ++ word_bytes org) ++ 0 ∷ 0 ∷ [];
  seekback = length out.file + 2;
  seglen = 0;
}

abbrev pub here : Output → Segment
here out = out.globals.csegment

-- if (Fisclear) in a segment whose origin is known
unfoldable pub first_output : Output → Output
unfolding open_record
first_output out =
    let org = (here out).org in
    elim out.format [
      | format_default ↦ record out {
        fisclear = false;
        org = org;
        file = out.file ++ word_bytes org;
      }
      | format_ras ↦ (let out' = record out { fisclear = false } in open_record org out')
      | format_raw ↦ record out { fisclear = false; org = org }
    ]

-- switch (F_format), and org += Glen behind it
unfoldable pub write_gen : Output → Run Output
unfolding open_record patch_length
write_gen out =
    let org = (here out).org in
    elim out.format [
      | format_ras ↦
          let out' =
            if out.org == org
            then out
            else open_record org
                (record out { file = patch_length out.seekback out.seglen out.file }) in
          ok (record out' {
            file = out'.file ++ out.gen;
            seglen = out'.seglen + length out.gen;
            org = (out'.org + length out.gen) % word_size;
          })
      | _ ↦
          if ltb org out.org
          then exit origin_reverse_indexed
          else ok (record out {
            file = (out.file ++ replicate (org - out.org) out.orgfill) ++ out.gen;
            org = (org + length out.gen) % word_size;
          })
    ]

-- The part of generate under `if (!Redo)`: nothing is written in a segment that is not
-- initialized, and with an unknown origin another pass is asked for and generate returns.
pub data Emitted : Type 0 where
  written : Output → Emitted
  returned : Output → Emitted

unfoldable pub emit : Output → Run Emitted
unfolding first_output write_gen
emit out0 =
    let g0 = out0.globals in
    let out = record out0 {
      globals = record g0 { checksum = (g0.checksum + sum_bytes out0.gen) % word_size };
    } in
    if not (g0.redo == 0) || has g0.csegment.flags sf_bss
    then ok (written out0)
    else if out0.fisclear && has g0.csegment.flags sf_unknown
    then ok (returned (record out { fisclear = false; globals = again obscure out.globals }))
    else if out0.fisclear
    then (write_gen (first_output out) >>= λ out'. ok (written out'))
    else (write_gen out >>= λ out'. ok (written out'))

-- Csegment->org += Glen; if (Csegment->flags & SF_RORG) Csegment->rorg += Glen;
abbrev pub move_on : ℕ → Segment → Segment
move_on n s = record s {
  org = (s.org + n) % word_size;
  rorg = if has s.flags sf_rorg then (s.rorg + n) % word_size else s.rorg;
}

abbrev pub moved : Output → Output
moved out =
    let g = out.globals in
    record out { globals = record g { csegment = move_on (length out.gen) g.csegment } }

after_emit : Emitted → Run Output
after_emit (returned out) = ok out
after_emit (written out) =
    if ltb out.maxfilesize (here (moved out)).org then exit avoid_segfault else ok (moved out)

unfoldable pub generate : Output → Run Output
unfolding emit after_emit
generate out = emit out >>= after_emit

unfoldable pub closegenerate : Output → Output
unfolding patch_length
closegenerate out = elim out.format [
  | format_ras ↦
      if out.globals.redo == 0
      then record out { file = patch_length out.seekback out.seglen out.file }
      else out
  | _ ↦ out
]

-- One entry of Gen, as genfill lays it out.
unfoldable pub fill_entry : Bool → ℕ → ℕ → Bytes
fill_entry msborder fill size =
    let c0 = fill % 256 in
    let c1 = (fill / 256) % 256 in
    let c2 = (fill / 2 ^ 16) % 256 in
    let c3 = (fill / 2 ^ 24) % 256 in
    if size == 4
    then (if msborder then c3 ∷ c2 ∷ c1 ∷ c0 ∷ [] else c0 ∷ c1 ∷ c2 ∷ c3 ∷ [])
    else if size == 2
    then (if msborder then c1 ∷ c0 ∷ [] else c0 ∷ c1 ∷ [])
    else c0 ∷ []

unfoldable pub entries_of : ℕ → Bytes → Bytes
entries_of zero entry = []
entries_of (suc n) entry = entry ++ entries_of n entry

-- The loop over whole buffers and the rest behind it, for `n` bytes of an entry of `size` bytes.
-- Each round takes a buffer, so the bytes are enough fuel.
unfoldable pub fill_loop : ℕ → ℕ → ℕ → Bytes → Output → Run Output
unfolding generate entries_of
fill_loop zero n size entry out = generate (record out { gen = entries_of (n / size) entry })
fill_loop (suc k) n size entry out = elim (ltb gen_size n) [
  | true ↦
      generate (record out { gen = entries_of (gen_size / size) entry })
      >>= fill_loop k (n - gen_size) size entry
  | false ↦ generate (record out { gen = entries_of (n / size) entry })
]

-- The most entries of `size` bytes that a long can count in bytes.
abbrev pub most_entries : ℕ → ℕ
most_entries size = (2 ^ 63 - 1) / size

-- genfill, for the sizes 1, 2 and 4 that its callers pass.
unfoldable pub genfill : ℕ → ℕ → ℕ → Output → Run Output
unfolding fill_loop fill_entry
genfill fill entries size out =
    if entries == 0
    then ok out
    else if is_negative entries
    then exit origin_reverse_indexed
    else if ltb (most_entries size) entries
    then panicked
    else fill_loop (entries * size) (entries * size) size (fill_entry out.msborder fill size) out
