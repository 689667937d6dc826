-- ===== src/Data.antt =====
-- The data of DC in v_dc of src/ops.c, behind programlabel and eval: its symbols go to Gen, and
-- Gen to generate. DV, which evaluates a macro for each value, is in Session/Values.
pub mod Strings
use dasm.Base.{
  ℕ, ◌+◌, ◌-◌, ◌*◌, ◌/◌, ◌%◌, ◌^◌, Bool, true, false, not, ◌&&◌, ◌||◌, Option, none, some, List, [],
  ◌∷◌, ◌++◌, Bytes, length, ltb, leb, ◌==◌, if◌then◌else◌,
}
use dasm.Errors.{AsmError, address_must_be_lt_100, address_must_be_lt_10000}
use dasm.Modes.{am_wordadr, am_long, am_other_endian}
use dasm.Origin.{on_globals}
use dasm.Output.{Output, gen_size, generate}
use dasm.Run.{Run, ok, ◌>>=◌}
use dasm.State.{Symbol, has, again, report, sym_unknown, sym_string, dc_not_resolved}
use dasm.Word.{magnitude}

abbrev low : ℕ → ℕ
low v = v % 256

abbrev second_byte : ℕ → ℕ
second_byte v = (v / 256) % 256

-- Two bytes and four, with the most significant one first or last.
abbrev word_entry : Bool → ℕ → Bytes
word_entry msb v = if msb then second_byte v ∷ low v ∷ [] else low v ∷ second_byte v ∷ []

abbrev long_entry : Bool → ℕ → Bytes
long_entry msb v =
    if msb
    then (v / 2 ^ 24) % 256 ∷ (v / 2 ^ 16) % 256 ∷ second_byte v ∷ low v ∷ []
    else low v ∷ second_byte v ∷ (v / 2 ^ 16) % 256 ∷ (v / 2 ^ 24) % 256 ∷ []

-- switch (Mnext); a directive without an extension has any other number for it.
unfoldable pub data_entry : ℕ → Bool → ℕ → Bytes
data_entry mnext msborder v =
    if mnext == am_wordadr
    then word_entry msborder v
    else if mnext == am_long
    then long_entry msborder v
    else if mnext == am_other_endian
    then word_entry (not msborder) v
    else low v ∷ []

-- The message about a value that does not fit.
unfoldable pub check_range : ℕ → Bool → ℕ → Output → Output
check_range mnext strict v out =
    if mnext == am_long
    then out
    else if mnext == am_wordadr || mnext == am_other_endian
    then (if strict && ltb 0xFFFF (magnitude v)
        then on_globals (report address_must_be_lt_10000) out
        else out)
    else if ltb 0xFF (magnitude v)
    then on_globals (report address_must_be_lt_100) out
    else out

-- A string, byte by byte; Gen is flushed before it could overflow.
unfoldable pub dc_string : ℕ → Bytes → Output → Run Output
unfolding generate data_entry
dc_string mnext [] out = ok out
dc_string mnext (c ∷ s) out =
    (if leb gen_size (length out.gen + 4)
      then (generate out >>= λ out1. ok (record out1 { gen = [] }))
      else ok out)
    >>= λ out2.
        dc_string mnext s (record out2 { gen = out2.gen ++ data_entry mnext out.msborder c })

-- `sym->string`, for a symbol with SYM_STRING.
abbrev text_of : Symbol → Bytes
text_of s = elim s.string [ none ↦ [] | some t ↦ t ]

unfoldable pub dc_symbol : ℕ → Bool → Symbol → Output → Run Output
unfolding dc_string check_range data_entry
dc_symbol mnext strict s out0 =
    let out = if has s.flags sym_unknown then on_globals (again dc_not_resolved) out0 else out0 in
    if has s.flags sym_string
    then dc_string mnext (text_of s) out
    else (let checked = check_range mnext strict s.value out in
        ok (record checked { gen = checked.gen ++ data_entry mnext checked.msborder s.value }))

dc_symbols : ℕ → Bool → List Symbol → Output → Run Output
unfolding dc_symbol
dc_symbols mnext strict [] out = ok out
dc_symbols mnext strict (s ∷ r) out = dc_symbol mnext strict s out >>= dc_symbols mnext strict r

unfoldable pub dc_all : ℕ → Bool → List Symbol → Output → Run Output
unfolding dc_symbols generate
dc_all mnext strict syms out = dc_symbols mnext strict syms (record out { gen = [] }) >>= generate
