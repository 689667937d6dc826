-- ===== src/Instruction/Encode.antt =====
-- v_mnemonic of src/ops.c behind the choice of the mode: the bytes of the instruction.
use dasm.Base.{
  ℕ, ◌+◌, ◌*◌, ◌/◌, ◌%◌, Bool, not, ◌&&◌, ◌||◌, List, [], ◌∷◌, ◌++◌, Bytes, length, get_or, ltb,
  leb, ◌==◌, if◌then◌else◌,
}
use dasm.Errors.{
  address_must_be_lt_100, illegal_bit_specification, not_enough_args, branch_out_of_range,
}
use dasm.Instruction.{
  Mnemonic, Settings, chosen, rejected, opcode_at, unknown, at_least, count_unknown, asked_mode,
  operand_size, legal_mode, check_operand, fit, cvt_rounds, mf_mask, mf_rel,
}
use dasm.Modes.{am_rel, am_byterel, am_bitmod, am_bitbramod, opsize_of}
use dasm.Output.{Output, generate}
use dasm.Run.{Run, ok, exit, undefined, ◌>>=◌}
use dasm.State.{
  Symbol, Globals, Reason, has, with_bit, again, report, pc_of, pc_flags, sf_unknown, sf_ref,
}
use dasm.Word.{sub, is_negative, magnitude}

abbrev pub low_byte : ℕ → ℕ
low_byte v = v % 256

abbrev second_byte : ℕ → ℕ
second_byte v = (v / 256) % 256

-- Gen[0], and Gen[1] for an opcode of two bytes
unfoldable pub opcode_bytes : ℕ → Bytes
opcode_bytes opcode =
    if ltb 0xFF opcode then second_byte opcode ∷ low_byte opcode ∷ [] else low_byte opcode ∷ []

-- The operand of the ordinary modes, by Opsize and MsbOrder.
unfoldable pub operand_bytes : Bool → ℕ → ℕ → Bytes
operand_bytes msborder size v =
    if size == 0
    then []
    else if size == 2
    then (if msborder then second_byte v ∷ low_byte v ∷ [] else low_byte v ∷ second_byte v ∷ [])
    else low_byte v ∷ []

-- What is under construction: the bytes, the symbols that are left, and the globals.
pub record Build : Type 0 where
  pub bytes : Bytes
  pub args : List Symbol
  pub globals : Globals

-- Gen[0] += value << 1
add_bit : ℕ → Bytes → Bytes
add_bit v [] = []
add_bit v (c ∷ s) = (c + v * 2) % 256 ∷ s

-- The number of a bit, which must be at most 7, goes into the opcode.
unfoldable pub bit_number : Symbol → Build → Build
unfolding add_bit
bit_number s b =
    if unknown s
    then b
    else if at_least 8 s.value
    then (let g = b.globals in record b { globals = report illegal_bit_specification g })
    else record b { bytes = add_bit s.value b.bytes }

abbrev check_byte : Symbol → Globals → Globals
check_byte s g =
    if not (unknown s) && at_least 0x100 s.value then report address_must_be_lt_100 g else g

-- The byte of the symbol behind the bit number.
abbrev bit_address : Symbol → Build → Build
bit_address s b = record b {
  bytes = b.bytes ++ low_byte s.value ∷ [];
  globals = check_byte s b.globals;
}

-- switch (addrmode), at the symbols of the expression. A bit instruction with no second symbol
-- would read through a null pointer.
unfoldable pub operand : Bool → ℕ → List Symbol → Build → Run Build
unfolding bit_number operand_bytes opsize_of
operand msborder mode [] b = undefined
operand msborder mode (s ∷ []) b =
    if mode == am_bitmod || mode == am_bitbramod
    then undefined
    else if mode == am_rel
    then ok (record b { args = s ∷ [] })
    else ok
        (record b { bytes = b.bytes ++ operand_bytes msborder (opsize_of mode) s.value; args = [] })
operand msborder mode (s ∷ t ∷ r) b =
    if mode == am_bitmod
    then ok (record (bit_number s (bit_address t b)) { args = t ∷ r })
    else if mode == am_bitbramod
    then ok (record (bit_address t (bit_number s b)) { args = r })
    else if mode == am_rel
    then ok (record b { args = s ∷ t ∷ r })
    else ok (record b {
      bytes = b.bytes ++ operand_bytes msborder (opsize_of mode) s.value;
      args = t ∷ r;
    })

-- if (mne->flags & MF_MASK)
unfoldable pub mask : List Symbol → Build → Run Build
mask [] b = exit not_enough_args
mask (s ∷ r) b = ok (record b {
  bytes = b.bytes ++ low_byte s.value ∷ [];
  args = r;
  globals = check_byte s b.globals;
})

-- The distance from the end of the instruction, `len` bytes long, at the program counter.
unfoldable pub distance : ℕ → ℕ → ℕ → ℕ
unfolding sub
distance value pc len = sub (sub value pc) len

-- dest >= 128 || dest < -128
unfoldable pub out_of_range : ℕ → Bool
out_of_range dest = if is_negative dest then ltb 128 (magnitude dest) else leb 128 dest

-- The last byte of a relative instruction. Where the symbol is not known, it stays what Gen held;
-- `stale` is what Gen held before the instruction.
unfoldable pub branch : Bytes → List Symbol → Build → Run Build
unfolding distance out_of_range
branch stale [] b = exit not_enough_args
branch stale (s ∷ r) b =
    let g = b.globals in
    let len = length b.bytes + 1 in
    let dest = distance s.value (pc_of g.csegment) len in
    ok (
      if unknown s
      then record b { bytes = b.bytes ++ get_or stale (length b.bytes) 0 ∷ [] }
      else if has (pc_flags g.csegment) sf_unknown || has (pc_flags g.csegment) 2
      then record b { bytes = b.bytes ++ 0 ∷ [] }
      else if out_of_range dest
      then record b {
        bytes = b.bytes ++ 0 ∷ [];
        globals = again Reason.branch_out_of_range (report branch_out_of_range g);
      }
      else record b { bytes = b.bytes ++ low_byte dest ∷ [] })

-- The operands behind those of the mode.
unfoldable pub extra_operands : Bytes → Mnemonic → ℕ → Build → Run Build
unfolding mask branch
extra_operands stale mne mode b0 =
    (if has mne.flags mf_mask then mask b0.args b0 else ok b0) >>= λ b.
    if has mne.flags mf_rel || mode == am_rel || mode == am_byterel
    then branch stale b.args b
    else ok b

-- The bytes of an instruction in its mode, at all the symbols of the expression.
unfoldable pub encode : Bool → Bytes → Mnemonic → ℕ → List Symbol → Globals → Run Build
unfolding opcode_bytes operand extra_operands
encode msborder stale mne mode syms g =
    operand msborder mode syms
      (record { bytes = opcode_bytes (opcode_at mne mode); args = syms; globals = g })
    >>= extra_operands stale mne mode

-- The part of v_mnemonic behind eval.
unfoldable pub assemble : Settings → Mnemonic → List Symbol → Output → Run Output
unfolding count_unknown asked_mode operand_size legal_mode check_operand fit encode generate
assemble set mne [] out = undefined
assemble set mne (s ∷ r) out =
    let g = count_unknown set (s ∷ r) out.globals in
    let asked = asked_mode mne s r in
    let opsize = operand_size s in
    elim (legal_mode set mne asked g) [
      | rejected g' ↦ ok (record out { globals = g' })
      | chosen mode g' ↦
          let (mode', g2) =
            fit cvt_rounds set mne opsize mode s (check_operand set opsize mode s.value g') in
          encode out.msborder out.gen mne mode' (s ∷ r) g2 >>= λ b.
          generate (record out { gen = b.bytes; globals = b.globals })
    ]

-- Csegment->flags |= SF_REF
abbrev pub reference_segment : Globals → Globals
reference_segment g =
    let seg = g.csegment in record g { csegment = record seg { flags = with_bit seg.flags sf_ref } }
