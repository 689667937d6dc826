-- ===== src/Instruction/Layout.antt =====
-- The layout of an instruction of v_mnemonic of src/ops.c: the opcode, and the operand behind it.
use dasm.Base.{
  ℕ, ◌%◌, ◌^◌, ◌≤◌, ◌<◌, ◌≡◌, ◌≢◌, refl, Bool, false, List, [], ◌∷◌, ◌++◌, Bytes, arith, length,
  ◌==◌, if◌then◌else◌, ne→==, ltb,
}
use dasm.Data.Strings.{big_value, little_value, entry_value}
use dasm.Instruction.{Mnemonic, opcode_at, mf_mask, mf_rel}
use dasm.Instruction.Encode.{Build, opcode_bytes, operand_bytes, operand, extra_operands, encode}
use dasm.Modes.{am_rel, am_byterel, am_bitmod, am_bitbramod, opsize_of, opsize-le}
use dasm.Run.{ok}
use dasm.State.{Symbol, Globals, has}

-- A mode whose operand is the value of the expression.
pub record IsOrdinary (mode : ℕ) : Type 0 where
  pub not_bit : mode ≢ am_bitmod
  pub not_bit_branch : mode ≢ am_bitbramod
  pub not_rel : mode ≢ am_rel
  pub not_byte_rel : mode ≢ am_byterel

big_value-opcode_bytes : (opcode : ℕ) → opcode < 2 ^ 16 → big_value 0 (opcode_bytes opcode) ≡ opcode
unfolding opcode_bytes big_value
big_value-opcode_bytes opcode h = ground arith

length-opcode_bytes :
    (opcode : ℕ) → length (opcode_bytes opcode) ≡ (if ltb 0xFF opcode then 2 else 1)
unfolding opcode_bytes
length-opcode_bytes opcode = ground arith

entry_value-operand_bytes :
    (msb : Bool) (size v : ℕ)
    → size ≤ 2
    → (length (operand_bytes msb size v) ≡ size)
      × (entry_value msb (operand_bytes msb size v)
          ≡ v % (if size == 0 then 1 else if size == 1 then 2 ^ 8 else 2 ^ 16))
unfolding operand_bytes entry_value big_value little_value
entry_value-operand_bytes msb size v h = ground arith

encode-ordinary :
    (msb : Bool) (stale : Bytes) (mne : Mnemonic) (mode : ℕ) (s : Symbol) (r : List Symbol)
    (g : Globals)
    → has mne.flags mf_mask ≡ false
    → has mne.flags mf_rel ≡ false
    → IsOrdinary mode
    → encode msb stale mne mode (s ∷ r) g
      ≡ ok (record {
        bytes = opcode_bytes (opcode_at mne mode) ++ operand_bytes msb (opsize_of mode) s.value;
        args = r;
        globals = g;
      })
unfolding encode operand extra_operands
encode-ordinary msb stale mne mode s [] g k l o = simp (
  ne→== mode am_bitmod o.not_bit,
  ne→== mode am_bitbramod o.not_bit_branch,
  ne→== mode am_rel o.not_rel,
  k,
  l,
  ne→== mode am_byterel o.not_byte_rel,
)
encode-ordinary msb stale mne mode s (t ∷ r) g k l o = simp (
  ne→== mode am_bitmod o.not_bit,
  ne→== mode am_bitbramod o.not_bit_branch,
  ne→== mode am_rel o.not_rel,
  k,
  l,
  ne→== mode am_byterel o.not_byte_rel,
)

-- An instruction of an ordinary mode, with no mask and no branch: its bytes are the opcode, the more
-- significant byte first, in one byte or, above 0xFF, two, and the operand in the order of the target;
-- they read back as the opcode, for one below 2 ^ 16, and as the value modulo the size that the mode
-- has for it.
pub record Reads (msb : Bool) (mne : Mnemonic) (mode : ℕ) (value : ℕ) (bytes : Bytes) : Type 0 where
  pub front : Bytes
  pub back : Bytes
  pub whole : bytes ≡ front ++ back
  pub front_size : length front ≡ (if ltb 0xFF (opcode_at mne mode) then 2 else 1)
  pub opcode : big_value 0 front ≡ opcode_at mne mode
  pub size : length back ≡ opsize_of mode
  pub operand_value :
      entry_value msb back
      ≡ value % (if opsize_of mode == 0 then 1 else if opsize_of mode == 1 then 2 ^ 8 else 2 ^ 16)

-- For an ordinary mode, a mnemonic with neither a mask nor a relative byte and an opcode below
-- 2 ^ 16, the encoding succeeds, and its bytes are the opcode, in two bytes just when it is above 0xFF,
-- and the operand in as many bytes as the mode has for it, and read back as these.
pub encode-Reads :
    (msb : Bool) (stale : Bytes) (mne : Mnemonic) (mode : ℕ) (s : Symbol) (r : List Symbol)
    (g : Globals)
    → has mne.flags mf_mask ≡ false
    → has mne.flags mf_rel ≡ false
    → IsOrdinary mode
    → opcode_at mne mode < 2 ^ 16
    → (b : Build) × (encode msb stale mne mode (s ∷ r) g ≡ ok b)
      × Reads msb mne mode s.value b.bytes
encode-Reads msb stale mne mode s r g k l o small =
    let (size, value) = entry_value-operand_bytes msb (opsize_of mode) s.value (opsize-le mode) in
    (
      _,
      encode-ordinary msb stale mne mode s r g k l o,
      record {
        front = opcode_bytes (opcode_at mne mode);
        back = operand_bytes msb (opsize_of mode) s.value;
        whole = refl;
        front_size = length-opcode_bytes (opcode_at mne mode);
        opcode = big_value-opcode_bytes (opcode_at mne mode) small;
        size = size;
        operand_value = value;
      },
    )
