-- ===== src/F8/Fields.antt =====
-- The operands in the instructions of src/mnef8.c.
use dasm.Base.{
  ℕ, ◌+◌, ◌*◌, ◌/◌, ◌%◌, ◌<◌, ◌≡◌, ap, ◌∙◌, refl, inl, inr, Bool, true, ◌&&◌, [], ◌∷◌, Bytes, arith,
  ltb, ◌==◌, ==_iff, bit_or, all_below, all_below-lt, and_true, Bool-cases,
}
use native.Mathlib.Nat.{mod-eq_of_lt}
use dasm.Data.Strings.{big_value}
use dasm.Errors.{AsmError, value_must_be_lt_10000, address_must_be_lt_100}
use dasm.F8.Handlers.{emit_opcode, check_limit, short_operand, word_code, byte_code}
use dasm.Instruction.{Mnemonic, opcode_at}
use dasm.Instruction.Encode.{low_byte}
use dasm.Origin.{on_globals}
use dasm.Output.{Output}
use dasm.Run.{Run}
use dasm.State.{report}

-- The instruction is emitted with the opcode and an operand that is the value, and without a word; or
-- the value is beyond the limit, the operand is the value modulo the limit's successor, and the error
-- is reported. `parts` reads opcode and operand.
pub data Holds (limit : ℕ) (e : AsmError) (opcode v : ℕ) (parts : Bytes → ℕ × ℕ) (out : Output)
    : Run Output → Type 0 where
  held :
      (bytes : Bytes)
      → parts bytes ≡ (opcode, v)
      → Holds limit e opcode v parts out (emit_opcode bytes out)
  cut :
      (bytes : Bytes)
      → limit < v
      → parts bytes ≡ (opcode, v % (limit + 1))
      → Holds limit e opcode v parts out (emit_opcode bytes (on_globals (report e) out))

-- A handler that checks the limit and emits its bytes.
checked-Holds :
    (limit : ℕ) (e : AsmError) (opcode v : ℕ) (parts : Bytes → ℕ × ℕ) (out : Output) (bytes : Bytes)
    → parts bytes ≡ (opcode, v % (limit + 1))
    → Holds limit e opcode v parts out (emit_opcode bytes (on_globals (check_limit limit e v) out))
checked-Holds limit e opcode v parts out bytes h = elim (Bool-cases (ltb limit v)) [
  | inl more ↦ rw more (cut bytes (ground arith) h)
  | inr fine ↦ rw fine (held bytes (h ∙ ap (λ x. (opcode, x)) (mod-eq_of_lt (ground arith))))
]

abbrev split_at : ℕ → ℕ → ℕ → Bool
split_at size opcode r =
    let c = low_byte (bit_or (opcode * size) r) in c % size == r && c / size == opcode

or_nibbles : all_below 16 (λ k. all_below 16 (split_at 16 k)) ≡ true
unfolding all_below
or_nibbles = refl

or_octals : all_below 32 (λ k. all_below 8 (split_at 8 k)) ≡ true
unfolding all_below
or_octals = refl

nibble : (k r : ℕ) → k < 16 → r < 16 → split_at 16 k r ≡ true
nibble k r h h' = all_below-lt 16 (split_at 16 k) r (all_below-lt 16 _ k or_nibbles h) h'

octal : (k r : ℕ) → k < 32 → r < 8 → split_at 8 k r ≡ true
octal k r h h' = all_below-lt 8 (split_at 8 k) r (all_below-lt 32 _ k or_octals h) h'

-- The opcode and the operand of a byte that holds both.
abbrev pub digits : ℕ → Bytes → ℕ × ℕ
digits size [] = (0, 0)
digits size (c ∷ s) = (c / size, c % size)

split_at-digits :
    (size k r : ℕ)
    → split_at size k r ≡ true
    → digits size (low_byte (bit_or (k * size) r) ∷ []) ≡ (k, r)
split_at-digits size k r h =
    let c = low_byte (bit_or (k * size) r) in
    let (a, b) = and_true (c % size == r) (c / size == k) h in
    cc ((==_iff (c % size) r).0 a, (==_iff (c / size) k).0 b)

-- INS, OUTS and LIS, of which the opcode has the number k in its high nibble: the instruction holds an
-- operand up to 15, and the error is reported for one beyond.
pub short_operand-Holds :
    (k : ℕ) (e : AsmError) (v : ℕ) (out : Output)
    → k < 16
    → Holds 15 e k v (digits 16) out (short_operand (k * 16) 15 e v out)
unfolding short_operand
short_operand-Holds k e v out h =
    checked-Holds 15 e k v (digits 16) out _
      (split_at-digits 16 k (v % 16) (nibble k (v % 16) h (omega arith)))

-- LISU and LISL, of which the opcode is 8 times the number k: the instruction holds an operand up to 7,
-- and the error is reported for one beyond.
pub short_operand-Holds_octal :
    (k : ℕ) (e : AsmError) (v : ℕ) (out : Output)
    → k < 32
    → Holds 7 e k v (digits 8) out (short_operand (k * 8) 7 e v out)
unfolding short_operand
short_operand-Holds_octal k e v out h =
    checked-Holds 7 e k v (digits 8) out _
      (split_at-digits 8 k (v % 8) (octal k (v % 8) h (omega arith)))

-- The opcode in the first byte, and the operand behind it.
abbrev pub opcode_first : Bytes → ℕ × ℕ
opcode_first [] = (0, 0)
opcode_first (c ∷ s) = (c, big_value 0 s)

-- DCI, JMP and PI: the instruction holds the address, or the error is reported for one beyond 16 bits.
pub word_code-Holds :
    (mne : Mnemonic) (v : ℕ) (out : Output)
    → Holds 0xFFFF value_must_be_lt_10000
        (opcode_at mne 0 % 256)
        v
        opcode_first
        out
        (word_code mne v out)
unfolding word_code big_value
word_code-Holds mne v out =
    checked-Holds 0xFFFF value_must_be_lt_10000 (opcode_at mne 0 % 256) v opcode_first out _
      (ap (λ x. (opcode_at mne 0 % 256, x)) (omega arith))

-- AI, CI, IN, LI, NI, OI, OUT and XI: the instruction holds the byte, or the error is reported for a
-- value that is none.
pub byte_code-Holds :
    (mne : Mnemonic) (v : ℕ) (out : Output)
    → Holds 0xFF address_must_be_lt_100
        (opcode_at mne 0 % 256)
        v
        opcode_first
        out
        (byte_code mne v out)
unfolding byte_code big_value
byte_code-Holds mne v out =
    checked-Holds 0xFF address_must_be_lt_100 (opcode_at mne 0 % 256) v opcode_first out _
      (ap (λ x. (opcode_at mne 0 % 256, x)) (omega arith))
