-- ===== src/Instruction.antt =====
-- v_mnemonic of src/ops.c: the addressing mode of an instruction. The opcode tables of src/mne*.c
-- are in Opcodes/Tables; a MNEMONIC is an argument here.
pub mod Modes
pub mod Fit
pub mod Encode
pub mod Branch
pub mod Layout
use dasm.Base.{
  ℕ, zero, suc, ◌-◌, ◌/◌, ◌%◌, ◌^◌, Bool, true, false, not, ◌&&◌, ◌||◌, Option, none, some, List,
  [], ◌∷◌, Bytes, ltb, leb, ◌==◌, if◌then◌else◌, get_or,
}
use dasm.Errors.{
  AsmError, unknown_mnemonic, illegal_addressing_mode, illegal_forced_addressing_mode,
  address_must_be_lt_100, address_must_be_lt_10000,
}
use dasm.Modes.{
  am_imm8, am_imm16, am_byteadr, am_byteadrx, am_byteadry, am_wordadr, am_wordadrx, am_wordadry,
  am_indbytex, am_indbytey, am_indword, am_indwordx, am_indbyte, am_0x, am_0y, am_bitmod,
  am_bitbramod, am_byteadr_sp, am_wordadr_sp, numoc, cvt, opsize_of,
}
use dasm.State.{Symbol, Globals, has, again, report, mnemonic_not_resolved, sym_unknown}
use dasm.Word.{is_negative, magnitude, word_size}

-- MF_MASK, MF_REL and MF_IMOD
abbrev pub mf_mask : ℕ
mf_mask = 0x10

abbrev pub mf_rel : ℕ
mf_rel = 0x20

abbrev pub mf_imod : ℕ
mf_imod = 0x40

-- The function that a row of a table has for `vect`. That of a macro is v_execmac; it has the
-- macro's lines and the pass that defined it.
pub data Handler : Type 0 where
  by_list by_include by_seg by_hex by_err by_dc by_ds by_end by_trace by_org by_rorg by_rend :
      Handler
  by_align by_subroutine by_equ by_eqm by_set by_setstr by_setsym by_macro by_endm by_mexit :
      Handler
  by_ifconst by_ifnconst by_if by_else by_endif by_repeat by_repend by_echo by_processor : Handler
  by_incbin by_incdir by_mnemonic : Handler
  by_ins_outs by_sl_sr by_lis by_lisu_lisl by_sreg_op by_lr by_branch by_bf_bt by_wordop by_byteop :
      Handler
  by_execmac : List Bytes → ℕ → Handler

-- MNEMONIC, and MACRO; `opcode` has an entry for each addressing mode.
pub record Mnemonic : Type 0 where
  pub name : Bytes
  pub vect : Handler
  pub flags : ℕ
  pub okmask : ℕ
  pub opcode : List ℕ

-- Processor, Mnext (`none` for -1), bStrictMode and F_verbose.
pub record Settings : Type 0 where
  pub processor : ℕ
  pub mnext : Option ℕ
  pub strict : Bool
  pub verbose : Bool

unfoldable pub badcode : Mnemonic → ℕ → Bool
badcode mne mode = not (has mne.okmask (2 ^ mode))

abbrev pub opcode_at : Mnemonic → ℕ → ℕ
opcode_at mne mode = get_or mne.opcode mode 0

abbrev pub extension_is : Settings → ℕ → Bool
extension_is set mode = elim set.mnext [ none ↦ false | some m ↦ m == mode ]

abbrev pub unknown : Symbol → Bool
unknown s = has s.flags sym_unknown

-- `value >= n`, for a small n
abbrev pub at_least : ℕ → ℕ → Bool
at_least n v = not (is_negative v) && leb n v

-- ++Redo with its reason, and the message that -v turns off
abbrev pub not_resolved : Settings → Globals → Globals
not_resolved set g =
    let h = again mnemonic_not_resolved g in if set.verbose then h else report unknown_mnemonic h

-- The loop over the symbols for those that are not known.
unfoldable pub count_unknown : Settings → List Symbol → Globals → Globals
count_unknown set [] g = g
count_unknown set (s ∷ r) g = count_unknown set r (if unknown s then not_resolved set g else g)

abbrev has_second : List Symbol → Bool
has_second [] = false
has_second (s ∷ r) = true

-- The addressing mode of the expression, which MF_IMOD makes that of a bit instruction.
unfoldable pub asked_mode : Mnemonic → Symbol → List Symbol → ℕ
asked_mode mne s others =
    if has mne.flags mf_imod && has_second others
    then (if has mne.flags mf_rel then am_bitbramod else am_bitmod)
    else s.addrmode

unfoldable pub operand_size : Symbol → ℕ
operand_size s = if unknown s || at_least 0x100 s.value then 2 else if s.value == 0 then 0 else 1

-- while (badcode(mne, addrmode) && Cvt[addrmode]); no chain of Cvt is longer than three.
unfoldable pub widen : ℕ → Mnemonic → ℕ → ℕ
widen zero mne mode = mode
widen (suc n) mne mode = elim (badcode mne mode && not (cvt mode == 0)) [
  | true ↦ widen n mne (cvt mode)
  | false ↦ mode
]

abbrev pub cvt_rounds : ℕ
cvt_rounds = 3

unfoldable pub indirect_word : Settings → Mnemonic → ℕ → ℕ
indirect_word set mne mode =
    let special = opcode_at mne mode == 0x42 && set.processor == 16502 in
    if special && mode == am_indbytex
    then am_indwordx
    else if special && mode == am_indbyte
    then am_indword
    else mode

-- How the choice of a mode ends: with the globals, and a mode where there is one.
pub data Choice : Type 0 where
  chosen : ℕ → Globals → Choice
  rejected : Globals → Choice

-- The switch on sym->addrmode under a forced mode.
unfoldable pub forced_mode : ℕ → ℕ → Option ℕ
forced_mode asked forced =
    if asked == am_indbytex || asked == am_indbytey
    then none
    else if asked == am_byteadr_sp
    then some
        (if forced == am_wordadr || forced == am_wordadr_sp then am_wordadr_sp else am_byteadr_sp)
    else if asked == am_0y
    then some (
        if forced == am_byteadr || forced == am_byteadry
        then am_byteadry
        else if forced == am_wordadr || forced == am_wordadry
        then am_wordadry
        else am_0y)
    else if asked == am_0x
    then some (
        if forced == am_byteadr || forced == am_byteadrx
        then am_byteadrx
        else if forced == am_wordadr || forced == am_wordadrx
        then am_wordadrx
        else am_0x)
    else some forced

abbrev reject_forced : Settings → Globals → Choice
reject_forced set g = rejected (not_resolved set (report illegal_forced_addressing_mode g))

-- if (Mnext >= 0 && Mnext < NUMOC), for Mnext; sym->addrmode is `asked`.
unfoldable pub force : Settings → Mnemonic → ℕ → ℕ → Globals → Option ℕ → Choice
unfolding forced_mode
force set mne asked mode g none = chosen mode g
force set mne asked mode g (some forced) =
    if leb numoc forced then chosen mode g else elim (forced_mode asked forced) [
      | none ↦ reject_forced set g
      | some m ↦ if badcode mne m then reject_forced set g else chosen m g
    ]

-- From the mode of the expression to the one that the mnemonic has.
unfoldable pub legal_mode : Settings → Mnemonic → ℕ → Globals → Choice
unfolding widen indirect_word force
legal_mode set mne asked g =
    let mode = indirect_word set mne (widen cvt_rounds mne asked) in
    if badcode mne mode
    then rejected (not_resolved set (report illegal_addressing_mode g))
    else force set mne asked mode g set.mnext

abbrev is_byte_mode : ℕ → Bool
is_byte_mode m =
    m == am_imm8 || m == am_byteadr || m == am_byteadrx || m == am_byteadry || m == am_byteadr_sp

abbrev is_word_mode : ℕ → Bool
is_word_mode m =
    m == am_imm16
    || m == am_wordadr
    || m == am_wordadrx
    || m == am_wordadry
    || m == am_indword
    || m == am_wordadr_sp

-- byteRequested
abbrev byte_requested : Settings → Bool
byte_requested set = elim set.mnext [ none ↦ false | some m ↦ is_byte_mode m ]

-- The messages about a forced byte mode, and about values outside of what the mode can hold.
unfoldable pub check_operand : Settings → ℕ → ℕ → ℕ → Globals → Globals
check_operand set opsize mode value g0 =
    let g = if byte_requested set && ltb 1 opsize then report address_must_be_lt_100 g0 else g0 in
    if is_word_mode mode && set.strict && ltb 0xFFFF (magnitude value)
    then report address_must_be_lt_10000 g
    else if is_byte_mode mode && is_negative value && ltb 0xFF (magnitude value)
    then report address_must_be_lt_100 g
    else g

-- The modes with a word in place of a byte that the loop takes where Cvt has none.
unfoldable pub word_for_byte : Settings → Mnemonic → ℕ → Symbol → Option ℕ
word_for_byte set mne mode s =
    let large = at_least 256 s.value && not (byte_requested set) in
    if large && mode == am_byteadrx && not (badcode mne am_wordadrx)
    then some am_wordadrx
    else if large && mode == am_byteadry && not (badcode mne am_wordadry)
    then some am_wordadry
    else if large && mode == am_byteadr_sp && not (badcode mne am_wordadr_sp)
    then some am_wordadr_sp
    else none

-- The loop's way out where the mode cannot be widened. A negative operand of AM_IMM8 is cut to a
-- char, of which the low byte is what it was.
unfoldable pub stop_widening : Settings → Mnemonic → ℕ → Symbol → Globals → ℕ × Globals
stop_widening set mne mode s g =
    if unknown s || (mode == am_imm8 && is_negative s.value)
    then (mode, g)
    else elim (word_for_byte set mne mode s) [
      | some m ↦ (m, g)
      | none ↦ (mode, report address_must_be_lt_100 g)
    ]

-- while (opsize > Opsize[addrmode]); each round goes on along Cvt.
unfoldable pub fit : ℕ → Settings → Mnemonic → ℕ → ℕ → Symbol → Globals → ℕ × Globals
unfolding stop_widening
fit zero set mne opsize mode s g = (mode, g)
fit (suc n) set mne opsize mode s g = elim (ltb (opsize_of mode) opsize) [
  | false ↦ (mode, g)
  | true ↦ elim (cvt mode == 0 || badcode mne (cvt mode)) [
    | true ↦ stop_widening set mne mode s g
    | false ↦ fit n set mne opsize (cvt mode) s g
  ]
]
