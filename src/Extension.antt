-- ===== src/Extension.antt =====
-- findext of src/main.c: the extension of an opcode, as in LDA.w.
use dasm.Base.{ℕ, ◌||◌, Option, none, some, [], ◌∷◌, Bytes, peek, drop, bit_or, ◌==◌, if◌then◌else◌}
use dasm.Modes.{
  am_imp, am_byteadr, am_byteadrx, am_byteadry, am_wordadr, am_wordadrx, am_wordadry, am_rel,
  am_indword, am_0x, am_0y, am_bitmod, am_bitbramod, am_long, am_bss, am_other_endian,
}

-- `c | 0x20`
abbrev small : ℕ → ℕ
small c = bit_or c 32

-- The byte offset of the extension: the text behind the first dot, if there is one.
unfoldable pub split_dot : Bytes → Bytes × Option Bytes
split_dot [] = ([], none)
split_dot (c ∷ s) =
    let (front, ext) = split_dot s in if c == b'.' then ([], some s) else (c ∷ front, ext)

-- The switch of findext; the second argument is Mnext where no case applies, -1 in the source.
unfoldable pub extension_mode : Bytes → Option ℕ
extension_mode ext =
    let c = small (peek ext) in
    let d = small (peek (drop 1 ext)) in
    if c == b's'
    then some am_other_endian
    else if c == b'0' || c == b'i'
    then (if d == b'x'
        then some am_0x
        else if d == b'y'
        then some am_0y
        else if d == b'n'
        then some am_indword
        else some am_imp)
    else if c == b'd' || c == b'b' || c == b'z'
    then (if d == b'x'
        then some am_byteadrx
        else if d == b'y'
        then some am_byteadry
        else if d == b'i'
        then some am_bitmod
        else if d == b'b'
        then some am_bitbramod
        else some am_byteadr)
    else if c == b'e' || c == b'w' || c == b'a'
    then (if d == b'x'
        then some am_wordadrx
        else if d == b'y'
        then some am_wordadry
        else some am_wordadr)
    else if c == b'l'
    then some am_long
    else if c == b'r'
    then some am_rel
    else if c == b'u'
    then some am_bss
    else none

-- The string that is left at `str`, Extstr and Mnext; `none` is NULL, and -1.
pub record Extension : Type 0 where
  pub opcode : Bytes
  pub extstr : Option Bytes
  pub mnext : Option ℕ

unfoldable pub findext : Bytes → Extension
unfolding split_dot extension_mode
findext str =
    let (front, ext) = split_dot str in
    if peek str == b'.' then record { opcode = str; extstr = none; mnext = none } else record {
      opcode = front;
      extstr = ext;
      mnext = elim ext [ none ↦ none | some e ↦ extension_mode e ];
    }
