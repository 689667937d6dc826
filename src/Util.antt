-- ===== src/Util.antt =====
-- src/util.c. A string is the characters in front of its zero. An assertion demands buffers of a
-- size above 0.
pub mod Pool
pub mod Strings
use dasm.Base.{
  ℕ, zero, suc, ◌+◌, ◌-◌, ◌*◌, ◌%◌, ◌^◌, Bool, true, false, ◌||◌, ◌&&◌, List, [], ◌∷◌, ◌++◌, map,
  Bytes, codes, length, Option, none, some, ltb, leb, ◌==◌, if◌then◌else◌, same_bytes,
}
use dasm.Run.{Run, ok, panicked}

-- The copying loops of strlcpy and strlcat, where there is room for `n` characters with the zero.
unfoldable pub copy_fitting : ℕ → Bytes → Bytes
copy_fitting n [] = []
copy_fitting n (c ∷ s) = let r = copy_fitting (n - 1) s in if leb n 1 then [] else c ∷ r

-- The string that strlcat leaves in `dst`, and what it returns.
unfoldable pub strlcat : Bytes → Bytes → ℕ → Bytes × ℕ
unfolding copy_fitting
strlcat dst src size =
    if leb size (length dst)
    then (dst, size + length src)
    else (dst ++ copy_fitting (size - length dst) src, length dst + length src)

unfoldable pub strlcpy : Bytes → ℕ → Bytes × ℕ
unfolding copy_fitting
strlcpy src size = (copy_fitting size src, length src)

-- tolower and toupper of the C locale
abbrev tolower : ℕ → ℕ
tolower c = if leb 65 c && leb c 90 then c + 32 else c

abbrev toupper : ℕ → ℕ
toupper c = if leb 97 c && leb c 122 then c - 32 else c

unfoldable pub strlower : Bytes → ℕ → Bytes × ℕ
unfolding strlcpy
strlower src size = let (dst, result) = strlcpy src size in (map tolower dst, result)

unfoldable pub strupper : Bytes → ℕ → Bytes × ℕ
unfolding strlcpy
strupper src size = let (dst, result) = strlcpy src size in (map toupper dst, result)

-- isspace of the C locale
abbrev pub isspace : ℕ → Bool
isspace c = c == 32 || leb 9 c && leb c 13

-- How many characters are no space.
unfoldable pub count_needed : Bytes → ℕ
count_needed [] = 0
count_needed (c ∷ s) = let r = count_needed s in if isspace c then r else suc r

-- The loop that copies, with room for `n` characters with the zero.
unfoldable pub copy_stripped : ℕ → Bytes → Bytes
copy_stripped n [] = []
copy_stripped n (c ∷ s) =
    let skipped = copy_stripped n s in
    let copied = copy_stripped (n - 1) s in
    if leb n 1 then [] else if isspace c then skipped else c ∷ copied

unfoldable pub strip_whitespace : Bytes → ℕ → Bytes × ℕ
unfolding count_needed copy_stripped
strip_whitespace src size = (copy_stripped size src, count_needed src)

-- MAX_SYM_LEN
abbrev pub max_sym_len : ℕ
max_sym_len = 1024

-- A name that does not fit fails an assertion.
unfoldable pub match_either_case : Bytes → Bytes → Run Bool
unfolding strlower strupper
match_either_case string either =
    let (lower, res) = strlower either max_sym_len in
    let (upper, again) = strupper either max_sym_len in
    if leb max_sym_len res
    then panicked
    else ok (same_bytes string lower || same_bytes string upper)

-- unsigned int
abbrev uint_size : ℕ
uint_size = 2 ^ 32

-- The loop of hash_string; a character of the upper half is negative as a char.
abbrev char_uint : ℕ → ℕ
char_uint c = if leb 128 c then uint_size - 256 + c else c

hash_from : ℕ → Bytes → ℕ → ℕ
hash_from hash string zero = hash
hash_from hash [] (suc n) = hash
hash_from hash (c ∷ s) (suc n) = hash_from ((hash * 32 + hash + char_uint c) % uint_size) s n

-- The assertions come first.
unfoldable pub hash_string : Bytes → ℕ → Run ℕ
unfolding hash_from
hash_string string length' =
    if length' == 0
    then panicked
    else if ltb (length string) length'
    then panicked
    else ok (hash_from 5381 string length')

-- What stands behind the last separator of a path.
after_last : ℕ → Bytes → Option Bytes
after_last sep [] = none
after_last sep (c ∷ s) = found (after_last sep s)
  where
    found : Option Bytes → Option Bytes
    found (some t) = some t
    found none = if c == sep then some s else none

-- __dasm_progname from the name and DASM_PATH_SEPARATOR
unfoldable pub setprogname : ℕ → Bytes → Option Bytes
unfolding after_last
setprogname sep name = elim (after_last sep name) [ some t ↦ some t | none ↦ some name ]

unfoldable pub getprogname : Option Bytes → Bytes
getprogname none = codes "(unknown progname)"
getprogname (some name) = name
