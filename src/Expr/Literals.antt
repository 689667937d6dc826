-- ===== src/Expr/Literals.antt =====
-- pushhex to pushstr of src/exp.c: the value of a literal, and what stands behind it.
use dasm.Base.{
  ℕ, ◌+◌, ◌-◌, ◌*◌, ◌%◌, Bool, ◌&&◌, ◌||◌, Option, none, some, [], ◌∷◌, Bytes, ltb, leb, ◌==◌,
  if◌then◌else◌,
}
use dasm.Word.{word_size}

abbrev between : ℕ → ℕ → ℕ → Bool
between lo hi c = leb lo c && leb c hi

unfoldable pub hex_digit : ℕ → Option ℕ
hex_digit c =
    if between b'0' b'9' c
    then some (c - b'0')
    else if between b'a' b'f' c || between b'A' b'F' c
    then some (c % 32 + 9)
    else none

unfoldable pub oct_digit : ℕ → Option ℕ
oct_digit c = if between b'0' b'7' c then some (c - b'0') else none

unfoldable pub dec_digit : ℕ → Option ℕ
dec_digit c = if between b'0' b'9' c then some (c - b'0') else none

unfoldable pub bin_digit : ℕ → Option ℕ
bin_digit c = if c == b'0' || c == b'1' then some (c - b'0') else none

-- The loop of each of the four: val = val * radix + digit, in a long. Where that overflows, which C
-- leaves undefined, the model wraps around; the theorems on numbers stay below it.
unfoldable pub scan_value : (ℕ → Option ℕ) → ℕ → ℕ → Bytes → ℕ
scan_value digit radix val [] = val
scan_value digit radix val (c ∷ s) = elim (digit c) [
  | some d ↦ scan_value digit radix ((val * radix + d) % word_size) s
  | none ↦ val
]

unfoldable pub scan_rest : (ℕ → Option ℕ) → Bytes → Bytes
scan_rest digit [] = []
scan_rest digit (c ∷ s) = elim (digit c) [ some d ↦ scan_rest digit s | none ↦ c ∷ s ]

-- (long)*str: char is signed.
unfoldable pub char_value : ℕ → ℕ
char_value c = if ltb c 128 then c else word_size - 256 + c

-- The string behind its closing quote.
unfoldable pub after_quote : Bytes → Bytes
after_quote [] = []
after_quote (c ∷ s) = if c == b'"' then s else after_quote s

-- The characters of a symbol, in pushsymbol.
unfoldable pub is_symbol_char : ℕ → Bool
is_symbol_char c =
    c == b'_'
    || c == b'.'
    || between b'a' b'z' c
    || c == b'@'
    || c == b'{'
    || c == b'}'
    || between b'A' b'Z' c
    || between b'0' b'9' c

unfoldable pub symbol_name : Bytes → Bytes
unfolding is_symbol_char
symbol_name [] = []
symbol_name (c ∷ s) = if is_symbol_char c then c ∷ symbol_name s else []

-- IsAlphaNum
unfoldable pub is_alpha_num : ℕ → Bool
is_alpha_num c = between b'a' b'z' c || between b'A' b'Z' c || between b'0' b'9' c
