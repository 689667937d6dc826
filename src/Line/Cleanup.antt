-- ===== src/Line/Cleanup.antt =====
-- cleanup of src/main.c behind the comments: blanks, quoted characters and the arguments of macros.
use dasm.Base.{
  ℕ, zero, suc, ◌+◌, ◌*◌, Bool, not, ◌&&◌, ◌||◌, Option, none, some, List, [], ◌∷◌, ◌++◌, Bytes,
  length, ltb, leb, ◌==◌, if◌then◌else◌,
}
use mathlib.Core.List.{reverse}
use mathlib.Core.Option
use dasm.Base.Decimal.{digits_value}
use dasm.Errors.{syntax_error, not_enough_arguments_passed_to_macro}
use dasm.Line.Comments.{comments, max_line}
use dasm.Run.{Run, ok, panicked, undefined, ◌>>=◌}
use dasm.State.{Globals, report}

abbrev space : ℕ
space = 32

abbrev tab : ℕ
tab = 9

-- A quoted space, which parse turns into a space again.
abbrev pub hard_space : ℕ
hard_space = 0x80

-- atoi, none for a number below 0
skip_blanks : Bytes → Bytes
skip_blanks [] = []
skip_blanks (c ∷ s) =
    let r = skip_blanks s in if c == space || leb 9 c && leb c 13 then r else c ∷ s

unfoldable pub atoi : Bytes → Option ℕ
unfolding skip_blanks digits_value
atoi str = signed (skip_blanks str)
  where
    signed : Bytes → Option ℕ
    signed [] = some 0
    signed (c ∷ s) =
        if c == b'-'
        then (if digits_value 0 s == 0 then some 0 else none)
        else if c == b'+'
        then some (digits_value 0 s)
        else some (digits_value 0 (c ∷ s))

-- The argument of a macro with this number.
unfoldable pub find_arg : ℕ → List Bytes → Option Bytes
find_arg n [] = none
find_arg zero (a ∷ others) = some a
find_arg (suc n) (a ∷ others) = find_arg n others

-- Behind a single quote a blank, or the end of the line, is a hard space.
unfoldable pub quoted_char : Bytes → Bytes × Bytes
quoted_char [] = (hard_space ∷ [], [])
quoted_char (c ∷ s) =
    if c == 10 || c == 13
    then (hard_space ∷ [], [])
    else if c == tab || c == space
    then (hard_space ∷ [], s)
    else (c ∷ [], s)

-- The text between double quotes, with hard spaces, and what follows it; none if it has no end.
unfoldable pub quoted_text : Bytes → Bytes × Option Bytes
quoted_text [] = ([], none)
quoted_text (c ∷ s) =
    let (a, r) = quoted_text s in
    if c == b'"' then (c ∷ [], some s) else ((if c == space then hard_space else c) ∷ a, r)

-- What is kept of a line: the characters in front of `str`, the last one first, without blanks.
unfoldable pub trimmed : Bytes → Bytes
trimmed [] = []
trimmed (c ∷ kept) = let r = trimmed kept in if c == space then r else reverse (c ∷ kept)

-- The braces around the number of an argument, and what follows them.
split_brace : Bytes → Option (Bytes × Bytes)
split_brace [] = none
split_brace (c ∷ s) =
    let rest = split_brace s in
    if c == b'}' then some (c ∷ [], s) else Option.map (λ (p : Bytes × Bytes). (c ∷ p.0, p.1)) rest

-- What a step of the loop does: it goes on with the characters that are kept and those to come, or the
-- line ends.
pub data Scan : Type 0 where
  goes_on : Bytes → Bytes → Globals → Scan
  line_ends : Bytes → Globals → Scan
  too_long : Scan

-- The argument of a number that atoi reads.
arg_at : Option ℕ → List Bytes → Option Bytes
unfolding find_arg
arg_at none args = none
arg_at (some n) args = find_arg n args

-- `{n}`: the argument is read in place of the braces.
unfoldable pub brace : List Bytes → Bytes → Bytes → Globals → Scan
unfolding split_brace atoi arg_at
brace args kept s g = elim (split_brace s) [
  | none ↦ line_ends (reverse s ++ b'{' ∷ kept) g
  | some (number, after) ↦ elim (arg_at (atoi number) args) [
    | none ↦
        line_ends (reverse number ++ b'{' ∷ kept) (report not_enough_arguments_passed_to_macro g)
    | some text ↦
        if ltb max_line (length kept + length text + length after + 1)
        then too_long
        else goes_on kept (text ++ after) g
  ]
]

-- The switch on a character; in the lines of a macro that is defined braces are left.
unfoldable pub scan_char : Bool → List Bytes → Bytes → ℕ → Bytes → Globals → Scan
unfolding quoted_char quoted_text brace
scan_char disable args kept c s g =
    if c == b';' || c == 13 || c == 10
    then line_ends kept g
    else if c == tab
    then goes_on (space ∷ kept) s g
    else if c == 39
    then (let (a, r) = quoted_char s in goes_on (a ++ c ∷ kept) r g)
    else if c == b'"'
    then (let (a, r) = quoted_text s in
        elim r [
          | some after ↦ goes_on (reverse a ++ c ∷ kept) after g
          | none ↦ line_ends (reverse a ++ c ∷ kept) (report syntax_error g)
        ])
    else if c == b'{' && not disable
    then brace args kept s g
    else goes_on (c ∷ kept) s g

-- The loop. An argument is scanned in its turn, so that one which holds its own number in braces would
-- be read without an end; the fuel is there for those.
unfoldable pub scan : ℕ → Bool → List Bytes → Bytes → Bytes → Globals → Run (Bytes × Globals)
unfolding scan_char trimmed
scan zero disable args kept str g = undefined
scan (suc n) disable args kept [] g = ok (trimmed kept, g)
scan (suc n) disable args kept (c ∷ s) g = elim (scan_char disable args kept c s g) [
  | goes_on kept' s' g' ↦ scan n disable args kept' s' g'
  | line_ends kept' g' ↦ ok (trimmed kept', g')
  | too_long ↦ panicked
]

-- The number of rounds that the longest line has if no argument holds another one's number.
abbrev pub scan_rounds : ℕ
scan_rounds = max_line * max_line

-- What is left of a line, and mlflag.
unfoldable pub cleanup : Bool → List Bytes → Bool → Bytes → Globals → Run (Bool × Bytes × Globals)
unfolding comments scan
cleanup disable args mlflag buf g = do
  (mlflag', line, h) ← comments mlflag buf g
  (text, k) ← scan scan_rounds disable args [] line h
  ok (mlflag', text, k)
