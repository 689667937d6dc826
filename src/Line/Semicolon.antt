-- ===== src/Line/Semicolon.antt =====
-- What cleanup of src/main.c makes of a line with a comment behind a semicolon.
use dasm.Base.{ℕ, ◌≡◌, Bool, true, false, not, ◌&&◌, Option, List, [], ◌∷◌, Bytes, ◌==◌}
use mathlib.Core.Option
use dasm.Line.Comments.{Round}

-- A character that cleanup leaves as it is; `/` may begin or end a comment.
pub record IsCalm (c : ℕ) : Type 0 where
  pub semicolon : (c == b';') ≡ false
  pub slash : (c == b'/') ≡ false
  pub newline : (c == 10) ≡ false
  pub return : (c == 13) ≡ false
  pub tab : (c == 9) ≡ false
  pub quote : (c == 39) ≡ false
  pub double : (c == b'"') ≡ false
  pub brace : (c == b'{') ≡ false

abbrev pub AllCalm : Bytes → Type 0
AllCalm [] = Unit {0}
AllCalm (c ∷ s) = IsCalm c × AllCalm s

-- Whether a text has none but such characters.
abbrev pub is_calm : ℕ → Bool
is_calm c =
    not (c == b';')
    && not (c == b'/')
    && not (c == 10)
    && not (c == 13)
    && not (c == 9)
    && not (c == 39)
    && not (c == b'"')
    && not (c == b'{')

unfoldable pub all_calm : Bytes → Bool
all_calm [] = true
all_calm (c ∷ s) = is_calm c && all_calm s

abbrev closed : Bytes → Round
closed line = record { mlflag = false; line = line; more = false }
