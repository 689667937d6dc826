-- ===== src/Line/Plain.antt =====
-- Texts whose characters parse of src/main.c takes as they are.
use dasm.Base.{
  map, ℕ, zero, suc, ◌≡◌, refl, ap, Bool, true, false, not, ◌&&◌, and_true, [], ◌∷◌, ◌++◌, Bytes,
  ◌==◌,
}
use dasm.Line.Cleanup.{hard_space}
use dasm.Line.Parse.{soft, space, skip_spaces, marked, read_word, second_word, operands}

-- A character that parse takes as it is wherever it stands in a word.
pub record IsPlain (c : ℕ) : Type 0 where
  pub space : (c == 32) ≡ false
  pub hard : (c == hard_space) ≡ false
  pub equals : (c == b'=') ≡ false
  pub comma : (c == b',') ≡ false
  pub colon : (c == b':') ≡ false
  pub caret : (c == b'^') ≡ false
  pub hash : (c == b'#') ≡ false

abbrev pub AllPlain : Bytes → Type 0
AllPlain [] = Unit {0}
AllPlain (c ∷ s) = IsPlain c × AllPlain s

-- Whether a text has none but such characters.
abbrev is_plain : ℕ → Bool
is_plain c =
    not (c == 32)
    && not (c == hard_space)
    && not (c == b'=')
    && not (c == b',')
    && not (c == b':')
    && not (c == b'^')
    && not (c == b'#')

pub not_true : (b : Bool) → not b ≡ true → b ≡ false
not_true true h = cc
not_true false h = refl

is_plain-IsPlain : (c : ℕ) → is_plain c ≡ true → IsPlain c
is_plain-IsPlain c h =
    let p1 = and_true _ (not (c == b'#')) h in
    let p2 = and_true _ (not (c == b'^')) p1.0 in
    let p3 = and_true _ (not (c == b':')) p2.0 in
    let p4 = and_true _ (not (c == b',')) p3.0 in
    let p5 = and_true _ (not (c == b'=')) p4.0 in
    let p6 = and_true _ (not (c == hard_space)) p5.0 in
    record {
      space = not_true (c == 32) p6.0;
      hard = not_true (c == hard_space) p6.1;
      equals = not_true (c == b'=') p5.1;
      comma = not_true (c == b',') p4.1;
      colon = not_true (c == b':') p3.1;
      caret = not_true (c == b'^') p2.1;
      hash = not_true (c == b'#') p1.1;
    }

unfoldable pub all_plain : Bytes → Bool
all_plain [] = true
all_plain (c ∷ s) = is_plain c && all_plain s

pub all_plain-AllPlain : (s : Bytes) → all_plain s ≡ true → AllPlain s
unfolding all_plain
all_plain-AllPlain [] h = tt
all_plain-AllPlain (c ∷ s) h =
    let p = and_true (is_plain c) (all_plain s) h in
    (is_plain-IsPlain c p.0, all_plain-AllPlain s p.1)

-- The text does not begin with a space.
abbrev pub StartsWord : Bytes → Type 0
StartsWord [] = Unit {0}
StartsWord (c ∷ s) = (c == 32) ≡ false

-- Neither spaces nor hard spaces stand in the text.
unfoldable pub unspaced : Bytes → Bool
unspaced [] = true
unspaced (c ∷ s) = not (c == 32) && not (c == hard_space) && unspaced s

not_space :
    (c : ℕ) (b : Bool) → (not (c == 32) && not (c == hard_space) && b) ≡ true → (c == 32) ≡ false
not_space c b h = not_true (c == 32) (and_true _ (not (c == hard_space)) (and_true _ b h).0).0

not_hard :
    (c : ℕ) (b : Bool)
    → (not (c == 32) && not (c == hard_space) && b) ≡ true
    → (c == hard_space) ≡ false
not_hard c b h =
    not_true (c == hard_space) (and_true _ (not (c == hard_space)) (and_true _ b h).0).1

pub unspaced-StartsWord : (s : Bytes) → unspaced s ≡ true → StartsWord s
unfolding unspaced
unspaced-StartsWord [] h = tt
unspaced-StartsWord (c ∷ s) h = not_space c (unspaced s) h

pub operands-unspaced : (s : Bytes) → unspaced s ≡ true → operands s ≡ s
unfolding operands unspaced
operands-unspaced [] h = refl
operands-unspaced (c ∷ []) h = rw (not_hard c true h) refl
operands-unspaced (c ∷ d ∷ s) h =
    rw (not_space c (unspaced (d ∷ s)) h, not_hard c (unspaced (d ∷ s)) h)
      (ap (λ (r : Bytes). c ∷ r) (operands-unspaced (d ∷ s) (and_true _ (unspaced (d ∷ s)) h).1))

-- A number of spaces.
unfoldable pub spaces : ℕ → Bytes
spaces zero = []
spaces (suc n) = 32 ∷ spaces n

pub skip_spaces-word : (s : Bytes) → StartsWord s → skip_spaces s ≡ s
unfolding skip_spaces
skip_spaces-word [] h = refl
skip_spaces-word (c ∷ s) h = rw (h) refl

pub skip_spaces-spaces : (n : ℕ) (s : Bytes) → StartsWord s → skip_spaces (spaces n ++ s) ≡ s
unfolding skip_spaces spaces
skip_spaces-spaces zero s h = skip_spaces-word s h
skip_spaces-spaces (suc n) s h = skip_spaces-spaces n s h

pub marked-plain : (buf : Bytes) (c : ℕ) (s : Bytes) → IsPlain c → marked buf (c ∷ s) ≡ buf
unfolding marked
marked-plain buf c s h = rw (h.caret, h.hash) refl

read_word-plain : (b s : Bytes) → AllPlain b → read_word (b ++ space ∷ s) ≡ (b, space ∷ s)
unfolding read_word
read_word-plain [] s h = refl
read_word-plain (c ∷ b) s h = rw (read_word-plain b s h.1, h.0.space, h.0.hard) refl

pub second_word-plain :
    (c : ℕ) (b s : Bytes) → AllPlain (c ∷ b) → second_word (c ∷ b ++ space ∷ s) ≡ (c ∷ b, space ∷ s)
unfolding second_word
second_word-plain c b s h = rw (h.0.equals) (read_word-plain (c ∷ b) s h)

-- No hard space stands in the text.
unfoldable pub AllSoft : Bytes → Type 0
AllSoft [] = Unit {0}
AllSoft (c ∷ s) = ((c == hard_space) ≡ false) × AllSoft s

pub soft_same : (s : Bytes) → AllSoft s → map soft s ≡ s
unfolding AllSoft
soft_same [] h = refl
soft_same (c ∷ s) h = rw (h.0) (ap (λ (t : Bytes). c ∷ t) (soft_same s h.1))

pub AllSoft-append : (a b : Bytes) → AllSoft a → AllSoft b → AllSoft (a ++ b)
unfolding AllSoft
AllSoft-append [] b h k = k
AllSoft-append (c ∷ a) b h k = (h.0, AllSoft-append a b h.1 k)

pub plain-AllSoft : (a : Bytes) → AllPlain a → AllSoft a
unfolding AllSoft
plain-AllSoft [] h = tt
plain-AllSoft (c ∷ a) h = (h.0.hard, plain-AllSoft a h.1)

pub spaces-AllSoft : (n : ℕ) → AllSoft (spaces n)
unfolding AllSoft spaces
spaces-AllSoft zero = tt
spaces-AllSoft (suc n) = (refl, spaces-AllSoft n)

pub unspaced-AllSoft : (s : Bytes) → unspaced s ≡ true → AllSoft s
unfolding AllSoft unspaced
unspaced-AllSoft [] h = tt
unspaced-AllSoft (c ∷ s) h =
    (not_hard c (unspaced s) h, unspaced-AllSoft s (and_true _ (unspaced s) h).1)
