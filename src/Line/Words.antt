-- ===== src/Line/Words.antt =====
-- The words of a line in parse of src/main.c, where the label has no arguments.
use dasm.Base.{
  ◌-◌, take, ℕ, zero, suc, ◌+◌, ◌≤◌, ◌<◌, ◌≡◌, refl, sym, ap, ◌∙◌, true, false, [], ◌∷◌, ◌++◌,
  append-nil, append_assoc, Bytes, length, length-append, arith, le→leb,
}
use dasm.Expr.Eval.{Statics}
use dasm.Extension.{findext}
use dasm.Line.Parse.{
  read_on, Labelling, Parsed, space, avbuf_end, label_start, write_label, label_loop, parse_rest,
  parse,
}
use dasm.Run.{ok}
use dasm.State.{Globals}
use dasm.Line.Plain.{
  IsPlain, AllPlain, all_plain, all_plain-AllPlain, unspaced, unspaced-StartsWord,
  operands-unspaced, spaces, skip_spaces-word, skip_spaces-spaces, marked-plain, second_word-plain,
  AllSoft, soft_same, AllSoft-append, plain-AllSoft, spaces-AllSoft, unspaced-AllSoft,
}

abbrev relabelled : Bytes → ℕ → Bytes → Labelling → Labelling
relabelled a n r l = record l { label = a; written = n; read = r }

relabelled_same :
    {a b r t : Bytes} {m n : ℕ} (l : Labelling)
    → a ≡ b
    → m ≡ n
    → r ≡ t
    → relabelled a m r l ≡ relabelled b n t l
relabelled_same {a} {b} {r} {n = n} l h k e =
    ap (λ (m : ℕ). relabelled a m r l) k
    ∙ (ap (λ (s : Bytes). relabelled s n r l) h ∙ ap (λ (u : Bytes). relabelled b n u l) e)

-- The labelling with a text behind it.
abbrev lengthened : Bytes → Labelling → Labelling
lengthened a l = relabelled (l.label ++ a) (l.written + length a) (l.read ++ a) l

write_char :
    (c : ℕ) (l : Labelling)
    → l.written + 1 ≤ avbuf_end
    → write_label (c ∷ []) (read_on (c ∷ []) l) ≡ ok (lengthened (c ∷ []) l)
unfolding write_label
write_char c l h = rw (le→leb (l.written + 1) avbuf_end h) refl

label_loop-plain :
    (a s : Bytes) (n processor : ℕ) (l : Labelling)
    → AllPlain a
    → length a < n
    → l.written + length a ≤ avbuf_end
    → label_loop n processor (a ++ space ∷ s) l ≡ ok (space ∷ s, lengthened a l)
unfolding label_loop
label_loop-plain a s zero processor l h j k = absurd (omega (arith, j))
label_loop-plain [] s (suc n) processor l h j k =
    ap (λ m. ok (space ∷ s, m))
      (relabelled_same l (sym (append-nil l.label)) (omega arith) (sym (append-nil l.read)))
label_loop-plain (c ∷ a) s (suc n) processor l h j k =
    rw (h.0.space, h.0.equals, h.0.colon, h.0.comma, h.0.hard, write_char c l (omega (arith, k)))
      (label_loop-plain a s n processor (lengthened (c ∷ []) l) h.1 (omega (arith, j))
          (omega (arith, k))
        ∙ ap (λ m. ok (space ∷ s, m))
            (relabelled_same l (append_assoc l.label (c ∷ []) a) (omega arith)
              (append_assoc l.read (c ∷ []) a)))

label_start-words :
    (a : Bytes) (i c : ℕ) (b : Bytes)
    → AllPlain a
    → IsPlain c
    → label_start (a ++ (spaces (suc i) ++ c ∷ b)) ≡ a ++ (spaces (suc i) ++ c ∷ b)
unfolding label_start
label_start-words [] i c b h k =
    rw (skip_spaces-spaces (suc i) (c ∷ b) k.space) (marked-plain (spaces (suc i) ++ c ∷ b) c b k)
label_start-words (d ∷ a) i c b h k =
    rw (skip_spaces-word (d ∷ (a ++ (spaces (suc i) ++ c ∷ b))) h.0.space)
      (marked-plain (d ∷ (a ++ (spaces (suc i) ++ c ∷ b))) d (a ++ (spaces (suc i) ++ c ∷ b)) h.0)

-- What parse makes of a line of three words.
abbrev words : Bytes → Bytes → Bytes → Bytes → Statics → Globals → Parsed
words a b c buf st g = record {
  label = a;
  op = findext b;
  str = c;
  buf = buf;
  statics = st;
  globals = g;
}

rest-AllSoft :
    (i j d : ℕ) (b c : Bytes)
    → AllPlain (d ∷ b)
    → unspaced c ≡ true
    → AllSoft (spaces (suc i) ++ (d ∷ b ++ (spaces (suc j) ++ c)))
rest-AllSoft i j d b c h u =
    AllSoft-append (spaces (suc i)) (d ∷ b ++ (spaces (suc j) ++ c)) (spaces-AllSoft (suc i)) (
      AllSoft-append (d ∷ b) (spaces (suc j) ++ c) (plain-AllSoft (d ∷ b) h)
        (AllSoft-append (spaces (suc j)) c (spaces-AllSoft (suc j)) (unspaced-AllSoft c u)))

no_front : (buf : Bytes) → take (length buf - length buf) buf ≡ []
no_front buf = rw (sub_self (length buf)) refl
  where
    sub_self : (n : ℕ) → n - n ≡ 0
    sub_self n = omega arith

parse_rest-words :
    (i j d : ℕ) (b c : Bytes) (l : Labelling)
    → AllPlain (d ∷ b)
    → unspaced c ≡ true
    → l.unset ≡ false
    → l.written + length (d ∷ b) + length c + 2 ≤ avbuf_end
    → parse_rest [] (spaces (suc i) ++ (d ∷ b ++ (spaces (suc j) ++ c))) l
      ≡ ok (
          words l.label
            (d ∷ b)
            c
            (l.read ++ (spaces (suc i) ++ (d ∷ b ++ (spaces (suc j) ++ c))))
            l.statics
            l.globals)
unfolding parse_rest spaces
parse_rest-words i j d b c l h u e k =
    rw
      (
        soft_same (spaces (suc i) ++ (d ∷ b ++ (spaces (suc j) ++ c))) (rest-AllSoft i j d b c h u),
        skip_spaces-spaces (suc i) (d ∷ (b ++ (spaces (suc j) ++ c))) h.0.space,
        second_word-plain d b (spaces j ++ c) h,
        skip_spaces-spaces (suc j) c (unspaced-StartsWord c u),
        operands-unspaced c u,
        e,
        le→leb (l.written + 1) avbuf_end (omega (arith, k)),
        le→leb (l.written + 1 + length (d ∷ b) + 1 + length c) avbuf_end (omega (arith, k)),
      )
      refl

-- The words of a line: of a label, an operation and an operand with spaces between them, parse
-- makes these three words and leaves the line as it was, where no character of the first two has a
-- meaning of its own, the operand has no spaces in it, and Avbuf is large enough. The label may be
-- empty.
pub parse-words :
    (i j processor : ℕ) (a b c : Bytes) (st : Statics) (g : Globals)
    → all_plain a ≡ true
    → all_plain b ≡ true
    → 0 < length b
    → unspaced c ≡ true
    → length a + length b + length c + 3 ≤ avbuf_end
    → parse processor (a ++ (spaces (suc i) ++ (b ++ (spaces (suc j) ++ c)))) st g
      ≡ ok (words a b c (a ++ (spaces (suc i) ++ (b ++ (spaces (suc j) ++ c)))) st g)
unfolding parse spaces
parse-words i j processor a [] c st g p q n u k = absurd (omega (arith, n))
parse-words i j processor a (d ∷ b) c st g p q n u k =
    let ha = all_plain-AllPlain a p in
    let hb = all_plain-AllPlain (d ∷ b) q in
    let start : Labelling = record {
      label = [];
      written = 1;
      read = [];
      unset = false;
      statics = st;
      globals = g;
    } in
    rw
      (
        label_start-words a i d (b ++ (spaces (suc j) ++ c)) ha hb.0,
        no_front (a ++ (spaces (suc i) ++ (d ∷ b ++ (spaces (suc j) ++ c)))),
        label_loop-plain a _
            (suc (length (a ++ (spaces (suc i) ++ (d ∷ b ++ (spaces (suc j) ++ c)))))) processor
            start ha
            (omega (arith, length-append a (spaces (suc i) ++ (d ∷ b ++ (spaces (suc j) ++ c)))))
            (omega (arith, k)),
      )
      (parse_rest-words i j d b c (lengthened a start) hb u refl (omega (arith, k)))
