-- ===== src/Notify/Shown.antt =====
-- A line of src/errors.c that is kept until the end of a pass, and the same line shown at once.
use dasm.Base.{
  ℕ, ◌<◌, ◌≡◌, refl, arith, true, false, Bool-cases, [], ◌∷◌, ◌++◌, Bytes, length, leb, lt→leb, inl,
  inr,
}
use dasm.Notify.{
  ErrorLevel, debug, info, notice, warning, error, fatal, panic, level_number, Notices, returns,
  mirror, to_stderr, print_error_message, count_message, end_notify, deferred_append,
}

-- The same messages, kept.
abbrev pub kept : Notices → Notices
kept n = record n { use_deferred = true }

-- The same messages, shown on stderr.
abbrev pub shown : Notices → Notices
shown n = record n {
  use_deferred = false;
  stderr = n.stderr ++ n.deferred;
  deferred = [];
  capacity = 0;
}

-- A line, counted and put in the buffer.
unfoldable pub noted : ℕ → ErrorLevel → Bytes → Notices → Notices
noted capacity level line n =
    count_message level
      (mirror line (record n { deferred = n.deferred ++ (line ++ 10 ∷ []); capacity = capacity }))

-- Below ERRORLEVEL_FATAL
abbrev pub IsBelowFatal : ErrorLevel → Type 0
IsBelowFatal level = level_number level < 5

pub end_notify-returns :
    (level : ErrorLevel) (n : Notices) → IsBelowFatal level → end_notify level n ≡ returns n
unfolding end_notify level_number
end_notify-returns debug n h = refl
end_notify-returns info n h = refl
end_notify-returns notice n h = refl
end_notify-returns warning n h = refl
end_notify-returns error n h = refl
end_notify-returns fatal n h = refl
end_notify-returns panic n h = absurd (omega (arith, h))

pub count_message-shown :
    (level : ErrorLevel) (n : Notices)
    → count_message level (shown n) ≡ shown (count_message level n)
unfolding count_message
count_message-shown debug n = refl
count_message-shown info n = refl
count_message-shown notice n = refl
count_message-shown warning n = refl
count_message-shown error n = refl
count_message-shown fatal n = refl
count_message-shown panic n = refl

pub count_message-kept :
    (level : ErrorLevel) (n : Notices) → count_message level (kept n) ≡ kept (count_message level n)
unfolding count_message
count_message-kept debug n = refl
count_message-kept info n = refl
count_message-kept notice n = refl
count_message-kept warning n = refl
count_message-kept error n = refl
count_message-kept fatal n = refl
count_message-kept panic n = refl

-- One line on stderr, and in the buffer.
pub print-shown :
    (progname : Bytes) (level : ErrorLevel) (line : Bytes) (n : Notices)
    → 0 < length line
    → print_error_message (λ k. true) progname level line (shown n)
      ≡ returns (mirror line (to_stderr (line ++ 10 ∷ []) (shown n)))
unfolding print_error_message
print-shown progname level [] n h = absurd (omega (arith, h))
print-shown progname level (c ∷ s) n h = elim (Bool-cases (leb 5 (level_number level))) [
  | inl k ↦ rw (k) refl
  | inr k ↦ rw (k) refl
]

pub print-kept :
    (progname : Bytes) (level : ErrorLevel) (line : Bytes) (n : Notices) (capacity : ℕ)
    → 0 < length line
    → IsBelowFatal level
    → deferred_append (λ k. true) progname line (kept n)
      ≡ returns
          (record (kept n) { deferred = n.deferred ++ (line ++ 10 ∷ []); capacity = capacity })
    → print_error_message (λ k. true) progname level line (kept n)
      ≡ returns (
          mirror line
            (kept (record n { deferred = n.deferred ++ (line ++ 10 ∷ []); capacity = capacity })))
unfolding print_error_message
print-kept progname level [] n capacity h k e = absurd (omega (arith, h))
print-kept progname level (c ∷ s) n capacity h k e = rw (lt→leb 5 (level_number level) k, e) refl
