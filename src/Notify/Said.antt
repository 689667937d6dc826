-- ===== src/Notify/Said.antt =====
-- One message of src/errors.c, kept until the end of a pass or shown at once.
use dasm.Base.{
  ℕ, ◌+◌, ◌≤◌, ◌<◌, ◌≡◌, refl, ap, ◌∙◌, arith, true, false, Bool-cases, List, [], ◌∷◌, ◌++◌, Bytes,
  codes, length, length-append, inl, inr, append_assoc,
}
use dasm.Notify.{
  ErrorFormat, ErrorLevel, debug, info, notice, warning, error, fatal, panic, Notices, Notified,
  returns, mirror, to_stderr, visible_error_level, count_message, vanotify, source_file,
  deferred_append, msg_buf_size, size_limit, level_name, location,
}
use dasm.Notify.Lines.{plain_line, message_line-plain_line, deferred_append-Appended}
use dasm.Sources.{IncFile}
use dasm.Notify.Shown.{
  kept, shown, noted, IsBelowFatal, end_notify-returns, count_message-shown, count_message-kept,
  print-shown, print-kept,
}

-- A message and the files that are read then.
pub record Message : Type 0 where
  pub level : ErrorLevel
  pub information : Bytes
  pub incfiles : List IncFile

abbrev pub line_of : ErrorFormat → Bytes → Message → Bytes
line_of format progname m =
    plain_line format progname (source_file m.incfiles) m.level m.information

line_of-positive :
    (format : ErrorFormat) (progname : Bytes) (m : Message) → 0 < length (line_of format progname m)
line_of-positive format progname m =
    let loc = location format progname (source_file m.incfiles) in
    omega (
      arith,
      length-append (loc ++ (level_name m.level ++ codes ": ")) m.information,
      length-append loc (level_name m.level ++ codes ": "),
      length-append (level_name m.level) (codes ": "),
    )

abbrev pub say : Bytes → Message → Notices → Notified
say progname m = vanotify (λ k. true) progname m.incfiles m.level m.information

-- What a call does with messages that are kept, and with messages that are shown.
pub record Steps (n : Notices) (size : ℕ) (on_kept on_shown : Notified) : Type 0 where
  pub after : Notices
  pub keeps : on_kept ≡ returns (kept after)
  pub shows : on_shown ≡ returns (shown after)
  pub same_stderr : after.stderr ≡ n.stderr
  pub same_format : after.format ≡ n.format
  pub bound : length after.deferred ≤ length n.deferred + size

noted-same :
    (capacity : ℕ) (level : ErrorLevel) (line : Bytes) (n : Notices)
    → ((noted capacity level line n).stderr ≡ n.stderr)
      × ((noted capacity level line n).format ≡ n.format)
      × ((noted capacity level line n).deferred ≡ n.deferred ++ (line ++ 10 ∷ []))
unfolding noted count_message
noted-same capacity debug line n = (refl, refl, refl)
noted-same capacity info line n = (refl, refl, refl)
noted-same capacity notice line n = (refl, refl, refl)
noted-same capacity warning line n = (refl, refl, refl)
noted-same capacity error line n = (refl, refl, refl)
noted-same capacity fatal line n = (refl, refl, refl)
noted-same capacity panic line n = (refl, refl, refl)

say-kept :
    (progname : Bytes) (m : Message) (n : Notices) (capacity : ℕ)
    → IsBelowFatal m.level
    → visible_error_level m.level n ≡ true
    → length (line_of n.format progname m) < msg_buf_size
    → deferred_append (λ k. true) progname (line_of n.format progname m) (kept n)
      ≡ returns (record (kept n) {
        deferred = n.deferred ++ (line_of n.format progname m ++ 10 ∷ []);
        capacity = capacity;
      })
    → say progname m (kept n)
      ≡ returns (kept (noted capacity m.level (line_of n.format progname m) n))
unfolding vanotify noted visible_error_level
say-kept progname m n capacity h v f e =
    rw
      (
        v,
        message_line-plain_line n.format progname (source_file m.incfiles) m.level m.information f,
        print-kept progname m.level (line_of n.format progname m) n capacity
            (line_of-positive n.format progname m) h e,
      )
      (end_notify-returns m.level _ h
        ∙ ap returns (
            count_message-kept m.level (
              mirror (line_of n.format progname m) (record n {
                deferred = n.deferred ++ (line_of n.format progname m ++ 10 ∷ []);
                capacity = capacity;
              }))))

shown-noted :
    (level : ErrorLevel) (line : Bytes) (n : Notices) (capacity : ℕ)
    → count_message level (mirror line (to_stderr (line ++ 10 ∷ []) (shown n)))
      ≡ shown (noted capacity level line n)
unfolding noted
shown-noted level line n capacity =
    ap (λ (t : Bytes). count_message level (mirror line (record (shown n) { stderr = t })))
      (append_assoc n.stderr n.deferred (line ++ 10 ∷ []))
    ∙ count_message-shown level
        (mirror line (record n { deferred = n.deferred ++ (line ++ 10 ∷ []); capacity = capacity }))

say-shown :
    (progname : Bytes) (m : Message) (n : Notices) (capacity : ℕ)
    → IsBelowFatal m.level
    → visible_error_level m.level n ≡ true
    → length (line_of n.format progname m) < msg_buf_size
    → say progname m (shown n)
      ≡ returns (shown (noted capacity m.level (line_of n.format progname m) n))
unfolding vanotify noted visible_error_level
say-shown progname m n capacity h v f =
    rw
      (
        v,
        message_line-plain_line n.format progname (source_file m.incfiles) m.level m.information f,
        print-shown progname m.level (line_of n.format progname m) n
            (line_of-positive n.format progname m),
      )
      (end_notify-returns m.level _ h
        ∙ ap returns (shown-noted m.level (line_of n.format progname m) n capacity))

-- A message that is not visible.
say_hidden :
    (progname : Bytes) (m : Message) (n : Notices)
    → visible_error_level m.level n ≡ false
    → say progname m n ≡ returns n
unfolding vanotify
say_hidden progname m n h = rw (h) refl

pub say-Steps :
    (progname : Bytes) (m : Message) (n : Notices)
    → IsBelowFatal m.level
    → length (line_of n.format progname m) < msg_buf_size
    → length n.deferred + msg_buf_size + 2 < size_limit
    → Steps n msg_buf_size (say progname m (kept n)) (say progname m (shown n))
unfolding visible_error_level
say-Steps progname m n h f l = elim (Bool-cases (visible_error_level m.level n)) [
  | inr v ↦ record {
    after = n;
    keeps = say_hidden progname m (kept n) v;
    shows = say_hidden progname m (shown n) v;
    same_stderr = refl;
    same_format = refl;
    bound = omega arith;
  }
  | inl v ↦
      let line = line_of n.format progname m in
      let a = deferred_append-Appended progname line (kept n) (omega (arith, l, f)) in
      let same = noted-same a.capacity m.level line n in
      record {
        after = noted a.capacity m.level line n;
        keeps = say-kept progname m n a.capacity h v f a.result;
        shows = say-shown progname m n a.capacity h v f;
        same_stderr = same.0;
        same_format = same.1;
        bound = omega (
          arith,
          f,
          ap (λ (t : Bytes). length t) same.2,
          length-append n.deferred (line ++ 10 ∷ []),
          length-append line (10 ∷ []),
        );
      }
]
