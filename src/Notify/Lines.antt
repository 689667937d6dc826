-- ===== src/Notify/Lines.antt =====
-- The line of a message in src/errors.c, and the growth of the buffer of deferred messages.
use dasm.Base.{
  ℕ, ◌+◌, ◌*◌, ◌%◌, ◌≤◌, ◌<◌, ◌≡◌, refl, arith, true, false, if-cases, [], ◌∷◌, ◌++◌, Bytes, codes,
  length, length-append, ltb, ltb→lt, lt→leb, le→ltb, ◌==◌, if◌then◌else◌, inr,
}
use dasm.Notify.{
  ErrorFormat, ErrorLevel, debug, info, notice, warning, error, fatal, panic, Notices, Notified,
  returns, append_part, location, level_name, message_line, msg_buf_size, size_limit, new_capacity,
  deferred_append, write_deferred,
}
use dasm.Sources.{IncFile}
use dasm.Util.Strings.{strlcat-append}
use mathlib.Core.Option.{Option}

append_part-fits :
    (own_size : ℕ) (own whole part buffer : Bytes)
    → length part < own_size
    → length buffer + length part < msg_buf_size
    → append_part own_size own whole part (inr buffer) ≡ inr (buffer ++ part)
unfolding append_part
append_part-fits own_size own whole part buffer h k =
    rw
      (
        strlcat-append buffer part msg_buf_size k,
        lt→leb own_size (length part) h,
        lt→leb msg_buf_size (length buffer + length part) k,
      )
      refl

-- The parts of a line without limits.
abbrev pub plain_line : ErrorFormat → Bytes → Option IncFile → ErrorLevel → Bytes → Bytes
plain_line format progname file level information =
    (location format progname file ++ (level_name level ++ codes ": ")) ++ information

level_name-short : (level : ErrorLevel) → length (level_name level ++ codes ": ") < 64
unfolding level_name
level_name-short debug = omega arith
level_name-short info = omega arith
level_name-short notice = omega arith
level_name-short warning = omega arith
level_name-short error = omega arith
level_name-short fatal = omega arith
level_name-short panic = omega arith

-- A message whose parts fit the buffer is put together from all of them.
pub message_line-plain_line :
    (format : ErrorFormat) (progname : Bytes) (file : Option IncFile) (level : ErrorLevel)
    (information : Bytes)
    → length (plain_line format progname file level information) < msg_buf_size
    → message_line format progname file level information
      ≡ inr (plain_line format progname file level information)
unfolding message_line
message_line-plain_line format progname file level information h =
    let loc = location format progname file in
    let name = level_name level ++ codes ": " in
    let lengths = length-append (loc ++ name) information in
    let front = length-append loc name in
    rw
      (
        append_part-fits msg_buf_size (codes "Buffer overflow in append_location!")
            (codes "Buffer overflow assembling error message (location)!") loc []
            (omega (arith, h, lengths, front)) (omega (arith, h, lengths, front)),
        append_part-fits 64 (codes "Buffer overflow in append_level!")
            (codes "Buffer overflow assembling error message (level)!") name loc
            (level_name-short level) (omega (arith, h, lengths, front)),
      )
      (append_part-fits msg_buf_size (codes "Buffer overflow in append_information!")
        (codes "Buffer overflow assembling error message (body)!") information (loc ++ name)
        (omega (arith, h, lengths)) (omega (arith, h, lengths)))

-- The message, a line feed and a zero fit the buffer that deferred_append writes to.
new_capacity-fits : (capacity need : ℕ) → need ≤ new_capacity capacity need
unfolding new_capacity
new_capacity-fits capacity need =
    let doubled = if capacity == 0 then 16384 else (capacity * 2) % size_limit in
    if-cases (λ (c : ℕ). need ≤ c) (ltb doubled need) (λ h. omega arith) (λ h. ground (arith, h))

write_deferred-fits :
    (message : Bytes) (n : Notices)
    → length n.deferred + length message + 2 ≤ n.capacity
    → write_deferred message n
      ≡ returns (record n { deferred = n.deferred ++ (message ++ 10 ∷ []) })
unfolding write_deferred
write_deferred-fits message n h =
    rw (le→ltb n.capacity (length n.deferred + length message + 2) h) refl

mod_small : (n : ℕ) → n < size_limit → n % size_limit ≡ n
mod_small n h = omega (arith, h)

room : (capacity need : ℕ) {k : ℕ} → ltb capacity need ≡ false → need ≡ k → k ≤ capacity
room capacity need h e = ground (arith, h, e)

-- What the buffer holds behind a message: the text that it had, the message and a line feed.
pub record Appended (message : Bytes) (n : Notices) (m : Notified) : Type 0 where
  pub capacity : ℕ
  pub grows : n.capacity ≤ capacity
  pub fits : length n.deferred + length message + 2 ≤ capacity
  pub result :
      m ≡ returns (record n { deferred = n.deferred ++ (message ++ 10 ∷ []); capacity = capacity })

-- deferred_append never writes behind the end of its buffer: where realloc finds memory, the message
-- and a line feed follow the text, and the capacity does not shrink.
pub deferred_append-Appended :
    (progname message : Bytes) (n : Notices)
    → length n.deferred + length message + 2 < size_limit
    → Appended message n (deferred_append (λ k. true) progname message n)
unfolding deferred_append
deferred_append-Appended progname message n h =
    let need = (length n.deferred + length message + 2) % size_limit in
    let same = mod_small (length n.deferred + length message + 2) h in
    let c = new_capacity n.capacity need in
    let fits = new_capacity-fits n.capacity need in
    if-cases (Appended message n) (ltb n.capacity need)
      (λ k. record {
        capacity = c;
        grows = omega (arith, fits, ltb→lt n.capacity need k);
        fits = omega (arith, fits, same);
        result =
            write_deferred-fits message (record n { capacity = c }) (omega (arith, fits, same));
      })
      (λ k. record {
        capacity = n.capacity;
        grows = omega arith;
        fits = room n.capacity need k same;
        result = write_deferred-fits message n (room n.capacity need k same);
      })
