-- ===== src/Notify.antt =====
-- src/errors.c: messages by their level, shown at once or kept until the end of a pass. What vsnprintf
-- makes of a message's arguments, and whether realloc finds memory, are parameters.
pub mod Shown
pub mod Said
pub mod Deferred
pub mod Lines
use dasm.Base.{
  ℕ, zero, suc, ◌+◌, ◌-◌, ◌*◌, ◌%◌, ◌^◌, Bool, true, false, not, ◌&&◌, ◌||◌, Option, none, some,
  List, [], ◌∷◌, ◌++◌, Bytes, codes, length, map, ltb, leb, ◌==◌, if◌then◌else◌, ◌⊎◌, inl, inr,
}
use dasm.Base.Decimal.{decimal}
use dasm.Base.Int.{ℤ, pos, negsuc}
use dasm.Sources.{IncFile}
use dasm.Util.{strlcat}

-- error_format_t and error_level_t, with their numbers.
pub data ErrorFormat : Type 0 where
  woe dillon gnu : ErrorFormat

pub data ErrorLevel : Type 0 where
  debug info notice warning error fatal panic : ErrorLevel

unfoldable pub level_number : ErrorLevel → ℕ
level_number debug = 0
level_number info = 1
level_number notice = 2
level_number warning = 3
level_number error = 4
level_number fatal = 5
level_number panic = 6

unfoldable pub valid_error_format : ℤ → Bool
valid_error_format (pos n) = ltb n 3
valid_error_format (negsuc n) = false

unfoldable pub valid_error_level : ℤ → Bool
valid_error_level (pos n) = ltb n 7
valid_error_level (negsuc n) = false

unfoldable pub verbosity_to_error_level : ℤ → ErrorLevel
verbosity_to_error_level (negsuc n) = debug
verbosity_to_error_level (pos n) =
    if n == 0 then warning else if n == 1 then notice else if n == 2 then info else debug

-- The static variables: F_error_format, F_error_level, the counts, use_deferred, the text of
-- deferred_buf with its capacity. What went to stderr, and to the listing if there is one.
pub record Notices : Type 0 where
  pub format : ErrorFormat
  pub level : ErrorLevel
  pub fatals : ℕ
  pub errors : ℕ
  pub warnings : ℕ
  pub notices : ℕ
  pub use_deferred : Bool
  pub deferred : Bytes
  pub capacity : ℕ
  pub stderr : Bytes
  pub listing : Option Bytes

unfoldable pub visible_error_level : ErrorLevel → Notices → Bool
unfolding level_number
visible_error_level level n = leb (level_number n.level) (level_number level)

abbrev pub reset_error_counts : Notices → Notices
reset_error_counts n = record n { fatals = 0; errors = 0; warnings = 0; notices = 0 }

abbrev pub clear_deferred_errors : Notices → Notices
clear_deferred_errors n = record n { deferred = [] }

-- What is written to the file, and what is left.
abbrev pub flush_deferred_errors : Notices → Bytes × Notices
flush_deferred_errors n = (n.deferred, clear_deferred_errors n)

-- How a call ends: it returns; it ends the program; or it writes behind the end of a buffer.
pub data Notified : Type 0 where
  returns : Notices → Notified
  exits : Notices → Notified
  overrun : Notified

abbrev pub to_stderr : Bytes → Notices → Notices
to_stderr text n = record n { stderr = n.stderr ++ text }

unfoldable pub internal_panic : Bytes → Bytes → Notices → Notified
internal_panic progname message n = exits (
    to_stderr
      (10 ∷ progname ++ codes ": FATAL INTERNAL PANIC (errors.c): " ++ message ++ 10 ∷ 10 ∷ []) n)

-- size_t
abbrev pub size_limit : ℕ
size_limit = 2 ^ 64

-- The capacity to grow to, for `need` bytes.
unfoldable pub new_capacity : ℕ → ℕ → ℕ
new_capacity capacity need =
    let doubled = if capacity == 0 then 16384 else (capacity * 2) % size_limit in
    if ltb doubled need then need else doubled

-- The message, a line feed and a zero are written behind the text.
unfoldable pub write_deferred : Bytes → Notices → Notified
write_deferred message n =
    if ltb n.capacity (length n.deferred + length message + 2)
    then overrun
    else returns (record n { deferred = n.deferred ++ (message ++ 10 ∷ []) })

unfoldable pub deferred_append : (ℕ → Bool) → Bytes → Bytes → Notices → Notified
unfolding new_capacity write_deferred internal_panic
deferred_append available progname message n =
    let need = (length n.deferred + length message + 2) % size_limit in
    let capacity = new_capacity n.capacity need in
    if ltb n.capacity need
    then (if available capacity
        then write_deferred message (record n { capacity = capacity })
        else internal_panic progname (codes "deferred_append: out of memory") n)
    else write_deferred message n

-- The line in the listing.
unfoldable pub mirrored : Bytes → Option Bytes → Option Bytes
mirrored message none = none
mirrored message (some text) = some (text ++ b'*' ∷ message ++ 10 ∷ [])

abbrev pub mirror : Bytes → Notices → Notices
mirror message n = record n { listing = mirrored message n.listing }

abbrev pub and_then : Notified → (Notices → Notified) → Notified
and_then (returns n) f = f n
and_then (exits n) f = exits n
and_then overrun f = overrun

-- Is a message written at once?
abbrev pub is_immediate : ErrorLevel → Notices → Bool
is_immediate level n = leb 5 (level_number level) || not n.use_deferred

unfoldable pub print_error_message : (ℕ → Bool) → Bytes → ErrorLevel → Bytes → Notices → Notified
unfolding deferred_append level_number mirrored
print_error_message available progname level [] n = returns n
print_error_message available progname level (c ∷ s) n =
    and_then
      (if is_immediate level n
        then returns (to_stderr (c ∷ s ++ 10 ∷ []) n)
        else deferred_append available progname (c ∷ s) n)
      (λ m. returns (mirror (c ∷ s) m))

abbrev pub msg_buf_size : ℕ
msg_buf_size = 4096

spaces : ℕ → Bytes
spaces zero = []
spaces (suc n) = 32 ∷ spaces n

-- %-10s and %7lu
pad_left : Bytes → Bytes
unfolding spaces
pad_left s = s ++ spaces (10 - length s)

pad_right : Bytes → Bytes
unfolding spaces
pad_right s = spaces (7 - length s) ++ s

-- The file and line of a message.
unfoldable pub location : ErrorFormat → Bytes → Option IncFile → Bytes
unfolding pad_left pad_right decimal
location woe progname none = []
location woe progname (some file) = file.name ++ codes " (" ++ decimal file.lineno ++ codes "): "
location dillon progname none = []
location dillon progname (some file) =
    codes "line " ++ pad_right (decimal file.lineno) ++ 32 ∷ pad_left file.name ++ codes " "
location gnu progname none = progname ++ codes ": "
location gnu progname (some file) = file.name ++ b':' ∷ decimal file.lineno ++ codes ": "

unfoldable pub level_name : ErrorLevel → Bytes
level_name debug = codes "debug"
level_name info = codes "info"
level_name notice = codes "notice"
level_name warning = codes "warning"
level_name error = codes "error"
level_name fatal = codes "fatal"
level_name panic = codes "***panic***"

-- The innermost file that is no macro.
unfoldable pub source_file : List IncFile → Option IncFile
source_file [] = none
source_file (inc ∷ next) = let rest = source_file next in if inc.is_macro then rest else some inc

-- A part of a message is put behind the others, if there is room in its own buffer and in theirs; else
-- the message of internal_panic.
unfoldable pub append_part : ℕ → Bytes → Bytes → Bytes → Bytes ⊎ Bytes → Bytes ⊎ Bytes
unfolding strlcat
append_part own_size own whole part (inl failure) = inl failure
append_part own_size own whole part (inr buffer) =
    let (text, res) = strlcat buffer part msg_buf_size in
    if leb own_size (length part)
    then inl own
    else if leb msg_buf_size res
    then inl whole
    else inr text

-- The line of a message.
unfoldable pub message_line :
    ErrorFormat → Bytes → Option IncFile → ErrorLevel → Bytes → Bytes ⊎ Bytes
unfolding append_part location level_name
message_line format progname file level information =
    append_part msg_buf_size (codes "Buffer overflow in append_information!")
      (codes "Buffer overflow assembling error message (body)!") information
      (append_part 64 (codes "Buffer overflow in append_level!")
        (codes "Buffer overflow assembling error message (level)!") (level_name level ++ codes ": ")
        (append_part msg_buf_size (codes "Buffer overflow in append_location!")
          (codes "Buffer overflow assembling error message (location)!")
          (location format progname file) (inr [])))

-- The counts of the messages.
unfoldable pub count_message : ErrorLevel → Notices → Notices
count_message debug n = n
count_message info n = n
count_message notice n = record n { notices = n.notices + 1 }
count_message warning n = record n { warnings = n.warnings + 1 }
count_message error n = record n { errors = n.errors + 1 }
count_message fatal n = record n { fatals = n.fatals + 1 }
count_message panic n = record n { fatals = n.fatals + 1 }

-- panic_fmt ends the program.
unfoldable pub end_notify : ErrorLevel → Notices → Notified
end_notify panic n = exits n
end_notify debug n = returns n
end_notify info n = returns n
end_notify notice n = returns n
end_notify warning n = returns n
end_notify error n = returns n
end_notify fatal n = returns n

-- A message whose text is `information`, while the files `incfiles` are read.
unfoldable pub vanotify :
    (ℕ → Bool) → Bytes → List IncFile → ErrorLevel → Bytes → Notices → Notified
unfolding visible_error_level message_line source_file print_error_message internal_panic
    count_message end_notify
vanotify available progname incfiles level information n =
    if not (visible_error_level level n)
    then returns n
    else elim (message_line n.format progname (source_file incfiles) level information) [
      | inl failure ↦ internal_panic progname failure n
      | inr line ↦
          and_then (print_error_message available progname level line n)
            (λ m. end_notify level (count_message level m))
    ]
