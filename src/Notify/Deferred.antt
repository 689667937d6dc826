-- ===== src/Notify/Deferred.antt =====
-- Messages of src/errors.c that are kept until the end of a pass, and the same messages shown at once.
use dasm.Base.{
  ℕ, ◌+◌, ◌*◌, ◌≤◌, ◌<◌, ◌≡◌, refl, ap, sym, ◌∙◌, arith, List, [], ◌∷◌, ◌++◌, Bytes, length,
}
use dasm.Notify.{
  ErrorFormat, Notices, Notified, returns, and_then, vanotify, msg_buf_size, size_limit,
  flush_deferred_errors,
}
use mathlib.Core.Path.{subst}
use dasm.Notify.Shown.{kept, shown, IsBelowFatal}
use dasm.Notify.Said.{Message, line_of, say, Steps, say-Steps}

-- The messages, one after the other.
unfoldable pub notify_all : Bytes → List Message → Notices → Notified
unfolding vanotify
notify_all progname [] n = returns n
notify_all progname (m ∷ ms) n = and_then (say progname m n) (notify_all progname ms)

-- Two calls that return, where what the first one has kept is what the second one has shown.
pub record Delayed (n : Notices) (on_kept on_shown : Notified) : Type 0 where
  pub with_kept : Notices
  pub with_shown : Notices
  pub keeps : on_kept ≡ returns with_kept
  pub shows : on_shown ≡ returns with_shown
  pub silent : with_kept.stderr ≡ n.stderr
  pub flushed : with_shown.stderr ≡ with_kept.stderr ++ (flush_deferred_errors with_kept).0
  pub emptied : (flush_deferred_errors with_kept).1.deferred ≡ []
  pub nothing_kept : with_shown.deferred ≡ []
  pub same_fatals : with_kept.fatals ≡ with_shown.fatals
  pub same_errors : with_kept.errors ≡ with_shown.errors
  pub same_warnings : with_kept.warnings ≡ with_shown.warnings
  pub same_notices : with_kept.notices ≡ with_shown.notices
  pub same_listing : with_kept.listing ≡ with_shown.listing

-- The messages are below ERRORLEVEL_FATAL, and their lines fit the buffer.
abbrev pub AllFit : ErrorFormat → Bytes → List Message → Type 0
AllFit format progname [] = Unit {0}
AllFit format progname (m ∷ ms) =
    IsBelowFatal m.level
    × (length (line_of format progname m) < msg_buf_size)
    × AllFit format progname ms

-- What is left to do after a call.
then-Steps :
    {n : Notices} {size more total : ℕ} {on_kept on_shown : Notified} (rest : Notices → Notified)
    → (d : Steps n size on_kept on_shown)
    → Steps d.after more (rest (kept d.after)) (rest (shown d.after))
    → size + more ≤ total
    → Steps n total (and_then on_kept rest) (and_then on_shown rest)
then-Steps rest d e t = record {
  after = e.after;
  keeps = ap (λ (o : Notified). and_then o rest) d.keeps ∙ e.keeps;
  shows = ap (λ (o : Notified). and_then o rest) d.shows ∙ e.shows;
  same_stderr = e.same_stderr ∙ d.same_stderr;
  same_format = e.same_format ∙ d.same_format;
  bound = omega (arith, d.bound, e.bound, t);
}

delay_all :
    (progname : Bytes) (ms : List Message) (n : Notices)
    → AllFit n.format progname ms
    → length n.deferred + length ms * msg_buf_size + 2 < size_limit
    → Steps n
        (length ms * msg_buf_size)
        (notify_all progname ms (kept n))
        (notify_all progname ms (shown n))
unfolding notify_all
delay_all progname [] n h l = record {
  after = n;
  keeps = refl;
  shows = refl;
  same_stderr = refl;
  same_format = refl;
  bound = omega arith;
}
delay_all progname (m ∷ ms) n h l =
    let d = say-Steps progname m n h.0 h.1 (omega (arith, l)) in
    let fit = subst (λ f. AllFit f progname ms) (sym d.same_format) h.2 in
    let e = delay_all progname ms d.after fit (omega (arith, l, d.bound)) in
    then-Steps (notify_all progname ms) d e (omega arith)

-- Messages below ERRORLEVEL_FATAL whose lines fit the buffer are only delayed by the deferred mode:
-- with it they leave stderr as it was, and what flush_deferred_errors then writes is exactly what
-- appears on stderr without it behind what was there, the text kept earlier first; the buffer is
-- empty then, and the counts and the listing are the same. This holds for any messages, if realloc
-- finds memory and the text fits size_t.
pub notify_all-Delayed :
    (progname : Bytes) (ms : List Message) (n : Notices)
    → AllFit n.format progname ms
    → length n.deferred + length ms * msg_buf_size + 2 < size_limit
    → Delayed n (notify_all progname ms (kept n)) (notify_all progname ms (shown n))
notify_all-Delayed progname ms n h l =
    let d = delay_all progname ms n h l in
    record {
      with_kept = kept d.after;
      with_shown = shown d.after;
      keeps = d.keeps;
      shows = d.shows;
      silent = d.same_stderr;
      flushed = refl;
      emptied = refl;
      nothing_kept = refl;
      same_fatals = refl;
      same_errors = refl;
      same_warnings = refl;
      same_notices = refl;
      same_listing = refl;
    }
