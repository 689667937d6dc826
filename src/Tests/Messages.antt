-- ===== src/Tests/Messages.antt =====
-- Messages of src/errors.c at concrete inputs.
use dasm.Base.{true, ◌≡◌, refl, false, some, List, [], ◌∷◌, codes, arith}
use dasm.Notify.{
  deferred_append, Notices, woe, warning, error, debug, returns, level_number, source_file,
  location, level_name,
}
use dasm.Notify.Lines.{Appended, deferred_append-Appended}
use dasm.Notify.Said.{Message}
use dasm.Notify.Deferred.{Delayed, AllFit, notify_all, notify_all-Delayed}
use dasm.Notify.Shown.{kept, shown}
use dasm.Sources.{IncFile}

abbrev notices : Notices
notices = record {
  format = woe;
  level = warning;
  fatals = 0;
  errors = 0;
  warnings = 0;
  notices = 0;
  use_deferred = false;
  deferred = [];
  capacity = 0;
  stderr = [];
  listing = some [];
}

abbrev source : IncFile
source = record {
  file = 0;
  name = codes "a.asm";
  is_macro = false;
  lineno = 12;
  saveidx = 0;
  savedolidx = 0;
  text = [];
  args = [];
}

abbrev messages : List Message
messages =
    record { level = error; information = codes "Syntax Error"; incfiles = source ∷ [] }
    ∷ record { level = debug; information = codes "enter"; incfiles = source ∷ [] }
    ∷ []

messages_fit : AllFit woe (codes "dasm") messages
unfolding level_number source_file location level_name
messages_fit = (omega arith, (omega arith), (omega arith, (omega arith), tt))

-- The buffer is flushed at the end of the pass.
kept_then_shown :
    notify_all (codes "dasm") messages (kept notices)
    ≡ returns (
        kept (record notices {
          errors = 1;
          listing = some (codes "*a.asm (12): error: Syntax Error\n");
          deferred = codes "a.asm (12): error: Syntax Error\n";
          capacity = 16384;
        }))
unfolding notify_all
kept_then_shown = refl

notify_all-Delayed_example :
    Delayed notices
      (notify_all (codes "dasm") messages (kept notices))
      (notify_all (codes "dasm") messages (shown notices))
notify_all-Delayed_example =
    notify_all-Delayed (codes "dasm") messages notices messages_fit (omega arith)

deferred_append-Appended_example :
    Appended
      (codes "warning")
      notices
      (deferred_append (λ k. true) (codes "dasm") (codes "warning") notices)
deferred_append-Appended_example =
    deferred_append-Appended (codes "dasm") (codes "warning") notices (omega arith)
