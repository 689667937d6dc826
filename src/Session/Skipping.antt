-- ===== src/Session/Skipping.antt =====
-- Lines that are not assembled.
use dasm.Base.{◌≡◌, refl, false, Option, none, some, [], ◌∷◌, Bytes}
use dasm.Instruction.{Mnemonic}
use dasm.Line.Parse.{Parsed}
use dasm.Opcodes.Tables.{mf_if}
use dasm.Run.{ok}
use dasm.Session.{Session, Options, scan_line}
use dasm.Session.Lines.{is_assembling, dispatch, process_line}
use dasm.State.{has}

-- The row is none of those that are called at all times.
abbrev pub IsSkipped : Option Mnemonic → Type 0
IsSkipped none = Unit {0}
IsSkipped (some mne) = has mne.flags mf_if ≡ false

dispatch-IsSkipped :
    (opts : Options) (op : Bytes) (p : Parsed) (mne : Option Mnemonic) (s : Session)
    → is_assembling s ≡ false
    → IsSkipped mne
    → dispatch opts op p mne s ≡ ok s
unfolding dispatch
dispatch-IsSkipped opts [] p mne s h k = rw (h) refl
dispatch-IsSkipped opts (c ∷ op) p none s h k = rw (h) refl
dispatch-IsSkipped opts (c ∷ op) p (some mne) s h k = rw (h, k) refl

-- Where text is not assembled, a line whose row has not MF_IF, or that has no row, does nothing
-- beyond being scanned: no label is placed, nothing is written and no error is reported for it.
pub process_line-IsSkipped :
    (opts : Options) (line : Bytes) (s t : Session) {p : Parsed} {mne : Option Mnemonic}
    → scan_line false line s ≡ ok (p, mne, t)
    → is_assembling t ≡ false
    → IsSkipped mne
    → process_line opts line s ≡ ok t
unfolding process_line
process_line-IsSkipped opts line s t {p} {mne} e h k =
    rw (e) (dispatch-IsSkipped opts p.op.opcode p mne t h k)
