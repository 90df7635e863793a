-- ===== src/Runner/Absorb.antt =====
-- `_absorb` and `_consume` of app/jobs/runner.py: counting the work of a live run as it is reported.
use hivesync.Prelude.{
  ℕ, max, Bool, true, false, not, Option, none, some, List, [], ◌∷◌, ◌++◌, Text, codes, text_eq,
  contains, starts_with, non_empty, strip, ltb, if◌then◌else◌,
}
use hivesync.Parsers.{
  PlannedOperation, DryRunLog, TransferStats, FileProgress, Operation, skipped_copy, skipped_delete,
  skipped_archive,
}
use hivesync.Runner.State.{Scalar, str, int, LogPayload, LogLine, Event, line, stats}

-- `peak_speeds[name] = max(peak_speeds.get(name, 0), speed)`
abbrev pub raise_peak : Text → ℕ → List (Text × ℕ) → List (Text × ℕ)
raise_peak name speed [] = (name, speed) ∷ []
raise_peak name speed ((n, v) ∷ peaks) =
    let rest = raise_peak name speed peaks in
    if text_eq n name then (n, max v speed) ∷ peaks else (n, v) ∷ rest

abbrev pub peaks_of : List FileProgress → List (Text × ℕ) → List (Text × ℕ)
peaks_of [] peaks = peaks
peaks_of (f ∷ fs) peaks = peaks_of fs (
    if non_empty f.name
    then (if ltb 0 f.speed then raise_peak f.name f.speed peaks else peaks)
    else peaks)

-- `size if isinstance(size, int) and size >= 0 else None`
abbrev pub size_value : Scalar → Option ℕ
size_value (int n) = some n
size_value _ = none

abbrev pub operation_row : Text → Operation → Option ℕ → Option Bool → PlannedOperation
operation_row path operation size replaced = record {
  path = path;
  operation = operation;
  size = size;
  replaced = replaced;
}

-- What the message says was done, if it says so.
pub operations_of : Text → Text → Option ℕ → List PlannedOperation
operations_of obj message size =
    if contains message (codes "Copied")
    then operation_row obj skipped_copy size (some (not (contains message (codes "(new)")))) ∷ []
    else if starts_with message (codes "Deleted")
    then operation_row obj skipped_delete size none ∷ []
    else if starts_with message (codes "Moved into backup dir")
    then operation_row obj skipped_archive size none ∷ []
    else []

-- `isinstance(obj, str) and obj`
abbrev pub named : Scalar → Option Text
named (str []) = none
named (str (c ∷ s)) = some (c ∷ s)
named _ = none

abbrev pub is_error : Scalar → Bool
is_error (str s) = text_eq s (codes "error")
is_error _ = false

abbrev with_operations : Option Text → LogPayload → DryRunLog → DryRunLog
with_operations none p log = log
with_operations (some obj) p log = record log {
  operations = log.operations ++ operations_of obj p.msg (size_value p.size);
}

abbrev detail : Option Text → Text → Text
detail none message = strip message
detail (some obj) message = strip (obj ++ (codes ": " ++ message))

pub with_error : LogPayload → DryRunLog → DryRunLog
with_error p log =
    if is_error p.level
    then record log {
      max_delete_hit =
          if contains p.msg (codes "max-delete threshold reached")
          then true
          else log.max_delete_hit;
      errors = log.errors ++ detail (named p.object) p.msg ∷ [];
    }
    else log

-- The new log, and the stats if the line was a stats record.
absorb_payload :
    Option (TransferStats × Option ℕ) → LogPayload → DryRunLog → DryRunLog × Option TransferStats
absorb_payload (some (parsed, bytes)) p log = (
  record log {
    stats_bytes = some bytes;
    peak_speeds = peaks_of parsed.transferring log.peak_speeds;
  },
  some parsed,
)
absorb_payload none p log = (with_error p (with_operations (named p.object) p log), none)

pub absorb : DryRunLog → Option LogPayload → DryRunLog × Option TransferStats
unfolding absorb_payload
absorb log none = (log, none)
absorb log (some p) = absorb_payload p.stats p log

abbrev pub event_of : Option TransferStats → Text → Event
event_of (some parsed) text = stats parsed
event_of none text = line text

-- The log that is observed, and what is published, line by line.
pub consume : DryRunLog → List LogLine → DryRunLog × List Event
unfolding absorb
consume observed [] = (observed, [])
consume observed (l ∷ lines) =
    let (observed', parsed) = absorb observed l.payload in
    let (final, events) = consume observed' lines in (final, event_of parsed l.text ∷ events)
