-- ===== src/Parsers/DryRun.antt =====
-- `iter_json_lines`, `parse_dry_run`, `_read_paths` and `parse_presence` of app/engines/parsers.py.
-- `str.splitlines` and `json.loads` are parameters.
pub mod Stream
use hivesync.Prelude.{
  ℕ, Bool, true, false, not, ◌&&◌, ◌||◌, Option, none, some, List, [], ◌∷◌, ◌++◌, Text, codes,
  contains, starts_with, strip, non_empty, text_eq, if◌then◌else◌,
}
use hivesync.Parsers.{
  Operation, skipped_copy, skipped_delete, skipped_archive, other_operation, PlannedOperation,
  DryRunLog, empty_log, PresenceReport, member, from_keys,
}

-- A decoded value; `other` is a null, a fraction or an array. A dict is the list of its entries.
mutual
  pub data Json : Type 0 where
    text : Text → Json
    whole : ℕ → Json
    negative : ℕ → Json
    boolean : Bool → Json
    object : Members → Json
    other : Json

  pub data Members : Type 0 where
    no_members : Members
    entry : Text → Json → Members → Members

-- `payload.get(key)`
abbrev pub get : Text → Members → Option Json
get key no_members = none
get key (entry k v ms) = let rest = get key ms in if text_eq k key then some v else rest

-- `isinstance(value, str)`
abbrev pub as_text : Option Json → Option Text
as_text (some (text t)) = some t
as_text _ = none

abbrev pub as_object : Option Json → Option Members
as_object (some (object ms)) = some ms
as_object _ = none

-- `isinstance(value, int) and value >= 0`; a bool is an int.
abbrev pub as_size : Option Json → Option ℕ
as_size (some (whole n)) = some n
as_size (some (boolean false)) = some 0
as_size (some (boolean true)) = some 1
as_size _ = none

abbrev pub operation_of : Text → Operation
operation_of s =
    if text_eq s (codes "copy")
    then skipped_copy
    else if text_eq s (codes "delete")
    then skipped_delete
    else if text_eq s (codes "move into backup dir")
    then skipped_archive
    else other_operation s

-- The path of an object that is a text and not blank.
abbrev pub named : Option Text → Option Text
named (some (c ∷ path)) = some (c ∷ path)
named _ = none

abbrev pub operation_of_fields : Option Text → Option Text → Option ℕ → Option PlannedOperation
operation_of_fields (some skipped) (some path) size =
    some (record { path = path; operation = operation_of skipped; size = size; replaced = none })
operation_of_fields _ _ size = none

abbrev pub operation_in : Members → Option PlannedOperation
operation_in p =
    operation_of_fields (as_text (get (codes "skipped") p))
      (named (as_text (get (codes "object") p))) (as_size (get (codes "size") p))

abbrev pub with_stats : Option Members → DryRunLog → DryRunLog
with_stats none log = log
with_stats (some stats) log = record log {
  stats_bytes = some (as_size (get (codes "bytes") stats));
}

abbrev pub detail : Option Text → Text → Text
detail none message = strip message
detail (some path) message = strip (path ++ (codes ": " ++ message))

abbrev pub with_error : Option Text → Option Text → Option Text → DryRunLog → DryRunLog
with_error (some level) path (some message) log =
    if text_eq level (codes "error")
    then record log {
      max_delete_hit =
          log.max_delete_hit || contains message (codes "max-delete threshold reached");
      errors = log.errors ++ detail path message ∷ [];
    }
    else log
with_error _ path _ log = log

-- One round of the loop of `parse_dry_run`.
unfoldable pub read_payload : Members → DryRunLog → DryRunLog
read_payload p log = elim (operation_in p) [
  | some op ↦ record log { operations = log.operations ++ op ∷ [] }
  | none ↦
      with_error (as_text (get (codes "level") p)) (named (as_text (get (codes "object") p)))
        (as_text (get (codes "msg") p)) (with_stats (as_object (get (codes "stats") p)) log)
]

module _ (lines : Text → List Text) where
  abbrev pub stripped : List Text → List Text
  stripped [] = []
  stripped (l ∷ ls) = let rest = stripped ls in if non_empty (strip l) then strip l ∷ rest else rest

  -- `_read_paths` of a file's content, `none` where there is no file.
  unfoldable pub read_paths : Option Text → List Text
  read_paths none = []
  read_paths (some content) = from_keys [] (stripped (lines content))

  unfoldable pub parse_presence :
      Option Text → Option Text → Option Text → Option Text → Option Text → PresenceReport
  unfolding read_paths
  parse_presence missing_on_dest missing_on_source differing matching errored = record {
    missing_on_dest = read_paths missing_on_dest;
    missing_on_source = read_paths missing_on_source;
    differing = read_paths differing;
    matching = read_paths matching;
    errored = read_paths errored;
  }

  -- `none` is the `ValueError` of `json.loads`.
  module _ (decode : Text → Option Json) where
    abbrev pub payload_of : Text → Option Members
    payload_of line =
        if starts_with (strip line) (codes "{") then as_object (decode (strip line)) else none

    -- The payloads of `iter_json_lines`, each read when it comes.
    unfoldable pub read_lines : List Text → DryRunLog → DryRunLog
    unfolding read_payload
    read_lines [] log = log
    read_lines (l ∷ ls) log = elim (payload_of l) [
      | none ↦ read_lines ls log
      | some p ↦ read_lines ls (read_payload p log)
    ]

    unfoldable pub parse_dry_run : Text → DryRunLog
    unfolding read_lines
    parse_dry_run output = read_lines (lines output) empty_log
