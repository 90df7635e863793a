-- ===== src/Parsers/DryRun/Stream.antt =====
-- The log that rclone writes in a dry run, as a relation, and the reader of app/engines/parsers.py.
use hivesync.Prelude.{
  ℕ, ◌≡◌, refl, ap, ◌∙◌, Bool, false, ◌||◌, Option, none, some, List, [], ◌∷◌, ◌++◌, append-nil,
  append_assoc, Text, codes, contains, text_eq, strip, arith,
}
use hivesync.Parsers.{PlannedOperation, DryRunLog, empty_log}
use hivesync.Parsers.DryRun.{
  Json, Members, text, whole, get, operation_of, with_stats, with_error, named, as_text, as_object,
  payload_of, read_payload, read_lines, parse_dry_run,
}

abbrev pub planned : Text → Text → Option ℕ → PlannedOperation
planned path skipped size = record {
  path = path;
  operation = operation_of skipped;
  size = size;
  replaced = none;
}

with_stats-keeps :
    (stats : Option Members) (log : DryRunLog)
    → ((with_stats stats log).operations ≡ log.operations)
      × ((with_stats stats log).errors ≡ log.errors)
      × ((with_stats stats log).max_delete_hit ≡ log.max_delete_hit)
with_stats-keeps none log = (refl, refl, refl)
with_stats-keeps (some stats) log = (refl, refl, refl)

with_error-quiet :
    (level : Text) (path message : Option Text) (log : DryRunLog)
    → text_eq level (codes "error") ≡ false
    → with_error (some level) path message log ≡ log
with_error-quiet level path none log h = refl
with_error-quiet level path (some m) log h = rw h refl

module _ (lines : Text → List Text) (decode : Text → Option Json) where
  -- The lines of a dry run with the operations and the errors that they tell of, and whether the
  -- deletions came to their limit.
  pub data Written : List PlannedOperation → List Text → Bool → List Text → Type 0 where
    ended : Written [] [] false []
    -- A line that is no JSON object.
    noise :
        {l : Text} {ls : List Text} {ops : List PlannedOperation} {errors : List Text} {hit : Bool}
        → payload_of lines decode l ≡ none
        → Written ops errors hit ls
        → Written ops errors hit (l ∷ ls)
    -- An operation that the dry run skips.
    skips :
        {l : Text} {ls : List Text} {ops : List PlannedOperation} {errors : List Text} {hit : Bool}
        {p : Members} {skipped path : Text} {c n : ℕ}
        → payload_of lines decode l ≡ some p
        → get (codes "skipped") p ≡ some (text skipped)
        → get (codes "object") p ≡ some (text (c ∷ path))
        → get (codes "size") p ≡ some (whole n)
        → Written ops errors hit ls
        → Written (planned (c ∷ path) skipped (some n) ∷ ops) errors hit (l ∷ ls)
    -- One that has no size.
    skips_unsized :
        {l : Text} {ls : List Text} {ops : List PlannedOperation} {errors : List Text} {hit : Bool}
        {p : Members} {skipped path : Text} {c : ℕ}
        → payload_of lines decode l ≡ some p
        → get (codes "skipped") p ≡ some (text skipped)
        → get (codes "object") p ≡ some (text (c ∷ path))
        → get (codes "size") p ≡ none
        → Written ops errors hit ls
        → Written (planned (c ∷ path) skipped none ∷ ops) errors hit (l ∷ ls)
    -- An error on an object, which the text of the error names.
    fails_on :
        {l : Text} {ls : List Text} {ops : List PlannedOperation} {errors : List Text} {hit : Bool}
        {p : Members} {path message : Text} {c : ℕ}
        → payload_of lines decode l ≡ some p
        → get (codes "skipped") p ≡ none
        → get (codes "object") p ≡ some (text (c ∷ path))
        → get (codes "level") p ≡ some (text (codes "error"))
        → get (codes "msg") p ≡ some (text message)
        → Written ops errors hit ls
        → Written ops
            (strip ((c ∷ path) ++ (codes ": " ++ message)) ∷ errors)
            (contains message (codes "max-delete threshold reached") || hit)
            (l ∷ ls)
    -- An error without an object.
    fails :
        {l : Text} {ls : List Text} {ops : List PlannedOperation} {errors : List Text} {hit : Bool}
        {p : Members} {message : Text}
        → payload_of lines decode l ≡ some p
        → get (codes "skipped") p ≡ none
        → get (codes "object") p ≡ none
        → get (codes "level") p ≡ some (text (codes "error"))
        → get (codes "msg") p ≡ some (text message)
        → Written ops errors hit ls
        → Written ops
            (strip message ∷ errors)
            (contains message (codes "max-delete threshold reached") || hit)
            (l ∷ ls)
    -- A line of another level, with stats or without.
    tells :
        {l : Text} {ls : List Text} {ops : List PlannedOperation} {errors : List Text} {hit : Bool}
        {p : Members} {level : Text}
        → payload_of lines decode l ≡ some p
        → get (codes "skipped") p ≡ none
        → get (codes "level") p ≡ some (text level)
        → text_eq level (codes "error") ≡ false
        → Written ops errors hit ls
        → Written ops errors hit (l ∷ ls)

  read_skips :
      (p : Members) (log : DryRunLog) (skipped path : Text) (c n : ℕ)
      → get (codes "skipped") p ≡ some (text skipped)
      → get (codes "object") p ≡ some (text (c ∷ path))
      → get (codes "size") p ≡ some (whole n)
      → read_payload p log
        ≡ record log { operations = log.operations ++ planned (c ∷ path) skipped (some n) ∷ [] }
  unfolding read_payload
  read_skips p log skipped path c n h1 h2 h3 = ground (arith, h1, h2, h3)

  read_unsized :
      (p : Members) (log : DryRunLog) (skipped path : Text) (c : ℕ)
      → get (codes "skipped") p ≡ some (text skipped)
      → get (codes "object") p ≡ some (text (c ∷ path))
      → get (codes "size") p ≡ none
      → read_payload p log
        ≡ record log { operations = log.operations ++ planned (c ∷ path) skipped none ∷ [] }
  unfolding read_payload
  read_unsized p log skipped path c h1 h2 h3 = ground (arith, h1, h2, h3)

  read_fails_on :
      (p : Members) (log : DryRunLog) (path message : Text) (c : ℕ)
      → get (codes "skipped") p ≡ none
      → get (codes "object") p ≡ some (text (c ∷ path))
      → get (codes "level") p ≡ some (text (codes "error"))
      → get (codes "msg") p ≡ some (text message)
      → ((read_payload p log).operations ≡ log.operations)
        × ((read_payload p log).errors
            ≡ log.errors ++ strip ((c ∷ path) ++ (codes ": " ++ message)) ∷ [])
        × ((read_payload p log).max_delete_hit
            ≡ (log.max_delete_hit || contains message (codes "max-delete threshold reached")))
  unfolding read_payload
  read_fails_on p log path message c h1 h2 h3 h4 =
      ground (arith, h1, h2, h3, h4, with_stats-keeps (as_object (get (codes "stats") p)) log)

  read_fails :
      (p : Members) (log : DryRunLog) (message : Text)
      → get (codes "skipped") p ≡ none
      → get (codes "object") p ≡ none
      → get (codes "level") p ≡ some (text (codes "error"))
      → get (codes "msg") p ≡ some (text message)
      → ((read_payload p log).operations ≡ log.operations)
        × ((read_payload p log).errors ≡ log.errors ++ strip message ∷ [])
        × ((read_payload p log).max_delete_hit
            ≡ (log.max_delete_hit || contains message (codes "max-delete threshold reached")))
  unfolding read_payload
  read_fails p log message h1 h2 h3 h4 =
      ground (arith, h1, h2, h3, h4, with_stats-keeps (as_object (get (codes "stats") p)) log)

  read_tells :
      (p : Members) (log : DryRunLog) (level : Text)
      → get (codes "skipped") p ≡ none
      → get (codes "level") p ≡ some (text level)
      → text_eq level (codes "error") ≡ false
      → ((read_payload p log).operations ≡ log.operations)
        × ((read_payload p log).errors ≡ log.errors)
        × ((read_payload p log).max_delete_hit ≡ log.max_delete_hit)
  unfolding read_payload
  read_tells p log level h1 h2 h3 = ground (
    arith,
    h1,
    h2,
    h3,
    with_stats-keeps (as_object (get (codes "stats") p)) log,
    with_error-quiet level (named (as_text (get (codes "object") p)))
        (as_text (get (codes "msg") p)) (with_stats (as_object (get (codes "stats") p)) log) h3,
  )

  -- What the reader makes of the rest of the lines, and of the log before them.
  abbrev Reads : DryRunLog → DryRunLog → List PlannedOperation → List Text → Bool → Type 0
  Reads after log ops errors hit =
      (after.operations ≡ log.operations ++ ops)
      × (after.errors ≡ log.errors ++ errors)
      × (after.max_delete_hit ≡ (log.max_delete_hit || hit))

  read_one :
      (l : Text) (ls : List Text) (log : DryRunLog) {p : Members}
      → payload_of lines decode l ≡ some p
      → read_lines lines decode (l ∷ ls) log ≡ read_lines lines decode ls (read_payload p log)
  unfolding read_lines
  read_one l ls log here = rw (here, read_lines) refl

  read_nothing : (log : DryRunLog) → read_lines lines decode [] log ≡ log
  unfolding read_lines
  read_nothing log = refl

  read_none :
      (l : Text) (ls : List Text) (log : DryRunLog)
      → payload_of lines decode l ≡ none
      → read_lines lines decode (l ∷ ls) log ≡ read_lines lines decode ls log
  unfolding read_lines
  read_none l ls log here = rw (here, read_lines) refl

  read-Written :
      (ls : List Text) {ops : List PlannedOperation} {errors : List Text} {hit : Bool}
      (w : Written ops errors hit ls) (log : DryRunLog)
      → Reads (read_lines lines decode ls log) log ops errors hit
  read-Written [] ended log = (
    ground (arith, read_nothing log, append-nil log.operations),
    ground (arith, read_nothing log, append-nil log.errors),
    ground (arith, read_nothing log),
  )
  read-Written (l ∷ ls) (noise here w) log = rw (read_none l ls log here) (read-Written ls w log)
  read-Written (l ∷ ls)
        (skips {ops = more} {errors = wrong} {hit = over} {p} {skipped} {path} {c} {n} here h1 h2 h3
          w)
        log =
      let op = planned (c ∷ path) skipped (some n) in
      let (ops_are, errors_are, hit_is) = read-Written ls w (read_payload p log) in
      let same = read_skips p log skipped path c n h1 h2 h3 in
      rw (read_one l ls log here) (
        ops_are
            ∙ ap (λ (x : DryRunLog). x.operations ++ more) same
            ∙ append_assoc log.operations (op ∷ []) more,
        errors_are ∙ ap (λ (x : DryRunLog). x.errors ++ wrong) same,
        hit_is ∙ ap (λ (x : DryRunLog). x.max_delete_hit || over) same,
      )
  read-Written (l ∷ ls)
        (skips_unsized {ops = more} {errors = wrong} {hit = over} {p} {skipped} {path} {c} here h1
          h2 h3 w)
        log =
      let op = planned (c ∷ path) skipped none in
      let (ops_are, errors_are, hit_is) = read-Written ls w (read_payload p log) in
      let same = read_unsized p log skipped path c h1 h2 h3 in
      rw (read_one l ls log here) (
        ops_are
            ∙ ap (λ (x : DryRunLog). x.operations ++ more) same
            ∙ append_assoc log.operations (op ∷ []) more,
        errors_are ∙ ap (λ (x : DryRunLog). x.errors ++ wrong) same,
        hit_is ∙ ap (λ (x : DryRunLog). x.max_delete_hit || over) same,
      )
  read-Written (l ∷ ls)
        (fails {ops = more} {errors = wrong} {hit = over} {p} {message} here h1 h2 h3 h4 w) log =
      let (ops_are, errors_are, hit_is) = read-Written ls w (read_payload p log) in
      let (ops_same, error_last, hit_now) = read_fails p log message h1 h2 h3 h4 in
      rw (read_one l ls log here) (
        ops_are ∙ ap (λ xs. xs ++ more) ops_same,
        errors_are
            ∙ ap (λ xs. xs ++ wrong) error_last
            ∙ append_assoc log.errors (strip message ∷ []) wrong,
        ground (arith, hit_is, hit_now),
      )
  read-Written (l ∷ ls)
        (fails_on {ops = more} {errors = wrong} {hit = over} {p} {path} {message} {c} here h1 h2 h3
          h4 w)
        log =
      let (ops_are, errors_are, hit_is) = read-Written ls w (read_payload p log) in
      let (ops_same, error_last, hit_now) = read_fails_on p log path message c h1 h2 h3 h4 in
      rw (read_one l ls log here) (
        ops_are ∙ ap (λ xs. xs ++ more) ops_same,
        errors_are
            ∙ ap (λ xs. xs ++ wrong) error_last
            ∙ append_assoc log.errors (strip ((c ∷ path) ++ (codes ": " ++ message)) ∷ []) wrong,
        ground (arith, hit_is, hit_now),
      )
  read-Written (l ∷ ls)
        (tells {ops = more} {errors = wrong} {hit = over} {p} {level} here h1 h2 h3 w) log =
      let (ops_are, errors_are, hit_is) = read-Written ls w (read_payload p log) in
      let (ops_same, errors_same, hit_same) = read_tells p log level h1 h2 h3 in
      rw (read_one l ls log here) (
        ops_are ∙ ap (λ xs. xs ++ more) ops_same,
        errors_are ∙ ap (λ xs. xs ++ wrong) errors_same,
        ground (arith, hit_is, hit_same),
      )

  -- From a log in which lines that are no JSON objects, lines of other levels and lines of stats
  -- stand anywhere between them, the reader takes each operation that rclone skips, with its path and
  -- its size if it has one, and each error, with the path in front where it names one, once and in
  -- the order in which they stand, and sees whether the
  -- deletions came to their limit.
  pub parse_dry_run-reads :
      (output : Text) {ops : List PlannedOperation} {errors : List Text} {hit : Bool}
      → Written ops errors hit (lines output)
      → let log = parse_dry_run lines decode output in
        (log.operations ≡ ops) × (log.errors ≡ errors) × (log.max_delete_hit ≡ hit)
  unfolding parse_dry_run
  parse_dry_run-reads output w = read-Written (lines output) w empty_log
