-- ===== src/Examples/Logs.antt =====
-- The log of a dry run of one copy and one refused deletion.
use hivesync.Prelude.{
  ◌≡◌, refl, true, Option, none, some, List, [], ◌∷◌, ◌++◌, Text, codes, text_eq, strip, lstrip,
  rstrip, if◌then◌else◌,
}
use hivesync.Prelude.Parts.{split_at}
use hivesync.Parsers.DryRun.{Json, Members, text, whole, object, entry, no_members, parse_dry_run}
use hivesync.Parsers.DryRun.Stream.{
  ended, noise, skips, fails_on, fails, tells, planned, parse_dry_run-reads,
}

abbrev lines_of : Text → List Text
lines_of t = split_at 10 t

abbrev copy_line : Members
copy_line =
    entry (codes "skipped") (text (codes "copy"))
      (entry (codes "object") (text (codes "a/b")) (entry (codes "size") (whole 14) no_members))

abbrev error_line : Members
error_line =
    entry (codes "level") (text (codes "error"))
      (entry (codes "msg") (text (codes "max-delete threshold reached")) no_members)

abbrev failed_line : Members
failed_line = entry (codes "object") (text (codes "a/c")) (
    entry (codes "level") (text (codes "error"))
      (entry (codes "msg") (text (codes "no room")) no_members))

abbrev stats_line : Members
stats_line =
    entry (codes "level") (text (codes "info"))
      (entry (codes "stats") (object (entry (codes "bytes") (whole 14) no_members)) no_members)

abbrev decoded : Text → Option Json
decoded t =
    if text_eq t (codes "{c")
    then some (object copy_line)
    else if text_eq t (codes "{e")
    then some (object error_line)
    else if text_eq t (codes "{s")
    then some (object stats_line)
    else if text_eq t (codes "{f")
    then some (object failed_line)
    else none

abbrev output : Text
output =
    codes "{c"
    ++ (10
        ∷ (codes "hello"
            ++ (10
                ∷ (codes "{s" ++ (10 ∷ (codes "{" ++ (10 ∷ (codes "{f" ++ (10 ∷ codes "{e")))))))))

parse_dry_run-reads_example :
    let log = parse_dry_run lines_of decoded output in
    (log.operations ≡ planned (codes "a/b") (codes "copy") (some 14) ∷ [])
    × (log.errors
        ≡ strip (codes "a/c: no room") ∷ strip (codes "max-delete threshold reached") ∷ [])
    × (log.max_delete_hit ≡ true)
unfolding strip lstrip rstrip
parse_dry_run-reads_example = parse_dry_run-reads lines_of decoded output (
    skips refl refl refl refl (
      noise refl (
        tells refl refl refl refl
          (noise refl (fails_on refl refl refl refl refl (fails refl refl refl refl refl ended))))))
