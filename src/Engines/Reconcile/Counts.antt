-- ===== src/Engines/Reconcile/Counts.antt =====
-- The counts of a plan that `_reconcile` of app/engines/rclone.py makes.
use hivesync.Prelude.{
  ℕ, true, text_eq, text_eq→eq, Bool-cases, inl, inr, if◌then◌else◌, suc, ◌+◌, ◌≡◌, refl, ap, ◌∙◌,
  List, [], ◌∷◌, ◌++◌, Text, length, arith,
}
use hivesync.Models.{ChangeAction}
use hivesync.Parsers.{PlannedOperation, DryRunLog, PresenceReport, copies, removals, member}
use hivesync.Engines.Plan.{
  PlannedChange, empty_plan, count_in, new_count, updated_count, deleted_count, error_count,
}
use hivesync.Engines.Reconcile.{
  by_path, by_path_from, put, paths_of, insert_sorted, sorted, sorted_paths, insert_path,
  copy_changes, delete_changes, error_changes, reconcile,
}

length-insert_sorted :
    (op : PlannedOperation) (ops : List PlannedOperation)
    → length (insert_sorted op ops) ≡ suc (length ops)
length-insert_sorted op [] = refl
length-insert_sorted op (o ∷ os) = ground (arith, length-insert_sorted op os)

length-sorted : (ops : List PlannedOperation) → length (sorted ops) ≡ length ops
length-sorted [] = refl
length-sorted (op ∷ ops) = length-insert_sorted op (sorted ops) ∙ ap suc (length-sorted ops)

length-insert_path : (p : Text) (ps : List Text) → length (insert_path p ps) ≡ suc (length ps)
length-insert_path p [] = refl
length-insert_path p (q ∷ qs) = ground (arith, length-insert_path p qs)

length-sorted_paths : (ps : List Text) → length (sorted_paths ps) ≡ length ps
length-sorted_paths [] = refl
length-sorted_paths (p ∷ ps) =
    length-insert_path p (sorted_paths ps) ∙ ap suc (length-sorted_paths ps)

module _ (a : ChangeAction) where
  count-append :
      (xs ys : List PlannedChange) → count_in a (xs ++ ys) ≡ count_in a xs + count_in a ys
  count-append [] ys = omega arith
  count-append (x ∷ xs) ys = ground (arith, count-append xs ys)

count-copy_changes :
    (m : List Text) (ops : List PlannedOperation)
    → (count_in ChangeAction.new (copy_changes m ops)
          + count_in ChangeAction.updated (copy_changes m ops)
        ≡ length ops)
      × (count_in ChangeAction.deleted (copy_changes m ops) ≡ 0)
      × (count_in ChangeAction.error (copy_changes m ops) ≡ 0)
count-copy_changes m [] = (refl, refl, refl)
count-copy_changes m (op ∷ ops) = ground (arith, count-copy_changes m ops)

count-delete_changes :
    (ops : List PlannedOperation)
    → (count_in ChangeAction.new (delete_changes ops) ≡ 0)
      × (count_in ChangeAction.updated (delete_changes ops) ≡ 0)
      × (count_in ChangeAction.deleted (delete_changes ops) ≡ length ops)
      × (count_in ChangeAction.error (delete_changes ops) ≡ 0)
count-delete_changes [] = (refl, refl, refl, refl)
count-delete_changes (op ∷ ops) = ground (arith, count-delete_changes ops)

count-error_changes :
    (ps : List Text)
    → (count_in ChangeAction.new (error_changes ps) ≡ 0)
      × (count_in ChangeAction.updated (error_changes ps) ≡ 0)
      × (count_in ChangeAction.deleted (error_changes ps) ≡ 0)
      × (count_in ChangeAction.error (error_changes ps) ≡ length ps)
count-error_changes [] = (refl, refl, refl, refl)
count-error_changes (p ∷ ps) = ground (arith, count-error_changes ps)

module _ (a : ChangeAction) (presence : PresenceReport) (dry : DryRunLog) where
  -- The count of an action, over the three groups of changes.
  count-reconcile :
      count_in a (reconcile empty_plan presence dry).changes
      ≡ count_in a (copy_changes presence.missing_on_dest (sorted (by_path (copies dry))))
        + (count_in a (delete_changes (sorted (by_path (removals dry))))
            + count_in a (error_changes (sorted_paths presence.errored)))
  unfolding reconcile
  count-reconcile =
      count-append a (copy_changes presence.missing_on_dest (sorted (by_path (copies dry)))) (
        delete_changes (sorted (by_path (removals dry)))
        ++ error_changes (sorted_paths presence.errored))
      ∙ ap
          (λ n.
            count_in a (copy_changes presence.missing_on_dest (sorted (by_path (copies dry)))) + n)
          (count-append a (delete_changes (sorted (by_path (removals dry))))
            (error_changes (sorted_paths presence.errored)))

-- How many different paths a list has, beside those that were seen before.
abbrev pub distinct_from : List Text → List Text → ℕ
distinct_from seen [] = 0
distinct_from seen (p ∷ ps) =
    let again = distinct_from seen ps in
    let first = suc (distinct_from (p ∷ seen) ps) in if member p seen then again else first

-- The same paths are members of both.
abbrev SameMembers : List Text → List Text → Type 0
SameMembers xs ys = (p : Text) → member p xs ≡ member p ys

SameMembers-grows :
    (p : Text) (xs ys : List Text) → SameMembers xs ys → SameMembers (p ∷ xs) (p ∷ ys)
SameMembers-grows p xs ys same q = ground (arith, same q)

distinct_from-SameMembers :
    (xs ys ps : List Text) → SameMembers xs ys → distinct_from xs ps ≡ distinct_from ys ps
distinct_from-SameMembers xs ys [] same = refl
distinct_from-SameMembers xs ys (p ∷ ps) same = ground (
  arith,
  same p,
  distinct_from-SameMembers xs ys ps same,
  distinct_from-SameMembers (p ∷ xs) (p ∷ ys) ps (SameMembers-grows p xs ys same),
)

text_eq_sym : (s t : Text) → text_eq s t ≡ text_eq t s
text_eq_sym [] [] = refl
text_eq_sym [] (b ∷ t) = refl
text_eq_sym (a ∷ s) [] = refl
text_eq_sym (a ∷ s) (b ∷ t) = ground (arith, text_eq_sym s t)

length-put :
    (op : PlannedOperation) (ops : List PlannedOperation)
    → length (put op ops) ≡ (if member op.path (paths_of ops) then length ops else suc (length ops))
length-put op [] = refl
length-put op (o ∷ os) = ground (arith, text_eq_sym o.path op.path, length-put op os)

-- A stored operation leaves its path, and no other, among the paths.
paths-put :
    (op : PlannedOperation) (ops : List PlannedOperation)
    → SameMembers (paths_of (put op ops)) (op.path ∷ paths_of ops)
paths-put op [] q = refl
paths-put op (o ∷ os) q = elim (Bool-cases (text_eq o.path op.path)) [
  | inl this ↦ ground (arith, this, ap (λ x. text_eq q x) (text_eq→eq o.path op.path this))
  | inr other ↦ ground (arith, other, paths-put op os q)
]

seen_again : (p : Text) (xs : List Text) → member p xs ≡ true → SameMembers (p ∷ xs) xs
seen_again p xs there q = elim (Bool-cases (text_eq q p)) [
  | inl this ↦ ground (arith, this, there, ap (λ x. member x xs) (text_eq→eq q p this))
  | inr other ↦ rw other refl
]

length-by_path_from :
    (acc ops : List PlannedOperation)
    → length (by_path_from acc ops) ≡ length acc + distinct_from (paths_of acc) (paths_of ops)
length-by_path_from acc [] = omega arith
length-by_path_from acc (op ∷ ops) =
    let later = length-by_path_from (put op acc) ops in
    let now = length-put op acc in
    let same =
      distinct_from-SameMembers (paths_of (put op acc)) (op.path ∷ paths_of acc) (paths_of ops)
        (paths-put op acc) in
    elim (Bool-cases (member op.path (paths_of acc))) [
      | inl again ↦
          let old =
            distinct_from-SameMembers (op.path ∷ paths_of acc) (paths_of acc) (paths_of ops)
              (seen_again op.path (paths_of acc) again) in
          let now' : length (put op acc) ≡ length acc = rw again at now in
          rw again (omega (arith, later, now', same, old))
      | inr fresh ↦
          let now' : length (put op acc) ≡ suc (length acc) = rw fresh at now in
          rw fresh (omega (arith, later, now', same))
    ]

length-by_path :
    (ops : List PlannedOperation) → length (by_path ops) ≡ distinct_from [] (paths_of ops)
unfolding by_path
length-by_path ops = omega (arith, length-by_path_from [] ops)

pub counts-by_path :
    (presence : PresenceReport) (dry : DryRunLog)
    → let plan = reconcile empty_plan presence dry in
      (new_count plan + updated_count plan ≡ length (by_path (copies dry)))
      × (deleted_count plan ≡ length (by_path (removals dry)))
      × (error_count plan ≡ length plan.errors + length presence.errored)
unfolding new_count updated_count deleted_count error_count
counts-by_path presence dry =
    let cs = sorted (by_path (copies dry)) in
    let ds = sorted (by_path (removals dry)) in
    let es = sorted_paths presence.errored in
    let fc = count-copy_changes presence.missing_on_dest cs in
    let fd = count-delete_changes ds in
    let fe = count-error_changes es in
    (
      omega (
        arith,
        count-reconcile ChangeAction.new presence dry,
        count-reconcile ChangeAction.updated presence dry,
        length-sorted (by_path (copies dry)),
      ),
      omega (
        arith,
        count-reconcile ChangeAction.deleted presence dry,
        length-sorted (by_path (removals dry)),
      ),
      omega (
        arith,
        count-reconcile ChangeAction.error presence dry,
        length-sorted_paths presence.errored,
      ),
    )

-- A reconciled plan counts each different path that the dry run would copy once, as new or as
-- updated, however often the dry run names it, each different path that it would delete or archive
-- once, as deleted, and each path that could not be compared once, among the errors.
pub reconcile_counts :
    (presence : PresenceReport) (dry : DryRunLog)
    → let plan = reconcile empty_plan presence dry in
      (new_count plan + updated_count plan ≡ distinct_from [] (paths_of (copies dry)))
      × (deleted_count plan ≡ distinct_from [] (paths_of (removals dry)))
      × (error_count plan ≡ length plan.errors + length presence.errored)
reconcile_counts presence dry =
    let (copied, deleted, errors) = counts-by_path presence dry in
    (copied ∙ length-by_path (copies dry), deleted ∙ length-by_path (removals dry), errors)
