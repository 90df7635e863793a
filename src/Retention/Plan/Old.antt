-- ===== src/Retention/Plan/Old.antt =====
-- The loop of `plan_archive` of app/jobs/retention.py over the directories of an archive.
use hivesync.Prelude.{
  ℕ, ◌<◌, ◌≡◌, refl, true, ◌&&◌, ltb, Bool-cases, Option-cases, some, List, [], ◌∷◌, ◌++◌, Text,
  arith, inl, inr,
}
use hivesync.Retention.{ArchivePruning}
use hivesync.Retention.Plan.{Entry, Disk, is_stamp, chosen_one, choose}

module _ (disk : Disk) (cutoff : ℕ) (root : Text) where
  -- A directory of one run under the root: its name is a stamp, from before the cutoff.
  pub record IsOld (path : Text) : Type 0 where
    pub entry : Entry
    pub stamped : ℕ
    pub a_directory : entry.is_dir ≡ true
    pub a_stamp : is_stamp disk entry.name ≡ true
    pub at : disk.stamped_at entry.name ≡ some stamped
    pub before : stamped < cutoff
    pub below : path ≡ disk.under root entry.name

  abbrev pub AllOld : List Text → Type 0
  AllOld [] = Unit
  AllOld (p ∷ ps) = IsOld p × AllOld ps

  AllOld-append : (ps : List Text) (p : Text) → AllOld ps → IsOld p → AllOld (ps ++ p ∷ [])
  AllOld-append [] p all old = (old, tt)
  AllOld-append (q ∷ ps) p all old = (all.0, AllOld-append ps p all.1 old)

  chosen_one-AllOld :
      (e : Entry) (plan grown : ArchivePruning)
      → e.is_dir ≡ true
      → is_stamp disk e.name ≡ true
      → chosen_one disk cutoff root e (disk.stamped_at e.name) plan ≡ some grown
      → AllOld plan.directories
      → AllOld grown.directories
  chosen_one-AllOld e plan grown d s h all = elim (Option-cases (disk.stamped_at e.name)) [
    | inl bad ↦ ground (arith, bad, h)
    | inr (stamped, there) ↦ elim (Bool-cases (ltb stamped cutoff)) [
      | inl early ↦
          let same : grown.directories ≡ plan.directories ++ disk.under root e.name ∷ [] =
            ground (arith, there, early, h) in
          rw same (
            AllOld-append plan.directories (disk.under root e.name) all (record {
              entry = e;
              stamped = stamped;
              a_directory = d;
              a_stamp = s;
              at = there;
              before = ground (arith, early);
              below = refl;
            }))
      | inr late ↦
          let same : grown.directories ≡ plan.directories = ground (arith, there, late, h) in
          rw same all
    ]
  ]

  pub choose-AllOld :
      (es : List Entry) (plan result : ArchivePruning)
      → choose disk cutoff root es plan ≡ some result
      → AllOld plan.directories
      → AllOld result.directories
  unfolding choose
  choose-AllOld [] plan result h all =
      let same : result.directories ≡ plan.directories = ground (arith, h) in rw same all
  choose-AllOld (e ∷ es) plan result h all = elim (Bool-cases (e.is_dir && is_stamp disk e.name)) [
    | inr other ↦ choose-AllOld es plan result (ground (arith, other, h)) all
    | inl run ↦ elim (Option-cases (chosen_one disk cutoff root e (disk.stamped_at e.name) plan)) [
      | inl bad ↦ ground (arith, run, bad, h)
      | inr (grown, there) ↦
          choose-AllOld es grown result (ground (arith, run, there, h))
            (chosen_one-AllOld e plan grown (ground (arith, run)) (ground (arith, run)) there all)
    ]
  ]
