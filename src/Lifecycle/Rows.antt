-- ===== src/Lifecycle/Rows.antt =====
-- The rows of the run table under the writes of app/web/__init__.py, app/api/jobs.py, app/main.py and
-- the workers.
use hivesync.Prelude.{
  ℕ, ◌≡◌, refl, ◌⊎◌, inl, inr, Bool, true, false, Bool-cases, not, ◌&&◌, none, some, List, [], ◌∷◌,
  ◌==◌, ==_iff, keep, map, arith, sym,
}
use hivesync.Models.{JobRun}
use hivesync.Planner.{update_run, active_of, has_active}
use hivesync.Lifecycle.{find_run, blocked}

-- The row is one of the table.
abbrev pub InTable : JobRun → List JobRun → Type 0
InTable a [] = ⊥
InTable a (r ∷ rs) = (a ≡ r) ⊎ InTable a rs

-- Where a row after a write comes from: it is the written form of a row with that id, or a row with
-- another id.
abbrev pub Came : (JobRun → JobRun) → ℕ → JobRun → List JobRun → Type 0
Came f id a runs =
    (b : JobRun) × InTable b runs
    × ((((b.id == id) ≡ true) × (a ≡ f b)) ⊎ (((b.id == id) ≡ false) × (a ≡ b)))

Came-later :
    (f : JobRun → JobRun) (id : ℕ) (a r : JobRun) (rs : List JobRun)
    → Came f id a rs
    → Came f id a (r ∷ rs)
Came-later f id a r rs (b, here, how) = (b, inr here, how)

pub update_run-InTable :
    (f : JobRun → JobRun) (id : ℕ) (a : JobRun) (runs : List JobRun)
    → InTable a (update_run f id runs)
    → Came f id a runs
unfolding update_run
update_run-InTable f id a [] h = elim h [ ]
update_run-InTable f id a (r ∷ rs) h = elim (Bool-cases (r.id == id)) [
  | inl this ↦
      let h' : (a ≡ f r) ⊎ InTable a (update_run f id rs) = rw this at h in
      elim h' [
        | inl same ↦ (r, inl refl, inl (this, same))
        | inr there ↦ Came-later f id a r rs (update_run-InTable f id a rs there)
      ]
  | inr other ↦
      let h' : (a ≡ r) ⊎ InTable a (update_run f id rs) = rw other at h in
      elim h' [
        | inl same ↦ (r, inl refl, inr (other, same))
        | inr there ↦ Came-later f id a r rs (update_run-InTable f id a rs there)
      ]
]

pub keep-InTable :
    (p : JobRun → Bool) (a : JobRun) (runs : List JobRun) → InTable a (keep p runs) → InTable a runs
keep-InTable p a [] h = elim h [ ]
keep-InTable p a (r ∷ rs) h = elim (Bool-cases (p r)) [
  | inr gone ↦ inr (keep-InTable p a rs (rw gone at h))
  | inl stays ↦
      let h' : (a ≡ r) ⊎ InTable a (keep p rs) = rw stays at h in
      elim h' [ inl same ↦ inl same | inr there ↦ inr (keep-InTable p a rs there) ]
]

pub kept_by :
    (p : JobRun → Bool) (a : JobRun) (runs : List JobRun) → InTable a (keep p runs) → p a ≡ true
kept_by p a [] h = elim h [ ]
kept_by p a (r ∷ rs) h = elim (Bool-cases (p r)) [
  | inr gone ↦ kept_by p a rs (rw gone at h)
  | inl stays ↦
      let h' : (a ≡ r) ⊎ InTable a (keep p rs) = rw stays at h in
      elim h' [ inl same ↦ rw same stays | inr there ↦ kept_by p a rs there ]
]

pub map-InTable :
    (g : JobRun → JobRun) (a : JobRun) (runs : List JobRun)
    → InTable a (map g runs)
    → (b : JobRun) × InTable b runs × (a ≡ g b)
map-InTable g a [] h = elim h [ ]
map-InTable g a (r ∷ rs) (inl same) = (r, inl refl, same)
map-InTable g a (r ∷ rs) (inr there) =
    let (b, here, same) = map-InTable g a rs there in (b, inr here, same)

pub find_run-InTable :
    (id : ℕ) (r : JobRun) (runs : List JobRun)
    → find_run id runs ≡ some r
    → InTable r runs × (r.id ≡ id)
find_run-InTable id r [] h = ground (arith, h)
find_run-InTable id r (x ∷ rs) h = elim (Bool-cases (x.id == id)) [
  | inl this ↦
      let same : x ≡ r = ground (arith, this, h) in
      (inl (sym same), rw (← same) ((==_iff x.id id).0 this))
  | inr other ↦
      let (there, named) = find_run-InTable id r rs (ground (arith, other, h)) in (inr there, named)
]

-- An active row of the job with another id is in the way.
pub not_blocked :
    (id job_id : ℕ) (a : JobRun) (runs : List JobRun)
    → blocked id job_id runs ≡ false
    → InTable a runs
    → active_of job_id a ≡ true
    → (a.id == id) ≡ true
not_blocked id job_id a [] free there on = elim there [ ]
not_blocked id job_id a (r ∷ rs) free (inl same) on =
    let on' : active_of job_id r ≡ true = rw same at on in
    let this : (r.id == id) ≡ true = ground (arith, free, on') in rw same this
not_blocked id job_id a (r ∷ rs) free (inr there) on =
    not_blocked id job_id a rs (ground (arith, free)) there on

pub none_active :
    (job_id : ℕ) (runs : List JobRun)
    → ((a : JobRun) → InTable a runs → active_of job_id a ≡ false)
    → has_active job_id runs ≡ false
none_active job_id [] off = refl
none_active job_id (r ∷ rs) off =
    ground (arith, off r (inl refl), none_active job_id rs (λ a there. off a (inr there)))

pub has_active-InTable :
    (job_id : ℕ) (a : JobRun) (runs : List JobRun)
    → has_active job_id runs ≡ false
    → InTable a runs
    → active_of job_id a ≡ false
has_active-InTable job_id a [] free there = elim there [ ]
has_active-InTable job_id a (r ∷ rs) free (inl same) =
    let off : active_of job_id r ≡ false = ground (arith, free) in rw same off
has_active-InTable job_id a (r ∷ rs) free (inr there) =
    has_active-InTable job_id a rs (ground (arith, free)) there

pub find_run-update_run :
    (f : JobRun → JobRun) (id : ℕ) (r : JobRun) (runs : List JobRun)
    → ((r : JobRun) → (f r).id ≡ r.id)
    → find_run id runs ≡ some r
    → find_run id (update_run f id runs) ≡ some (f r)
unfolding update_run
find_run-update_run f id r [] key h = ground (arith, h)
find_run-update_run f id r (x ∷ rs) key h = elim (Bool-cases (x.id == id)) [
  | inl this ↦ ground (arith, this, h, key x)
  | inr other ↦ ground (arith, other, h, find_run-update_run f id r rs key)
]

pub find_run-none :
    (id : ℕ) (a : JobRun) (runs : List JobRun)
    → find_run id runs ≡ none
    → InTable a runs
    → (a.id == id) ≡ false
find_run-none id a [] absent there = elim there [ ]
find_run-none id a (r ∷ rs) absent (inl same) =
    let other : (r.id == id) ≡ false = ground (arith, absent) in rw same other
find_run-none id a (r ∷ rs) absent (inr there) =
    find_run-none id a rs (ground (arith, absent)) there

pub is_blocked :
    (id job_id : ℕ) (runs : List JobRun)
    → blocked id job_id runs ≡ true
    → (a : JobRun) × InTable a runs × (active_of job_id a ≡ true) × ((a.id == id) ≡ false)
is_blocked id job_id [] h = ground (arith, h)
is_blocked id job_id (r ∷ rs) h = elim (Bool-cases (active_of job_id r && not (r.id == id))) [
  | inl this ↦ (r, inl refl, ground (arith, this), ground (arith, this))
  | inr other ↦
      let (a, there, on, apart) = is_blocked id job_id rs (ground (arith, other, h)) in
      (a, inr there, on, apart)
]
