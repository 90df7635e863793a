-- ===== src/Retention/History.antt =====
-- `prune_runs` of app/jobs/retention.py, and the pass that the scheduler runs. The run table is the
-- list of its rows, whose ids are distinct.
use hivesync.Prelude.{
  ℕ, zero, suc, ==_iff, ◌+◌, ◌≡◌, refl, ◌∙◌, Bool, true, false, Bool-cases, not, ◌&&◌, ◌||◌, List,
  [], ◌∷◌, keep, drop, length, any, ltb, ◌==◌, if◌then◌else◌, arith, inl, inr,
}
use hivesync.Models.{JobRun, is_active}
use hivesync.Retention.{Report}

abbrev pub insert_id : ℕ → List ℕ → List ℕ
insert_id a [] = a ∷ []
insert_id a (b ∷ bs) = let rest = insert_id a bs in if ltb b a then a ∷ b ∷ bs else b ∷ rest

-- `order_by(id.desc())`
abbrev pub newest_first : List ℕ → List ℕ
newest_first [] = []
newest_first (a ∷ as') = insert_id a (newest_first as')

abbrev pub among : ℕ → List ℕ → Bool
among a [] = false
among a (b ∷ bs) = (b == a) || among a bs

abbrev pub ids_of : List JobRun → List ℕ
ids_of [] = []
ids_of (r ∷ rs) = r.id ∷ ids_of rs

abbrev pub is_history : ℕ → JobRun → Bool
is_history job_id run = (run.job_id == job_id) && not (is_active run.status)

-- `.offset(keep)` of the finished runs of one job.
unfoldable pub doomed : ℕ → ℕ → List JobRun → List ℕ
doomed history_keep job_id runs =
    drop history_keep (newest_first (ids_of (keep (is_history job_id) runs)))

abbrev pub delete_runs : List ℕ → List JobRun → List JobRun
delete_runs ids runs = keep (λ run. not (among run.id ids)) runs

-- For each job in turn.
unfoldable pub prune_runs : ℕ → List ℕ → List JobRun → Report → List JobRun × Report
unfolding doomed
prune_runs history_keep [] runs r = (runs, r)
prune_runs history_keep (job_id ∷ jobs) runs r =
    let ids = doomed history_keep job_id runs in
    prune_runs history_keep jobs (delete_runs ids runs)
      (record r { runs_removed = r.runs_removed + length ids })

-- Each id is that of one row.
abbrev pub Distinct : List JobRun → Type 0
Distinct [] = Unit
Distinct (r ∷ rs) = (among r.id (ids_of rs) ≡ false) × Distinct rs

abbrev live_with : ℕ → JobRun → Bool
live_with id run = (run.id == id) && is_active run.status

abbrev over_with : ℕ → JobRun → Bool
over_with id run = (run.id == id) && not (is_active run.status)

among-insert : (a b : ℕ) (bs : List ℕ) → among a (insert_id b bs) ≡ ((b == a) || among a bs)
among-insert a b [] = refl
among-insert a b (c ∷ bs) = ground (arith, among-insert a b bs)

among-newest : (a : ℕ) (bs : List ℕ) → among a (newest_first bs) ≡ among a bs
among-newest a [] = refl
among-newest a (b ∷ bs) = ground (arith, among-insert a b (newest_first bs), among-newest a bs)

among-drop : (n a : ℕ) (bs : List ℕ) → among a (drop n bs) ≡ true → among a bs ≡ true
among-drop zero a bs h = h
among-drop (suc n) a [] h = h
among-drop (suc n) a (b ∷ bs) h = ground (arith, among-drop n a bs h)

among-history :
    (a job_id : ℕ) (runs : List JobRun)
    → among a (ids_of (keep (is_history job_id) runs)) ≡ true
    → any (over_with a) runs ≡ true
among-history a job_id [] h = h
among-history a job_id (r ∷ rs) h = ground (arith, h, among-history a job_id rs)

none_with :
    (a : ℕ) (runs : List JobRun) → among a (ids_of runs) ≡ false → any (live_with a) runs ≡ false
none_with a [] h = h
none_with a (r ∷ rs) h = ground (arith, h, none_with a rs)

over_listed :
    (a : ℕ) (runs : List JobRun) → any (over_with a) runs ≡ true → among a (ids_of runs) ≡ true
over_listed a [] h = h
over_listed a (r ∷ rs) h = ground (arith, h, over_listed a rs)

-- An id is not both that of a finished run and that of an active one.
over_not_live :
    (a : ℕ) (runs : List JobRun)
    → Distinct runs
    → any (over_with a) runs ≡ true
    → any (live_with a) runs ≡ false
over_not_live a [] d h = refl
over_not_live a (r ∷ rs) d h = elim (Bool-cases (r.id == a)) [
  | inl same ↦
      let equal = (==_iff r.id a).0 same in
      let gone : among a (ids_of rs) ≡ false = rw (← equal) d.0 in
      ground (arith, same, h, none_with a rs gone, over_listed a rs, gone)
  | inr other ↦ ground (arith, other, h, over_not_live a rs d.1)
]

abbrev pub live_runs : List JobRun → List JobRun
live_runs runs = keep (λ run. is_active run.status) runs

delete-live :
    (ids : List ℕ) (runs : List JobRun)
    → ((a : ℕ) → among a ids ≡ true → any (live_with a) runs ≡ false)
    → live_runs (delete_runs ids runs) ≡ live_runs runs
delete-live ids [] h = refl
delete-live ids (r ∷ rs) h =
    let rest = delete-live ids rs (λ a m. ground (arith, h a m)) in
    elim (Bool-cases (among r.id ids)) [
      | inl gone ↦ ground (arith, gone, rest, h r.id gone)
      | inr kept ↦ ground (arith, kept, rest)
    ]

among-keep :
    (a : ℕ) (p : JobRun → Bool) (runs : List JobRun)
    → among a (ids_of runs) ≡ false
    → among a (ids_of (keep p runs)) ≡ false
among-keep a p [] h = refl
among-keep a p (r ∷ rs) h = ground (arith, h, among-keep a p rs)

Distinct-keep : (p : JobRun → Bool) (runs : List JobRun) → Distinct runs → Distinct (keep p runs)
Distinct-keep p [] d = tt
Distinct-keep p (r ∷ rs) d = elim (Bool-cases (p r)) [
  | inl kept ↦ rw kept (among-keep r.id p rs d.0, Distinct-keep p rs d.1)
  | inr gone ↦ rw gone (Distinct-keep p rs d.1)
]

-- Whatever number of runs is kept and whichever jobs are gone through, the queued and the running
-- runs are all still there afterwards, in their order.
pub prune_runs-live :
    (history_keep : ℕ) (jobs : List ℕ) (runs : List JobRun) (r : Report)
    → Distinct runs
    → live_runs (prune_runs history_keep jobs runs r).0 ≡ live_runs runs
unfolding prune_runs doomed
prune_runs-live history_keep [] runs r d = refl
prune_runs-live history_keep (job_id ∷ jobs) runs r d =
    let ids = doomed history_keep job_id runs in
    let old = ids_of (keep (is_history job_id) runs) in
    prune_runs-live history_keep jobs (delete_runs ids runs) _
      (Distinct-keep (λ run. not (among run.id ids)) runs d)
    ∙ delete-live ids runs (λ a m. over_not_live a runs d (
        among-history a job_id runs
          (rw (among-newest a old) at (among-drop history_keep a (newest_first old) m))))
