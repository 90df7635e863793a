-- ===== src/Lifecycle/Kept/Sound.antt =====
-- What holds of the run table and the pools of app/jobs/runner.py and app/jobs/planner.py.
use hivesync.Prelude.{
  ℕ, ◌≡◌, refl, ◌≤◌, ◌<◌, inl, inr, Bool, true, List, [], ◌∷◌, ◌++◌, ◌==◌, keep, map, length, arith,
}
use hivesync.Models.{JobRun, is_active}
use hivesync.Planner.{update_run}
use hivesync.Lifecycle.{System}
use hivesync.Lifecycle.Rows.{InTable}
use hivesync.Lifecycle.Kept.{is_among}

abbrev pub numbered : ℕ → List JobRun → ℕ
numbered id runs = length (keep (λ run. run.id == id) runs)

pub record Sound (s : System) : Type 0 where
  pub fresh : (a : JobRun) → InTable a s.db.runs → a.id < s.db.next_id
  pub distinct : (id : ℕ) → numbered id s.db.runs ≤ 1
  -- The index of the table.
  pub single :
      (a b : JobRun)
      → InTable a s.db.runs
      → InTable b s.db.runs
      → is_active a.status ≡ true
      → is_active b.status ≡ true
      → a.job_id ≡ b.job_id
      → a.id ≡ b.id
  -- A run that is not over waits in a pool, or a worker is at it.
  pub watched :
      (a : JobRun)
      → InTable a s.db.runs
      → is_active a.status ≡ true
      → is_among a.id (s.queue ++ s.working) ≡ true

-- A write that leaves the keys alone.
abbrev pub KeepsKey : (JobRun → JobRun) → Type 0
KeepsKey f = (r : JobRun) → ((f r).id ≡ r.id) × ((f r).job_id ≡ r.job_id)

pub numbered-update_run :
    (f : JobRun → JobRun) (id i : ℕ) (runs : List JobRun)
    → KeepsKey f
    → numbered i (update_run f id runs) ≡ numbered i runs
unfolding update_run
numbered-update_run f id i [] keys = refl
numbered-update_run f id i (r ∷ rs) keys =
    ground (arith, keys r, numbered-update_run f id i rs keys)

pub numbered-map :
    (f : JobRun → JobRun) (i : ℕ) (runs : List JobRun)
    → KeepsKey f
    → numbered i (map f runs) ≡ numbered i runs
numbered-map f i [] keys = refl
numbered-map f i (r ∷ rs) keys = ground (arith, keys r, numbered-map f i rs keys)

pub numbered-keep :
    (p : JobRun → Bool) (i : ℕ) (runs : List JobRun) → numbered i (keep p runs) ≤ numbered i runs
numbered-keep p i [] = omega arith
numbered-keep p i (r ∷ rs) = ground (arith, numbered-keep p i rs)

pub numbered-fresh :
    (i : ℕ) (runs : List JobRun) → ((a : JobRun) → InTable a runs → a.id < i) → numbered i runs ≡ 0
numbered-fresh i [] below = refl
numbered-fresh i (r ∷ rs) below =
    ground (arith, below r (inl refl), numbered-fresh i rs (λ a there. below a (inr there)))

pub numbered-InTable :
    (i : ℕ) (a : JobRun) (runs : List JobRun) → InTable a runs → a.id ≡ i → 1 ≤ numbered i runs
numbered-InTable i a [] h named = elim h [ ]
numbered-InTable i a (r ∷ rs) (inl same) named =
    let here : r.id ≡ i = rw (← same) named in
    let found : (r.id == i) ≡ true = ground arith in rw found (omega arith)
numbered-InTable i a (r ∷ rs) (inr there) named =
    ground (arith, numbered-InTable i a rs there named)

once_more :
    (i : ℕ) (a b r : JobRun) (rs : List JobRun)
    → numbered i (r ∷ rs) ≤ 1
    → a ≡ r
    → InTable b rs
    → a.id ≡ i
    → b.id ≡ i
    → ⊥
once_more i a b r rs once same there named too =
    let here : r.id ≡ i = rw (← same) named in
    ground (arith, once, here, numbered-InTable i b rs there too)

-- A number that stands once names one row.
pub same_row :
    (i : ℕ) (a b : JobRun) (runs : List JobRun)
    → numbered i runs ≤ 1
    → InTable a runs
    → InTable b runs
    → a.id ≡ i
    → b.id ≡ i
    → a ≡ b
same_row i a b [] once h there named too = elim h [ ]
same_row i a b (r ∷ rs) once (inl first) (inl second) named too = cc
same_row i a b (r ∷ rs) once (inr there) (inr also) named too =
    same_row i a b rs (ground (arith, once)) there also named too
same_row i a b (r ∷ rs) once (inl first) (inr also) named too =
    absurd (once_more i a b r rs once first also named too)
same_row i a b (r ∷ rs) once (inr there) (inl second) named too =
    absurd (once_more i b a r rs once second there too named)
