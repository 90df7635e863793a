-- ===== src/Runner/Brake.antt =====
-- The delete brake in front of the sync that `_execute_one_way` of app/jobs/runner.py starts.
use hivesync.Prelude.{
  zero, suc, ◌-◌, drop, length, Option, none, some, ◌∷◌, ℕ, ◌≤◌, ◌≡◌, refl, ◌∙◌, ◌⊎◌, inl, inr,
  false, List, [], ◌∷◌, Text, ltb, arith, Bool-cases,
}
use hivesync.Models.{Job, JobRun, is_bidirectional}
use hivesync.Engines.Plan.{Plan, deleted_count}
use hivesync.Engines.Rclone.{endpoints_and_paths}
use hivesync.Runner.State.{
  World, RunSession, continue, Prepared, specs, not_prepared, Refusal, Returned, returned, raised,
  brake_engaged, error, Effect, spawned, committed, emitted, notified, pruned, released,
}
use hivesync.Runner.Plan.{Planned, planned, engine_error, plan_one_way}
use hivesync.Runner.OneWay.{
  threshold_for, sentinel_gone, preflight, lift_specs, checked, after_plan, sentinel_refusal,
  brake_refusal, sync_one_way, execute_one_way,
}
use hivesync.Runner.RunNow.{
  execute, handled, notify, prune_quiet_cycle, run_now, release, begin, started, concluded, cut_off,
}
use hivesync.Runner.Effects.{spawns}
use hivesync.Runner.Allowed.{Allowed, AddsAllowed, sync_one_way-AddsAllowed}

-- The pre-flight passes a plan within the threshold whose sentinel is there, and refuses any other.
preflight-cases :
    (w : World) (job : Job) (plan : Plan) (threshold : ℕ) (s : RunSession)
    → ((preflight w job plan threshold s ≡ (returned tt, s))
        × (sentinel_gone w (endpoints_and_paths job).0 ≡ false)
        × (deleted_count plan ≤ threshold))
      ⊎ ((r : Refusal) × (preflight w job plan threshold s ≡ (raised (brake_engaged r), s)))
unfolding preflight
preflight-cases w job plan threshold s =
    elim (Bool-cases (sentinel_gone w (endpoints_and_paths job).0)) [
      | inl gone ↦ inr (sentinel_refusal (endpoints_and_paths job).0, rw gone)
      | inr there ↦ elim (Bool-cases (ltb threshold (deleted_count plan))) [
        | inl over ↦ inr (brake_refusal job plan threshold, rw (there, over))
        | inr within ↦ inl (rw (there, within), there, ground arith)
      ]
    ]

module _ (w : World) (run : JobRun) (job : Job) where
  with_specs-AddsAllowed :
      (prepared : Prepared) (plan : Plan) (s : RunSession)
      → w.prepared ≡ prepared
      → plan_one_way w job ≡ planned plan
      → sentinel_gone w (endpoints_and_paths job).0 ≡ false
      → deleted_count plan
        ≤ threshold_for run.forced_max_delete job.max_delete_pct plan.dest_file_count
      → AddsAllowed
          (Allowed w run job)
          s
          (continue
            (lift_specs prepared s).0
            (sync_one_way w job plan
              (threshold_for run.forced_max_delete job.max_delete_pct plan.dest_file_count))
            (lift_specs prepared s).1).1
  with_specs-AddsAllowed (not_prepared why) plan s e p g d = inl refl
  with_specs-AddsAllowed (specs src dst) plan s e p g d =
      sync_one_way-AddsAllowed w run job plan src dst p e g d s

  planned-AddsAllowed :
      (result : Planned) (s : RunSession)
      → plan_one_way w job ≡ result
      → AddsAllowed (Allowed w run job) s (after_plan w run job result s).1
  unfolding checked
  planned-AddsAllowed (engine_error m) s e = inl refl
  planned-AddsAllowed (planned plan) s e =
      elim (preflight-cases w job plan
        (threshold_for run.forced_max_delete job.max_delete_pct plan.dest_file_count) s) [
          | inl (passed, there, within) ↦
              rw passed (with_specs-AddsAllowed w.prepared plan s refl e there within)
          | inr (r, refused) ↦ inl (rw refused)
        ]

  -- Whatever the world answers, a one way run starts nothing, or one sync that is allowed.
  pub execute_one_way-AddsAllowed :
      (s : RunSession) → AddsAllowed (Allowed w run job) s (execute_one_way w run job s).1
  unfolding execute_one_way
  execute_one_way-AddsAllowed s = planned-AddsAllowed (plan_one_way w job) s refl

-- What the end of a run adds to the started processes: nothing.
spawns-handled :
    (w : World) (result : Returned (Unit {0})) (s : RunSession)
    → spawns (handled w (result, s)).effects ≡ spawns s.effects
unfolding handled
spawns-handled w (returned x) s = refl
spawns-handled w (raised (brake_engaged r)) s = refl
spawns-handled w (raised (error m)) s = refl

spawns-end :
    (w : World) (s : RunSession)
    → spawns (release (prune_quiet_cycle w (notify w s))).effects ≡ spawns s.effects
unfolding release prune_quiet_cycle notify
spawns-end w s = ground arith

-- What an exception leaves of the effects has started no other process.
spawns-drop_none : (n : ℕ) (es : List Effect) → spawns es ≡ [] → spawns (drop n es) ≡ []
spawns-drop_none zero es h = h
spawns-drop_none (suc n) [] h = h
spawns-drop_none (suc n) (spawned argv ∷ es) h = absurd (ground (arith, h))
spawns-drop_none (suc n) (committed run ∷ es) h = spawns-drop_none n es h
spawns-drop_none (suc n) (emitted e ∷ es) h = spawns-drop_none n es h
spawns-drop_none (suc n) (notified status ∷ es) h = spawns-drop_none n es h
spawns-drop_none (suc n) (pruned ∷ es) h = spawns-drop_none n es h
spawns-drop_none (suc n) (released ∷ es) h = spawns-drop_none n es h

spawns-drop_one :
    (n : ℕ) (es : List Effect) (argv : List Text)
    → spawns es ≡ argv ∷ []
    → (spawns (drop n es) ≡ []) ⊎ (spawns (drop n es) ≡ argv ∷ [])
spawns-drop_one zero es argv h = inr h
spawns-drop_one (suc n) [] argv h = absurd (ground (arith, h))
spawns-drop_one (suc n) (spawned other ∷ es) argv h =
    inl (spawns-drop_none n es (ground (arith, h)))
spawns-drop_one (suc n) (committed run ∷ es) argv h = spawns-drop_one n es argv h
spawns-drop_one (suc n) (emitted e ∷ es) argv h = spawns-drop_one n es argv h
spawns-drop_one (suc n) (notified status ∷ es) argv h = spawns-drop_one n es argv h
spawns-drop_one (suc n) (pruned ∷ es) argv h = spawns-drop_one n es argv h
spawns-drop_one (suc n) (released ∷ es) argv h = spawns-drop_one n es argv h

-- However a run is concluded, it has started nothing else.
concluded-none :
    (w : World) (run : JobRun) (job : Job) (fault : Option ℕ) (s : RunSession)
    → spawns s.effects ≡ []
    → spawns (release (concluded w run job fault s)).effects ≡ []
unfolding concluded release cut_off
concluded-none w run job none s h = spawns-end w s ∙ h
concluded-none w run job (some n) s h =
    spawns-drop_none (length (prune_quiet_cycle w (notify w s)).effects - n)
      (prune_quiet_cycle w (notify w s)).effects (spawns-end w s ∙ h)

concluded-one :
    (w : World) (run : JobRun) (job : Job) (fault : Option ℕ) (s : RunSession) (argv : List Text)
    → spawns s.effects ≡ argv ∷ []
    → (spawns (release (concluded w run job fault s)).effects ≡ [])
      ⊎ (spawns (release (concluded w run job fault s)).effects ≡ argv ∷ [])
unfolding concluded release cut_off
concluded-one w run job none s argv h = inr (spawns-end w s ∙ h)
concluded-one w run job (some n) s argv h =
    spawns-drop_one (length (prune_quiet_cycle w (notify w s)).effects - n)
      (prune_quiet_cycle w (notify w s)).effects argv (spawns-end w s ∙ h)

-- Whatever the world answers, and wherever an exception that is not caught may end the run, a one
-- way run either starts no process that writes, or starts exactly one, and then: the plan was made
-- from this run's own dry run, no sentinel file that is configured was missing, the plan deletes no
-- more files than the threshold (the number an operator approved, or else the one resolved from the
-- job's percentage), and the arguments handed to `prepared.argv` have `--max-delete` with that
-- threshold in digits behind it.
pub run_now_within_brake :
    (w : World) (run : JobRun) (job : Job)
    → is_bidirectional job.direction ≡ false
    → (spawns (run_now w run job).effects ≡ [])
      ⊎ ((argv : List Text) × (spawns (run_now w run job).effects ≡ argv ∷ [])
          × Allowed w (started w run) job argv)
unfolding run_now execute
run_now_within_brake w run job one_way =
    let r = execute_one_way w (started w run) job (begin w run job) in
    rw one_way (elim (execute_one_way-AddsAllowed w (started w run) job (begin w run job)) [
      | inl e ↦ inl (concluded-none w run job w.fault (handled w r) (spawns-handled w r.0 r.1 ∙ e))
      | inr (argv, e, a) ↦
          elim (concluded-one w run job w.fault (handled w r) argv (spawns-handled w r.0 r.1 ∙ e)) [
            | inl quiet ↦ inl quiet
            | inr one ↦ inr (argv, one, a)
          ]
    ])
