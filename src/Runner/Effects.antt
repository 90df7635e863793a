-- ===== src/Runner/Effects.antt =====
-- The processes that a run has started, and what an execution step adds to them.
use hivesync.Prelude.{◌≡◌, refl, ap, List, [], ◌∷◌, ◌++◌, Text}
use hivesync.Runner.State.{
  Effect, spawned, committed, emitted, notified, pruned, released, Event, RunSession, returned,
}
use hivesync.Runner.OneWay.{emit_all}

abbrev pub spawns : List Effect → List (List Text)
spawns [] = []
spawns (spawned argv ∷ es) = argv ∷ spawns es
spawns (committed run ∷ es) = spawns es
spawns (emitted e ∷ es) = spawns es
spawns (notified status ∷ es) = spawns es
spawns (pruned ∷ es) = spawns es
spawns (released ∷ es) = spawns es

pub spawns-append : (xs ys : List Effect) → spawns (xs ++ ys) ≡ spawns xs ++ spawns ys
spawns-append [] ys = refl
spawns-append (spawned argv ∷ es) ys = ap (λ zs. argv ∷ zs) (spawns-append es ys)
spawns-append (committed run ∷ es) ys = spawns-append es ys
spawns-append (emitted e ∷ es) ys = spawns-append es ys
spawns-append (notified status ∷ es) ys = spawns-append es ys
spawns-append (pruned ∷ es) ys = spawns-append es ys
spawns-append (released ∷ es) ys = spawns-append es ys

-- Publishing events returns, and leaves the rows and the started processes alone.
pub record Publishes (s s' : RunSession) : Type 0 where
  pub same_run : s'.run ≡ s.run
  pub same_job : s'.job ≡ s.job
  pub same_spawns : spawns s'.effects ≡ spawns s.effects

pub emit_all-Publishes : (es : List Event) (s : RunSession) → Publishes s (emit_all es s).1
unfolding emit_all
emit_all-Publishes [] s = record { same_run = refl; same_job = refl; same_spawns = refl }
emit_all-Publishes (e ∷ es) s =
    let ih = emit_all-Publishes es (record s { effects = emitted e ∷ s.effects }) in
    record { same_run = ih.same_run; same_job = ih.same_job; same_spawns = ih.same_spawns }

pub emit_all-returned : (es : List Event) (s : RunSession) → (emit_all es s).0 ≡ returned tt
unfolding emit_all
emit_all-returned [] s = refl
emit_all-returned (e ∷ es) s = emit_all-returned es (record s { effects = emitted e ∷ s.effects })
