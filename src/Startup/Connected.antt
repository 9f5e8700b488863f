-- ===== src/Startup/Connected.antt =====
-- `connect_and_migrate`: the database is made, reached and migrated.
use btc_idx_service.Startup.{
  Environment, Stage, absent, created, migrated, E, call, is_there, set_stage, create_unless,
  create_database, connect_and_migrate,
}
use btc_idx_service.Prelude.{[], ◌∷◌, ◌≡◌, refl, List, Bool, true, false}
use btc_idx_service.Prelude.Run.{ok, pure}
use btc_idx_service.Prelude.Keeps.{Keeps, Keeps-bind, Keeps-pure}

-- Without faults the database is there and migrated, however far it had come.
pub connect_and_migrate_lem :
    (s : Environment)
    → s.faults ≡ []
    → connect_and_migrate s ≡ (ok tt, record s { stage = migrated; faults = [] })
unfolding connect_and_migrate create_database
connect_and_migrate_lem s healthy = rw healthy (go s.stage refl)
  where
    go :
        (stage : Stage)
        → s.stage ≡ stage
        → connect_and_migrate (record s { faults = [] })
          ≡ (ok tt, record s { stage = migrated; faults = [] })
    go absent e = rw e refl
    go created e = rw e refl
    go migrated e = rw e refl

-- What the stage and the faults have no part in, lasts.
module _ (P : Environment → Type 0)
    (apart : (s : Environment) (stage : Stage) (fs : List Bool)
      → P s
      → P (record s { stage = stage; faults = fs })) where
  call-Keeps : {A : Type 0} (q : E A) → Keeps P q → Keeps P (call q)
  call-Keeps q k = record { at = λ s h. go s h s.faults refl }
    where
      go : (s : Environment) → P s → (fs : List Bool) → s.faults ≡ fs → P (call q s).1
      go s h [] e = rw e (k.at (record s { faults = [] }) (apart s s.stage [] h))
      go s h (true ∷ fs) e = rw e (apart s s.stage fs h)
      go s h (false ∷ fs) e = rw e (k.at (record s { faults = fs }) (apart s s.stage fs h))

  stage-Keeps : (stage : Stage) → Keeps P (set_stage stage)
  stage-Keeps stage = record { at = λ s h. apart s stage s.faults h }

  create-Keeps : (exists : Bool) → Keeps P (create_unless exists)
  create-Keeps true = Keeps-pure tt
  create-Keeps false = call-Keeps (set_stage created) (stage-Keeps created)

  pub connect_and_migrate-Keeps : Keeps P connect_and_migrate
  unfolding connect_and_migrate create_database
  connect_and_migrate-Keeps =
      Keeps-bind _ _
        (Keeps-bind _ _ (call-Keeps (λ s. (ok (is_there s.stage), s)) (record { at = λ s h. h }))
          create-Keeps)
        (λ _.
          Keeps-bind _ _ (call-Keeps (pure tt) (Keeps-pure tt))
            (λ _. call-Keeps (set_stage migrated) (stage-Keeps migrated)))
