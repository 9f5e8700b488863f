-- ===== src/Startup/Pinned.antt =====
-- The network that a database belongs to.
use btc_idx_service.ConfigTable.Stored.{find-write}
use btc_idx_service.Prelude.Run.{
  resume, err, Outcome, Holds, Holds-state, Holds-resume, ◌>>=◌, Holds-any,
}
use btc_idx_service.Prelude.{
  some, [], true, false, inl, inr, ◌∷◌, ◌≡◌, ◌==◌, refl, List, Bool, ℕ, find, Bool-cases, sym, none,
  ◌⊎◌, Option, subst, Option-cases, ==_iff,
}
use btc_idx_service.Startup.{
  Networks, upsert_config, E, Environment, ProcessorError, IsNetworks, exec_config, settle_config,
  assert_environment, Statement, same_network, network_info, boot, run, set_network, unwrap, Boot,
  build_service_config, restarts, begin, create_harvester, Config,
}
use btc_idx_service.ConfigTable.{upsert_config, get_config, has_key, ConfigRow, row_of, affected}
use btc_idx_service.Processor.{ProcessorError, sqlx}
use btc_idx_service.Sql.{Statement, io}
use btc_idx_service.Prelude.Keeps.{Keeps, Keeps-panic, Keeps-pure, Keeps-bind}
use btc_idx_service.Startup.Connected.{connect_and_migrate-Keeps}

-- A database call answers, or the connection fails; neither depends on how many faults are to come.
pub by_faults :
    {A : Type 0} (T : Outcome ProcessorError A × Environment → Type 0)
    (q : Statement (List ConfigRow) A) (s : Environment)
    → ((fs : List Bool) → T (settle_config (q s.config) (record s { faults = fs })))
    → ((fs : List Bool) → T (err (sqlx io), record s { faults = fs }))
    → T (exec_config q s)
by_faults T q s answers fails = go s.faults refl
  where
    go : (fs : List Bool) → s.faults ≡ fs → T (exec_config q s)
    go [] e = rw e (answers [])
    go (true ∷ fs) e = rw e (fails fs)
    go (false ∷ fs) e = rw e (answers fs)

module _ (x : Networks) where
  -- The database belongs to the network `n`.
  abbrev pub IsPinned : ℕ → Environment → Type 0
  IsPinned n s = find (has_key network_info) s.config ≡ some (row_of network_info (x.serialize n))

  abbrev write_network : ℕ → Statement (List ConfigRow) (Unit {0})
  write_network env = upsert_config x.serialize network_info env

  abbrev record_network : ℕ → E (Unit {0})
  record_network env = exec_config (write_network env)

  written :
      (env : ℕ) (s : Environment) → IsPinned env (settle_config (write_network env s.config) s).1
  unfolding upsert_config
  written env s = elim (Bool-cases (affected network_info s.config == 1)) [
    | inl e ↦ rw e (find-write network_info (x.serialize env) s.config)
    | inr e ↦ rw e (find-write network_info (x.serialize env) s.config)
  ]

  record_pins : (env : ℕ) (s : Environment) → Holds (λ _ s'. IsPinned env s') (record_network env s)
  record_pins env s =
      by_faults (Holds (λ _ s'. IsPinned env s')) (write_network env) s
        (λ fs.
          Holds-state (IsPinned env)
            (settle_config (write_network env s.config) (record s { faults = fs }))
            (written env (record s { faults = fs })))
        (λ fs. tt)

  record_keeps :
      (env : ℕ) (s : Environment) → IsPinned env s → IsPinned env (record_network env s).1
  record_keeps env s h =
      by_faults (λ r. IsPinned env r.1) (write_network env) s
        (λ fs. written env (record s { faults = fs })) (λ fs. h)

  -- The check of the network, and then its record.
  abbrev checked : ℕ → Option ℕ → E (Unit {0})
  checked env info = same_network env info >>= λ _. record_network env

  check_keeps : (env n : ℕ) (s : Environment) → IsPinned n s → IsPinned n (checked env (some n) s).1
  check_keeps env n s h = elim (Bool-cases (env == n)) [
    | inl e ↦ rw e (
        subst (λ k. IsPinned n (record_network k s).1) (sym ((==_iff env n).0 e))
          (record_keeps n s h))
    | inr e ↦ rw e h
  ]

  check_pins :
      (env : ℕ) (r : Outcome ProcessorError (Option ℕ) × Environment)
      → Holds (λ _ s. IsPinned env s) (resume r (checked env))
  check_pins env r =
      Holds-resume (λ _ _. Unit {0}) (λ _ s. IsPinned env s) r (checked env) (Holds-any r)
        (λ info s _.
          Holds-resume (λ _ _. Unit {0}) (λ _ s. IsPinned env s) (same_network env info s)
            (λ _. record_network env) (Holds-any (same_network env info s))
            (λ _ t _. record_pins env t))

  pub assert_environment_pins :
      (env : ℕ) (s : Environment)
      → s.network ≡ some env
      → Holds (λ _ s'. IsPinned env s') (assert_environment x s)
  unfolding assert_environment
  assert_environment_pins env s known = rw known (
      check_pins env
        (exec_config (get_config x.deserialize network_info) (record s { network = some env })))

  module _ (codec : IsNetworks x) where
    assert_environment-Keeps : (n : ℕ) → Keeps (IsPinned n) (assert_environment x)
    unfolding assert_environment get_config
    assert_environment-Keeps n = record { at = λ s h. go s h (Option-cases s.network) }
      where
        go :
            (s : Environment)
            → IsPinned n s
            → (s.network ≡ none) ⊎ ((env : ℕ) × (s.network ≡ some env))
            → IsPinned n (assert_environment x s).1
        go s h (inl e) = rw e h
        go s h (inr (env, e)) = rw e (
            by_faults (λ r. IsPinned n (resume r (checked env)).1)
              (get_config x.deserialize network_info) (record s { network = some env })
              (λ fs.
                rw (h, codec.deserialize-serialize n)
                  (check_keeps env n (record s { network = some env; faults = fs }) h))
              (λ fs. h))

    unwrap-Keeps : {A : Type 0} (n : ℕ) (o : Option A) → Keeps (IsPinned n) (unwrap o)
    unwrap-Keeps n none = Keeps-panic
    unwrap-Keeps n (some a) = Keeps-pure a

    set_network-Keeps : (n network : ℕ) → Keeps (IsPinned n) (set_network network)
    unfolding set_network
    set_network-Keeps n network = record { at = λ s h. go s h (Option-cases s.network) }
      where
        go :
            (s : Environment)
            → IsPinned n s
            → (s.network ≡ none) ⊎ ((env : ℕ) × (s.network ≡ some env))
            → IsPinned n (set_network network s).1
        go s h (inl e) = rw e h
        go s h (inr (env, e)) = rw e h

    run-Keeps : (n : ℕ) (config : Config) → Keeps (IsPinned n) (run x config)
    unfolding run build_service_config create_harvester
    run-Keeps n config = Keeps-bind _ _ (unwrap-Keeps n (x.from_core_arg config.magic)) (λ network.
        Keeps-bind _ _ (set_network-Keeps n network) (λ _.
          Keeps-bind _ _ (connect_and_migrate-Keeps (IsPinned n) (λ s stage fs h. h))
            (λ _. Keeps-bind _ _ (assert_environment-Keeps n) (λ _. record { at = λ s h. h }))))

    -- However a start ends, the database still belongs to the network it belonged to.
    pub boot_keeps : (n : ℕ) (b : Boot) (s : Environment) → IsPinned n s → IsPinned n (boot x b s).1
    unfolding boot
    boot_keeps n b s h = (run-Keeps n b.config).at (begin b s) h

    pub restarts_keep :
        (n : ℕ) (bs : List Boot) (s : Environment) → IsPinned n s → IsPinned n (restarts x bs s)
    restarts_keep n [] s h = h
    restarts_keep n (b ∷ bs) s h = restarts_keep n bs (boot x b s).1 (boot_keeps n b s h)
