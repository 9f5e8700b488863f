-- ===== src/Startup/Restart.antt =====
-- Starts of the service one after the other, on the same database.
use btc_idx_service.Prelude.Run.{resume, ok, ◌>>◌, Holds-state}
use btc_idx_service.Startup.Pinned.{IsPinned, assert_environment_pins, boot_keeps, restarts_keep}
use btc_idx_service.Prelude.{none, some, ◌≡◌, ◌∙◌, refl, List, Option, ℕ, sym, ap}
use btc_idx_service.Prelude.Run.{ok, Holds, Holds-resume, Holds-ok}
use btc_idx_service.Startup.{
  Networks, IsNetworks, create_harvester, Config, boot, Boot, run, Environment, Harvester,
  ConfigRow, set_network, build_service_config, restarts, assert_environment, begin, unwrap,
  connect_and_migrate,
}
use btc_idx_service.ConfigTable.{ConfigRow}
use btc_idx_service.Harvester.{Harvester}
use btc_idx_service.Startup.Connected.{connect_and_migrate-Keeps}

module _ (x : Networks) where
  -- The network of the configuration, and the database belongs to it.
  abbrev pub PinnedBy : Config → Environment → Type 0
  PinnedBy config s = (n : ℕ) × ((x.from_core_arg config.magic ≡ some n) × IsPinned x n s)

  assert_after :
      (n : ℕ) (config : Config)
      → x.from_core_arg config.magic ≡ some n
      → (s : Environment) → s.network ≡ some n
      → Holds (λ _ t. PinnedBy config t) (create_harvester x config s)
  unfolding create_harvester
  assert_after n config e s known =
      Holds-resume (λ _ t. IsPinned x n t) (λ _ t. PinnedBy config t) (assert_environment x s) _
        (assert_environment_pins x n s known) (λ _ t h. (n, (e, h)))

  boot_pins : (b : Boot) (s : Environment) → Holds (λ _ t. PinnedBy b.config t) (boot x b s)
  unfolding boot run set_network build_service_config
  boot_pins b s = go (x.from_core_arg b.config.magic) refl
    where
      go :
          (o : Option ℕ)
          → x.from_core_arg b.config.magic ≡ o
          → Holds
              (λ _ t. PinnedBy b.config t)
              (resume
                (unwrap o (begin b s))
                (λ network. set_network network >> build_service_config x b.config))
      go none e = tt
      go (some n) e =
          Holds-resume (λ _ t. t.network ≡ some n) (λ _ t. PinnedBy b.config t)
            (connect_and_migrate (record (begin b s) { network = some n }))
            (λ _. create_harvester x b.config)
            (Holds-state (λ t. t.network ≡ some n)
              (connect_and_migrate (record (begin b s) { network = some n }))
              ((connect_and_migrate-Keeps (λ t. t.network ≡ some n) (λ t stage fs h. h)).at
                (record (begin b s) { network = some n }) refl))
            (λ _ t known. assert_after n b.config e t known)

  module _ (codec : IsNetworks x) where
    IsPinned-eq : (n m : ℕ) (s : Environment) → IsPinned x n s → IsPinned x m s → some n ≡ some m
    IsPinned-eq n m s p q =
        let read_back : Option ConfigRow → Option ℕ =
          λ o. elim o [ none ↦ none | some r ↦ x.deserialize r.value ] in
        sym (codec.deserialize-serialize n)
        ∙ ap read_back (sym p ∙ q)
        ∙ codec.deserialize-serialize m

    -- Once a start of the service has succeeded, every later one that succeeds on the same database,
    -- after any starts in between and whatever became of these, is for the same network.
    pub network_is_fixed :
        (b c : Boot) (bs : List Boot) (s t u : Environment) (h k : Harvester)
        → boot x b s ≡ (ok h, t)
        → boot x c (restarts x bs t) ≡ (ok k, u)
        → x.from_core_arg c.config.magic ≡ x.from_core_arg b.config.magic
    network_is_fixed b c bs s t u h k first later =
        let (n, (en, pn)) =
          Holds-ok (λ _ s'. PinnedBy b.config s') (boot x b s) h t (boot_pins b s) first in
        let (m, (em, pm)) =
          Holds-ok (λ _ s'. PinnedBy c.config s') (boot x c (restarts x bs t)) k u
            (boot_pins c (restarts x bs t)) later in
        let still =
          rw later at
            (boot_keeps x codec n c (restarts x bs t) (restarts_keep x codec n bs t pn)) in
        em ∙ IsPinned-eq m n u pm still ∙ sym en
