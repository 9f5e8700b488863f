-- ===== src/Startup/Outcomes.antt =====
-- What a start comes to without faults.
use btc_idx_service.Startup.Pinned.{IsPinned}
use btc_idx_service.ConfigTable.Stored.{IsConfig, affected_lem, find-write}
use btc_idx_service.Prelude.{
  none, some, [], inl, inr, ◌≡◌, ◌==◌, ◌⊎◌, refl, List, ℕ, find, Bool-cases, ==_iff, true,
}
use btc_idx_service.Prelude.Run.{ok, err}
use btc_idx_service.Startup.{
  Networks, ConfigRow, IsNetworks, Boot, Environment, boot, begin, run, set_network, network_info,
  build_service_config, create_harvester, assert_environment, other, new_harvester, migrated,
}
use btc_idx_service.ConfigTable.{ConfigRow, has_key, write, row_of, get_config, upsert_config}
use btc_idx_service.Client.{other}
use btc_idx_service.Startup.Connected.{connect_and_migrate_lem}
use btc_idx_service.Harvester.{Harvester}

module _ (x : Networks) where
  -- The database belongs to no network yet, or to `n`.
  abbrev pub IsOpenTo : ℕ → List ConfigRow → Type 0
  IsOpenTo n rows =
      (find (has_key network_info) rows ≡ none)
      ⊎ (find (has_key network_info) rows ≡ some (row_of network_info (x.serialize n)))

  abbrev pub started : Boot → ℕ → Environment → Environment
  started b n s = record (begin b s) {
    network = some n;
    stage = migrated;
    config = write network_info (x.serialize n) s.config;
  }

  -- The harvester of a start: at the configured block, without an end, with nothing processed and with
  -- nothing sent, on the tables that are there.
  abbrev pub started_harvester : Boot → Harvester
  started_harvester b = record {
    start_height = b.config.start_block;
    end_height = none;
    last_processed_block = none;
    world = record { chain = b.chain; sent = []; receiving = true; faults = [] };
    requests = 0;
  }

  module _ (codec : IsNetworks x) where
    -- Without faults, a start for a known network on a database that is not there yet, is new or belongs
    -- to this network, with unique keys in its configuration table, succeeds: the database is migrated,
    -- the harvester starts at the configured block, without an end and with nothing processed, and the
    -- network is recorded.
    pub boot_succeeds :
        (b : Boot) (n : ℕ) (s : Environment)
        → b.faults ≡ []
        → x.from_core_arg b.config.magic ≡ some n
        → IsConfig s.config
        → IsOpenTo n s.config
        → (boot x b s ≡ (ok (started_harvester b), started b n s)) × IsPinned x n (started b n s)
    unfolding boot run set_network build_service_config create_harvester assert_environment
        get_config upsert_config new_harvester
    boot_succeeds b n s healthy known unique (inl e) = (
      rw
          (
            healthy,
            known,
            connect_and_migrate_lem (record (begin b s) { network = some n; faults = [] }) refl,
            e,
            affected_lem network_info s.config unique,
          )
          refl,
      find-write network_info (x.serialize n) s.config,
    )
    boot_succeeds b n s healthy known unique (inr e) = (
      rw
          (
            healthy,
            known,
            connect_and_migrate_lem (record (begin b s) { network = some n; faults = [] }) refl,
            e,
            codec.deserialize-serialize n,
            (==_iff n n).1 refl,
            affected_lem network_info s.config unique,
          )
          refl,
      find-write network_info (x.serialize n) s.config,
    )

    -- On a database that belongs to another network, a start without faults fails before it writes to
    -- a table.
    pub boot_fails_on_other_network :
        (b : Boot) (n m : ℕ) (s : Environment)
        → b.faults ≡ []
        → x.from_core_arg b.config.magic ≡ some n
        → IsPinned x m s
        → (n ≡ m → ⊥)
        → boot x b s ≡ (err other, record (begin b s) { network = some n; stage = migrated })
    unfolding boot run set_network build_service_config create_harvester assert_environment
        get_config
    boot_fails_on_other_network b n m s healthy known pinned differ = elim (Bool-cases (n == m)) [
      | inl e ↦ absurd (differ ((==_iff n m).0 e))
      | inr e ↦
          rw
            (
              healthy,
              known,
              connect_and_migrate_lem (record (begin b s) { network = some n; faults = [] }) refl,
              pinned,
              codec.deserialize-serialize m,
              e,
            )
            refl
    ]
