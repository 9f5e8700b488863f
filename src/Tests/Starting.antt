-- ===== src/Tests/Starting.antt =====
-- Starts of the service on a small database.
use btc_idx_service.Tests.Fixtures.{chain}
use btc_idx_service.Processor.{other}
use btc_idx_service.Prelude.{
  none, some, [], true, false, inl, ◌∷◌, ◌≡◌, ◌+◌, ◌-◌, ◌==◌, refl, arith, ℕ, if◌then◌else◌, ltb,
}
use btc_idx_service.Prelude.Run.{ok, err, Returns}
use btc_idx_service.ConfigTable.Stored.{IsConfig, get_config-upsert_config}
use btc_idx_service.Startup.{
  Config, IsNetworks, Boot, Environment, Networks, boot, begin, new_harvester, run, set_network,
  build_service_config, create_harvester, assert_environment, created, migrated,
  connect_and_migrate, create_database,
}
use btc_idx_service.Startup.Outcomes.{
  started, boot_fails_on_other_network, boot_succeeds, started_harvester,
}
use btc_idx_service.ConfigTable.{row_of, get_config, upsert_config}
use btc_idx_service.Startup.Restart.{network_is_fixed}
use btc_idx_service.Startup.Pinned.{IsPinned}

-- Two networks, by their own names, and JSON that adds one.
abbrev networks : Networks
networks = record {
  from_core_arg = λ text. if ltb text 2 then some text else none;
  serialize = λ n. n + 1;
  deserialize = λ json. if json == 0 then none else some (json - 1);
}

networks-IsNetworks : IsNetworks networks
networks-IsNetworks = record { deserialize-serialize = go }
  where
    go : (n : ℕ) → networks.deserialize (networks.serialize n) ≡ some n
    go n = ground arith

abbrev testnet : Config
testnet = record { magic = 1; provider_url = 0; poll_frequency_ms = 500; start_block = some 3 }

abbrev other_config : Config
other_config = record testnet { magic = 0 }

abbrev bare : Environment
bare = record {
  network = none;
  stage = created;
  config = row_of 7 9 ∷ [];
  chain = chain;
  faults = [];
}

abbrev first_boot : Boot
first_boot = record { config = testnet; chain = chain; faults = [] }

abbrev other_boot : Boot
other_boot = record { config = other_config; chain = chain; faults = [] }

abbrev lost_boot : Boot
lost_boot = record { config = testnet; chain = chain; faults = false ∷ true ∷ [] }

bare-IsConfig : IsConfig bare.config
bare-IsConfig k = ground arith

abbrev after_first : Environment
after_first = started networks first_boot 1 bare

get_config-upsert_config_example :
    Returns
      (λ _ rows'.
        IsConfig rows'
        × ((get_config networks.deserialize 7 rows').0
            ≡ (if 7 == 7 then ok (some 4) else (get_config networks.deserialize 7 bare.config).0)))
      (upsert_config networks.serialize 7 4 bare.config)
get_config-upsert_config_example =
    get_config-upsert_config networks.serialize networks.deserialize 7 7 4 bare.config
      networks-IsNetworks.deserialize-serialize bare-IsConfig

boot_succeeds_example :
    (boot networks first_boot bare ≡ (ok (started_harvester networks first_boot), after_first))
    × IsPinned networks 1 after_first
boot_succeeds_example =
    boot_succeeds networks networks-IsNetworks first_boot 1 bare refl refl bare-IsConfig (inl refl)

abbrev refused : Environment
refused = record (begin other_boot after_first) { network = some 0; stage = migrated }

boot_fails_on_other_network_example : boot networks other_boot after_first ≡ (err other, refused)
boot_fails_on_other_network_example =
    boot_fails_on_other_network networks networks-IsNetworks other_boot 0 1 after_first refl refl
      refl (λ e. ground (arith, e))

-- Between two starts for the testnet one for the other network is refused, and one loses the
-- connection.
network_is_fixed_example : networks.from_core_arg 1 ≡ networks.from_core_arg 1
unfolding boot run set_network build_service_config create_harvester assert_environment get_config
    upsert_config connect_and_migrate create_database
network_is_fixed_example =
    network_is_fixed networks networks-IsNetworks first_boot first_boot
      (other_boot ∷ lost_boot ∷ []) bare after_first after_first
      (new_harvester (some 3) none chain []) (new_harvester (some 3) none chain []) refl refl
