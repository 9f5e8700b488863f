-- ===== src/Startup.antt =====
-- bin/bis/src/mono.rs and `Client::assert_environment`: the start of the service.
pub mod Connected
pub mod Pinned
pub mod Restart
pub mod Outcomes
use btc_idx_service.Prelude.{
  none, some, [], true, ◌∷◌, ◌≡◌, ◌==◌, List, Bool, Option, ℕ, if◌then◌else◌, false,
}
use btc_idx_service.Prelude.Run.{ok, err, panic, ◌>>=◌, ◌>>◌, pure, Outcome, Run, raise}
use btc_idx_service.Chain.{Chain}
use btc_idx_service.Harvester.{Harvester}
use btc_idx_service.Sql.{Statement, SqlError, io}
use btc_idx_service.ConfigTable.{ConfigRow, get_config, upsert_config}
use btc_idx_service.Processor.{ProcessorError, other, sqlx}

-- `config::Config`. A text is a number.
pub record Config : Type 0 where
  pub magic : ℕ
  pub provider_url : ℕ
  pub poll_frequency_ms : ℕ
  pub start_block : Option ℕ

-- How far the database has come: the migrations make the tables, which are empty before.
pub data Stage : Type 0 where
  absent created migrated : Stage

-- What a start works on: `BTC_NETWORK`, the database, and the faults of the connection to come.
pub record Environment : Type 0 where
  pub network : Option ℕ
  pub stage : Stage
  pub config : List ConfigRow
  pub chain : Chain
  pub faults : List Bool

-- `Network::from_core_arg` and the JSON of a network, of the crate bitcoin.
pub record Networks : Type 0 where
  pub from_core_arg : ℕ → Option ℕ
  pub serialize : ℕ → ℕ
  pub deserialize : ℕ → Option ℕ

pub record IsNetworks (x : Networks) : Type 0 where
  pub deserialize-serialize : (n : ℕ) → x.deserialize (x.serialize n) ≡ some n

abbrev pub E : Type 0 → Type 0
E A = Run Environment ProcessorError A

abbrev pub settle_config : {A : Type 0} → Outcome SqlError A × List ConfigRow → E A
settle_config (ok a, c) s = (ok a, record s { config = c })
settle_config (err e, c) s = (err (sqlx e), record s { config = c })
settle_config (panic, c) s = (panic, record s { config = c })

-- One database call, by the next of the faults.
abbrev pub exec_config : {A : Type 0} → Statement (List ConfigRow) A → E A
exec_config q s = elim s.faults [
  | [] ↦ settle_config (q s.config) s
  | fault ∷ rest ↦
      if fault
      then (err (sqlx io), record s { faults = rest })
      else settle_config (q s.config) (record s { faults = rest })
]

-- A call to the server by the next of the faults.
abbrev pub call : {A : Type 0} → E A → E A
call q s = elim s.faults [
  | [] ↦ q s
  | fault ∷ rest ↦
      if fault then (err (sqlx io), record s { faults = rest }) else q (record s { faults = rest })
]

abbrev pub is_there : Stage → Bool
is_there absent = false
is_there created = true
is_there migrated = true

abbrev pub set_stage : Stage → E (Unit {0})
set_stage stage s = (ok tt, record s { stage = stage })

abbrev pub database_exists : E Bool
database_exists = call (λ s. (ok (is_there s.stage), s))

abbrev pub create_unless : Bool → E (Unit {0})
create_unless exists = if exists then pure tt else call (set_stage created)

-- `core/src/sqlx_postgres/mod.rs`.
unfoldable pub create_database : E (Unit {0})
create_database = database_exists >>= create_unless

-- The pool, and then the migrations that have not been run.
unfoldable pub connect_and_migrate : E (Unit {0})
connect_and_migrate = do create_database; call (pure tt); call (set_stage migrated)

-- `unwrap` and `expect`.
abbrev pub unwrap : {A : Type 0} → Option A → E A
unwrap none s = (panic, s)
unwrap (some a) s = (ok a, s)

-- `BTC_NETWORK.set(network).expect(…)`.
unfoldable pub set_network : ℕ → E (Unit {0})
set_network network s = elim s.network [
  | none ↦ (ok tt, record s { network = some network })
  | some n ↦ (panic, s)
]

-- The key "network_info".
abbrev pub network_info : ℕ
network_info = 0

abbrev pub same_network : ℕ → Option ℕ → E (Unit {0})
same_network env none = pure tt
same_network env (some info) = if env == info then pure tt else raise other

-- `Harvester::new`, on a new channel to the aggregator.
unfoldable pub new_harvester : Option ℕ → Option ℕ → Chain → List Bool → Harvester
new_harvester start_height end_height chain faults = record {
  start_height = start_height;
  end_height = end_height;
  last_processed_block = none;
  world = record { chain = chain; sent = []; receiving = true; faults = faults };
  requests = 0;
}

module _ (x : Networks) where
  unfoldable pub assert_environment : E (Unit {0})
  assert_environment = do
    env ← λ s. unwrap s.network s
    info ← exec_config (get_config x.deserialize network_info)
    same_network env info
    exec_config (upsert_config x.serialize network_info env)

  unfoldable pub create_harvester : Config → E Harvester
  create_harvester config = do
    assert_environment
    λ s. (ok (new_harvester config.start_block none s.chain s.faults), s)

  unfoldable pub build_service_config : Config → E Harvester
  build_service_config config = do connect_and_migrate; create_harvester config

  -- The service up to the point where its tasks run.
  unfoldable pub run : Config → E Harvester
  run config = do
    network ← unwrap (x.from_core_arg config.magic)
    set_network network
    build_service_config config

-- A start in a process of its own, on the chain tables that the processes before have left.
pub record Boot : Type 0 where
  pub config : Config
  pub chain : Chain
  pub faults : List Bool

abbrev pub begin : Boot → Environment → Environment
begin b s = record {
  network = none;
  stage = s.stage;
  config = s.config;
  chain = b.chain;
  faults = b.faults;
}

module _ (x : Networks) where
  unfoldable pub boot : Boot → E Harvester
  boot b s = run x b.config (begin b s)

  -- What starts one after the other leave, whatever becomes of each.
  abbrev pub restarts : List Boot → Environment → Environment
  restarts [] s = s
  restarts (b ∷ bs) s = restarts bs (boot b s).1
