-- ===== src/System/Running.antt =====
-- The running service of bin/bis/src/mono.rs: the web API, the task of the harvester, the task of the
-- aggregator and the signal to shut down, each at its own pace.
use btc_idx_service.Commands
use btc_idx_service.Harvester
use btc_idx_service.Aggregator
use btc_idx_service.Harvester.{Harvester, Command, received, elapsed}
use btc_idx_service.Aggregator.{Aggregator, cleanup}
use btc_idx_service.Prelude.{◌≡◌, List, Bool, true, false, some, [], ◌∷◌, ℕ}
use btc_idx_service.Prelude.Run.{Outcome, ok, err, panic}
use btc_idx_service.Types.{P2trEvent, AggregatorMsg}
use btc_idx_service.Commands.{Channel}
use btc_idx_service.Processor.{Externals}
use btc_idx_service.Client.{Node}
use btc_idx_service.Api.Service.{Site, Web, Request, service}
use btc_idx_service.Harvester.Cancelled.{cancelled}
use btc_idx_service.Ledger.{Ledger}

-- `channel.receiving` says whether the task of the harvester runs, and `harvester.world.receiving`
-- whether that of the aggregator does: each holds the receiving end of its channel. The messages
-- under way are `harvester.world.sent`.
pub record Running : Type 0 where
  pub harvester : Harvester
  pub aggregator : Aggregator
  pub channel : Channel
  pub notified : Bool
  pub cleaning : Bool

-- `Aggregator::new`, on the tables that are there.
abbrev pub new_aggregator : Ledger → (ℕ → ℕ) → List Bool → Aggregator
new_aggregator ledger clock faults = record {
  ledger = ledger;
  last_block_number = 0;
  clock = clock;
  readings = 0;
  faults = faults;
}

-- The service as `build_service_config` hands it to its tasks.
abbrev pub service_of : Harvester → Aggregator → Running
service_of harvester aggregator = record {
  harvester = harvester;
  aggregator = aggregator;
  channel = record { queue = []; receiving = true };
  notified = false;
  cleaning = false;
}

-- What a request sees and may change.
abbrev pub site : Running → Site
site r = record {
  database = record { chain = r.harvester.world.chain; ledger = r.aggregator.ledger };
  channel = r.channel;
}

abbrev pub with_site : Running → Site → Running
with_site r s = record r {
  harvester = record r.harvester { world = record r.harvester.world { chain = s.database.chain } };
  aggregator = record r.aggregator { ledger = s.database.ledger };
  channel = s.channel;
}

abbrev pub returned : {S E A : Type 0} → Outcome E A × S → Bool
returned (ok a, s) = true
returned (err e, s) = false
returned (panic, s) = false

-- The command to terminate ends the loop, and so does what a command fails with.
abbrev pub goes_on : {S E A : Type 0} → Command → Outcome E A × S → Bool
goes_on Harvester.terminate o = false
goes_on Harvester.pause o = returned o
goes_on Harvester.auto_scan o = returned o
goes_on (Harvester.scan_blocks from to) o = returned o

-- The task of the harvester after a turn, and that of the aggregator after a message: one that ends
-- drops its receiver.
abbrev pub with_harvester : Running → Harvester → List Command → Bool → Running
with_harvester r h commands on = record r {
  harvester = h;
  channel = record { queue = commands; receiving = on };
}

abbrev pub with_aggregator : Running → Aggregator → List AggregatorMsg → Bool → Running
with_aggregator r g messages on = record r {
  harvester = record r.harvester {
    world = record r.harvester.world { sent = messages; receiving = on };
  };
  aggregator = g;
}

-- The shutdown handlers: the harvester sends itself the command to terminate, and the aggregator is
-- notified.
abbrev pub signal : Running → Running
signal r = record r { channel = (Commands.terminate r.channel).1; notified = true }

module _ (x : Externals) (arrange : List P2trEvent → List P2trEvent) (web : Web) where
  -- A harvest is one step, which starts where no command waits; one that a command cuts short ends at
  -- any of its calls. The node may answer otherwise at each step.
  pub data Step (r : Running) : Running → Type 0 where
    asked : (req : Request) → Step r (with_site r (service web req (site r)).1)
    commanded :
        (node : Node) (c : Command) (cs : List Command)
        → r.channel.receiving ≡ true
        → r.channel.queue ≡ c ∷ cs
        → Step r (
            with_harvester r
              (Harvester.start x node (received (some c) ∷ []) r.harvester).1
              cs
              (goes_on c (Harvester.start x node (received (some c) ∷ []) r.harvester)))
    harvested :
        (node : Node)
        → r.channel.receiving ≡ true
        → r.channel.queue ≡ []
        → Step r (
            with_harvester r
              (Harvester.start x node (elapsed ∷ []) r.harvester).1
              []
              (returned (Harvester.start x node (elapsed ∷ []) r.harvester)))
    cut_short :
        (node : Node) (faults : List Bool) (c : Command) (cs : List Command)
        → r.channel.receiving ≡ true
        → r.channel.queue ≡ c ∷ cs
        → Step r (with_harvester r (cancelled x node faults r.harvester) (c ∷ cs) true)
    handled :
        (m : AggregatorMsg) (ms : List AggregatorMsg)
        → r.harvester.world.receiving ≡ true
        → r.cleaning ≡ false
        → r.harvester.world.sent ≡ m ∷ ms
        → Step r (
            with_aggregator r
              (Aggregator.start arrange (m ∷ []) r.aggregator).1
              ms
              (returned (Aggregator.start arrange (m ∷ []) r.aggregator)))
    signalled : Step r (signal r)
    turned :
        r.harvester.world.receiving ≡ true
        → r.notified ≡ true
        → r.harvester.world.sent ≡ []
        → Step r (record r { cleaning = true; notified = false })
    cleaned :
        (m : AggregatorMsg) (ms : List AggregatorMsg)
        → r.harvester.world.receiving ≡ true
        → r.cleaning ≡ true
        → r.harvester.world.sent ≡ m ∷ ms
        → Step r (
            with_aggregator r
              (cleanup arrange (m ∷ []) r.aggregator).1
              ms
              (returned (cleanup arrange (m ∷ []) r.aggregator)))

  pub data Runs (r : Running) : Running → Type 0 where
    idle : Runs r r
    next : {t u : Running} → Runs r t → Step t u → Runs r u
