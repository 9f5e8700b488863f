-- ===== src/Tests/Running.antt =====
-- The running service on the fixtures.
use btc_idx_service.Harvester.{auto_scan, terminate, Command}
use btc_idx_service.System.Running.{signal, service_of, new_aggregator}
use btc_idx_service.System.Shutdown.{signal-ends_harvester}
use btc_idx_service.Tests.Fixtures.{externals, in_order, ledger-IsBalanced, chain, ledger}
use btc_idx_service.Tests.Following.{harvester, node, silent}
use btc_idx_service.Tests.Requested.{web, scanning}
use btc_idx_service.Tests.Rows.{chain-IsConsistent}
use btc_idx_service.System.Running.{
  Running, with_site, with_harvester, site, goes_on, idle, next, asked, commanded,
}
use btc_idx_service.System.Lasting.{AreInOrder, Runs-AreInOrder}
use btc_idx_service.System.Stopped.{after_scan, scan_ends_service}
use btc_idx_service.Api.Service.{service}
use btc_idx_service.Api.Effects.{is_done}
use btc_idx_service.Api.Protected
use btc_idx_service.Harvester.{start, received, scan_blocks}
use btc_idx_service.Prelude.{some, [], true, false, ◌∷◌, ◌≡◌, refl, ◌+◌, ◌≤◌, ◌⊎◌, List, length}
use btc_idx_service.Api.Protected
use btc_idx_service.Client.{scan_block, get_block_hash}
use btc_idx_service.Processor.{rpc}

abbrev running : Running
running = service_of harvester (new_aggregator ledger (λ n. n) [])

-- After a request for a scan, and after the harvester has taken the command.
abbrev requested : Running
requested = with_site running (service web scanning (site running)).1

abbrev scanned : Running
scanned =
    with_harvester requested
      (start externals node (received (some (scan_blocks 3 8)) ∷ []) requested.harvester).1 []
      (goes_on (scan_blocks 3 8)
        (start externals node (received (some (scan_blocks 3 8)) ∷ []) requested.harvester))

Runs-AreInOrder_example : AreInOrder scanned
unfolding service Protected.route Protected.scan_block
Runs-AreInOrder_example =
    Runs-AreInOrder externals in_order web running scanned
      (next (next idle (asked scanning)) (commanded node (scan_blocks 3 8) [] refl refl))
      (record { chain = chain-IsConsistent; ledger = ledger-IsBalanced })

-- The harvester cannot scan, and another request comes.
abbrev stopped : Running
stopped = after_scan externals in_order web silent 6 9 [] running

abbrev asked_again : Running
asked_again = with_site stopped (service web scanning (site stopped)).1

scan_ends_service_example :
    (asked_again.harvester.world.chain ≡ chain)
    × (is_done (service web scanning (site asked_again)).0 ≡ false)
unfolding scan_block get_block_hash
scan_ends_service_example =
    scan_ends_service externals in_order web silent 6 9 [] running asked_again scanning rpc 1 refl
      (next idle (asked scanning)) refl

-- The signal comes while the command to resume waits; the harvester takes it, and a request comes.
abbrev busy : Running
busy = record running { channel = record { queue = auto_scan ∷ []; receiving = true } }

abbrev resumed : Running
resumed =
    with_harvester (signal busy)
      (start externals node (received (some auto_scan) ∷ []) busy.harvester).1 (terminate ∷ [])
      (goes_on auto_scan (start externals node (received (some auto_scan) ∷ []) busy.harvester))

abbrev asked_late : Running
asked_late = with_site resumed (service web scanning (site resumed)).1

signal-ends_harvester_example :
    (1 ≤ length busy.channel.queue + 1)
    × ((asked_late.channel.receiving ≡ false)
        ⊎ ((c : Command) × (cs : List Command) × (asked_late.channel.queue ≡ c ∷ cs)))
signal-ends_harvester_example =
    signal-ends_harvester externals in_order web busy asked_late
      (next (next idle (commanded node auto_scan (terminate ∷ []) refl refl)) (asked scanning)) refl
