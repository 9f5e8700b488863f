-- ===== src/Harvester/Errors.antt =====
-- An error that ends the main loop.
use btc_idx_service.Prelude.{some, ◌∷◌, ◌≡◌, arith, List, ℕ}
use btc_idx_service.Prelude.Run.{ok, err}
use btc_idx_service.Harvester.Defs.{Turn, retry, received, start, scan_blocks, scan_from}
use btc_idx_service.Processor.{Externals, ProcessorError}
use btc_idx_service.Harvester.State.{Harvester, raised, client}
use btc_idx_service.Client.{Node, scan_block}

module _ (x : Externals) (node : Node) where
  -- A command to scan while the node does not give its first block ends the main loop with an error
  -- of the client, one that a harvest would have retried, whatever rounds were to follow.
  pub start_scan_fails :
      (from to : ℕ) (turns : List Turn) (h : Harvester) (e : ProcessorError) (k : ℕ)
      → scan_block node (some from) h.requests ≡ (err e, k)
      → ((start x node (received (some (scan_blocks from to)) ∷ turns) h).0
          ≡ err (raised (client e)))
        × ((retry (err (raised (client e)), h)).0 ≡ ok tt)
  unfolding start scan_from retry
  start_scan_fails from to turns h e k fails = ground arith
