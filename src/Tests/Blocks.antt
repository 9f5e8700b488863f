-- ===== src/Tests/Blocks.antt =====
-- The processor on the block of the fixtures.
use btc_idx_service.Prelude.{[], true, false, ◌∷◌, ◌≡◌, refl}
use btc_idx_service.Prelude.Run.{ok, Holds, Returns}
use btc_idx_service.Prelude.Int.{pos, negsuc, ◌+ℤ◌, ◌-ℤ◌}
use btc_idx_service.Processor.{
  process, process_block, index_transactions, process_transactions, spend_inputs, create_outputs,
  send_events, set_balance, action_of,
}
use btc_idx_service.Processor.Rules.{Commits}
use btc_idx_service.Aggregator.Worth.{worth}
use btc_idx_service.Tests.Fixtures.{
  world, externals, block, aggregator, externals-IsWalk, in_order, in_order-IsArrangement,
  aggregator-IsQuiet,
}
use btc_idx_service.Processor.Messages.{Sends, process-Sends}
use btc_idx_service.Processor.Conservation.{Conserves, process-Conserves}
use btc_idx_service.Chain.Totals.{unspent_total}
use btc_idx_service.Aggregator.{start}
use btc_idx_service.System.Pipeline.{block_reaches_ledger, committed_block_is_handled}
use btc_idx_service.Chain.{
  upsert_block, upsert_transaction, get_relevant_utxos, spend_utxo, create_utxo,
}
use btc_idx_service.Types.{event, new_event, receive, send}

-- The messages of the block, and the utxos after it.
process_runs :
    let (r, w) = process externals block world in
    (r ≡ ok tt)
    × (w.sent
        ≡ event (new_event 5 8 5 (pos 60) receive true)
          ∷ event (new_event 5 9 3 (negsuc 24) send false)
          ∷ event (new_event 5 9 4 (pos 20) receive false)
          ∷ [])
    × (unspent_total 3 w.chain.utxos ≡ pos 25)
unfolding process process_block index_transactions process_transactions spend_inputs create_outputs
    send_events set_balance action_of upsert_block upsert_transaction get_relevant_utxos spend_utxo
    create_utxo unspent_total ◌+ℤ◌ ◌-ℤ◌
process_runs = (refl, refl, refl)

process-Conserves_example :
    Commits world (λ _ w'. Conserves 3 world w'.chain w'.sent) (process externals block world)
process-Conserves_example = process-Conserves externals externals-IsWalk 3 block world

process-Sends_example : Holds (Sends 5 world) (process externals block world)
process-Sends_example = process-Sends externals block world

block_reaches_ledger_example :
    Holds
      (λ _ w'.
        Holds
          (λ _ g'.
            worth 3 g'.ledger +ℤ unspent_total 3 world.chain.utxos
            ≡ worth 3 aggregator.ledger +ℤ unspent_total 3 w'.chain.utxos)
          (start in_order w'.sent aggregator))
      (process externals block world)
block_reaches_ledger_example =
    block_reaches_ledger externals in_order 3 block world aggregator externals-IsWalk
      in_order-IsArrangement refl

committed_block_is_handled_example :
    Holds
      (λ _ w'.
        Returns
          (λ _ g'.
            worth 3 g'.ledger +ℤ unspent_total 3 world.chain.utxos
            ≡ worth 3 aggregator.ledger +ℤ unspent_total 3 w'.chain.utxos)
          (start in_order w'.sent aggregator))
      (process externals block world)
committed_block_is_handled_example =
    committed_block_is_handled externals in_order 3 block world aggregator externals-IsWalk
      in_order-IsArrangement refl aggregator-IsQuiet
