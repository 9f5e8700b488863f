-- ===== src/Tests/Rows.antt =====
-- The tables of the fixtures before and after the block.
use btc_idx_service.Tests.Fixtures.{world, externals, block, chain, externals-IsWalk}
use btc_idx_service.Prelude.Run.{ok, Returns, Holds, ◌>>=◌}
use btc_idx_service.Prelude.{◌≡◌, refl, arith, [], ◌∷◌}
use btc_idx_service.Chain.Undo.{IsBefore}
use btc_idx_service.Processor.Writes.{has_row}
use btc_idx_service.Processor.Success.{IsQuiet}
use btc_idx_service.Processor.Completes.{HasAddresses}
use btc_idx_service.Chain.Keys.{IsConsistent}
use btc_idx_service.Chain.{delete_blocks_since, unspend_utxos_spent_since_block}
use btc_idx_service.Processor.Conservation.{Conserves}
use btc_idx_service.Processor.Undo.{AreNew, process-undo}
use btc_idx_service.Processor.{process, process_fork}
use btc_idx_service.Processor.Liveness.{process-Returns}
use btc_idx_service.Processor.Fork.{Announces, process_fork-Announces}

pub chain-IsConsistent : IsConsistent chain
chain-IsConsistent = record {
  blocks = (refl, tt);
  transactions = (refl, tt);
  outputs = (refl, tt);
  in_block = (refl, tt);
  in_transaction = (refl, tt);
}

chain-IsBefore : IsBefore 5 chain
chain-IsBefore = record { blocks = (refl, tt); spent = (refl, tt) }

block-AreNew : AreNew externals block.txdata chain
unfolding has_row
block-AreNew = (refl, (refl, tt))

world-IsQuiet : IsQuiet world
world-IsQuiet = record { sound = refl; open_end = refl }

externals-HasAddresses : HasAddresses externals
externals-HasAddresses s h = (s, refl)

process-undo_example :
    Holds
      (λ _ w'.
        (delete_blocks_since 5 >>= λ _. unspend_utxos_spent_since_block 5) w'.chain
        ≡ (ok tt, chain))
      (process externals block world)
process-undo_example =
    process-undo externals block world (omega arith) chain-IsBefore refl block-AreNew
      chain-IsConsistent

process-Returns_example :
    Returns
      (λ _ w'. IsQuiet w' × Conserves 3 world w'.chain w'.sent)
      (process externals block world)
process-Returns_example =
    process-Returns externals externals-IsWalk externals-HasAddresses 3 block world 1600 refl
      world-IsQuiet chain-IsConsistent (omega arith) chain-IsBefore refl block-AreNew
      (refl, (refl, tt))

process_fork-Announces_example :
    Holds
      (λ _ w'. Announces (block ∷ []) world.sent w'.sent)
      (process_fork externals (block ∷ []) world)
process_fork-Announces_example = process_fork-Announces externals (block ∷ []) world
