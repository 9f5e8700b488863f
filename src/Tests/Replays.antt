-- ===== src/Tests/Replays.antt =====
-- A block that fails, and is processed when it is tried again.
use btc_idx_service.Processor.{
  sqlx, World, process, process_block, index_transactions, process_transactions, spend_inputs,
  create_outputs, send_events, set_balance, action_of,
}
use btc_idx_service.Processor.Spending.Replayed.{
  starts, commits, fails, Follows, Follows-replay, replay,
}
use btc_idx_service.Prelude.{[], true, ◌∷◌, ◌≡◌, refl}
use btc_idx_service.Tests.Fixtures.{world, externals, block, externals-IsWalk}
use btc_idx_service.Chain.Unspent.{unspent_at}
use btc_idx_service.Chain.{
  upsert_block, upsert_transaction, get_relevant_utxos, spend_utxo, create_utxo,
}
use btc_idx_service.Prelude.Int.{◌+ℤ◌, ◌-ℤ◌}
use btc_idx_service.Sql.{io}

-- The connection fails at the first call, and the block is tried again.
abbrev unlucky : World
unlucky = record world { faults = true ∷ [] }

abbrev not_committed : World
not_committed = record world { faults = [] }

abbrev retried : World
retried = (process externals block not_committed).1

retried-Follows : Follows externals unlucky (block ∷ []) retried
unfolding process process_block index_transactions process_transactions spend_inputs create_outputs
    send_events set_balance action_of upsert_block upsert_transaction get_relevant_utxos spend_utxo
    create_utxo ◌+ℤ◌ ◌-ℤ◌
retried-Follows = commits block retried (fails block (sqlx io) not_committed starts refl) refl

Follows-replay_example :
    unspent_at retried.chain.utxos ≡ replay externals (block ∷ []) (unspent_at world.chain.utxos)
Follows-replay_example =
    Follows-replay externals externals-IsWalk unlucky (block ∷ []) retried (refl, tt)
      (((refl, (refl, tt)), tt), tt) retried-Follows
