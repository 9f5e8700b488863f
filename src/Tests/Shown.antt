-- ===== src/Tests/Shown.antt =====
-- What the web API shows of the fixtures.
use btc_idx_service.Tests.Fixtures.{externals, chain, ledger}
use btc_idx_service.System.Interleaving.{Service, Reach, here, next, commits, handles}
use btc_idx_service.Api.Agreement.{p2tr_balance-agrees}
use btc_idx_service.Tests.Fixtures.{
  world, block, externals-IsWalk, in_order, in_order-IsArrangement, aggregator,
}
use btc_idx_service.Aggregator.{
  Aggregator, handle_message, handle_event, insert_pending_event, commit_pending_events,
  record_event, insert_event, update_total_balance, update_statistic_balance_change,
}
use btc_idx_service.Processor.{
  process, World, process_block, index_transactions, process_transactions, spend_inputs,
  create_outputs, send_events, set_balance, action_of,
}
use btc_idx_service.Prelude.{some, [], ◌≡◌, ◌⊎◌, refl, arith, true, false, ◌∷◌}
use btc_idx_service.Prelude.Run.{ok, err, Returns}
use btc_idx_service.Prelude.Int.{pos, ◌+ℤ◌, ◌-ℤ◌}
use btc_idx_service.Types.{Transaction, AggregatorMsg, event, new_event, receive}
use btc_idx_service.Ledger.Totals.{pending_total, any_block}
use btc_idx_service.Api.Reads.{transaction, p2tr_balance, p2tr_utxo}
use btc_idx_service.Chain.{
  upsert_transaction, upsert_block, get_relevant_utxos, spend_utxo, create_utxo,
}
use btc_idx_service.Processor.Undo.{transaction_row}
use btc_idx_service.Api.Utxos.{tables, satoshis}
use btc_idx_service.Api.Transactions.{transaction-upsert_transaction}
use btc_idx_service.Api.{missing}
use btc_idx_service.Ledger.{
  create_pending_p2tr_event, create_p2tr_event, increment_btc_balance, increment_static_balances,
}

-- A new service, after the block and its messages: 5 has a coinbase that waits, and 4 has 20.
abbrev new_service : Service
new_service = record {
  world = record world { chain = record { blocks = []; transactions = []; utxos = [] } };
  aggregator = record aggregator {
    ledger = record {
      events = [];
      pending = [];
      balances = [];
      statistics = [];
      next_sequence = 1;
    };
  };
}

abbrev committed : World
committed = (process externals block new_service.world).1

abbrev coinbase : AggregatorMsg
coinbase = event (new_event 5 8 5 (pos 60) receive true)

abbrev change : AggregatorMsg
change = event (new_event 5 9 3 (pos 25) receive false)

abbrev payment_to_4 : AggregatorMsg
payment_to_4 = event (new_event 5 9 4 (pos 20) receive false)

abbrev with_coinbase : Aggregator
with_coinbase = (handle_message in_order coinbase new_service.aggregator).1

abbrev with_change : Aggregator
with_change = (handle_message in_order change with_coinbase).1

abbrev settled : Service
settled = record {
  world = record committed { sent = [] };
  aggregator = (handle_message in_order payment_to_4 with_change).1;
}

settled-Reach : Reach externals in_order new_service settled
unfolding process process_block index_transactions process_transactions spend_inputs create_outputs
    send_events set_balance action_of upsert_block upsert_transaction get_relevant_utxos spend_utxo
    create_utxo handle_message handle_event insert_pending_event create_pending_p2tr_event
    commit_pending_events record_event ◌+ℤ◌ ◌-ℤ◌ insert_event create_p2tr_event update_total_balance
    increment_btc_balance update_statistic_balance_change increment_static_balances
settled-Reach =
    next
      (next
        (next (next here (commits block committed refl))
          (handles coinbase (change ∷ payment_to_4 ∷ []) with_coinbase refl refl))
        (handles change (payment_to_4 ∷ []) with_change refl refl))
      (handles payment_to_4 [] settled.aggregator refl refl)

settled_waits_for_nothing : pending_total any_block 4 settled.aggregator.ledger.pending ≡ pos 0
unfolding handle_message handle_event insert_pending_event create_pending_p2tr_event
    commit_pending_events record_event insert_event create_p2tr_event update_total_balance
    increment_btc_balance update_statistic_balance_change increment_static_balances pending_total
    ◌+ℤ◌
settled_waits_for_nothing = refl

p2tr_balance-agrees_example :
    Returns
      (λ us _.
        ((p2tr_balance (λ n. some n) 4 (tables settled)).0 ≡ ok (satoshis us))
        ⊎ (((p2tr_balance (λ n. some n) 4 (tables settled)).0 ≡ err missing)
            × (satoshis us ≡ pos 0)))
      (p2tr_utxo (λ n. some n) 4 (tables settled))
p2tr_balance-agrees_example =
    p2tr_balance-agrees externals externals-IsWalk in_order in_order-IsArrangement (λ n. some n) 4 4
      new_service settled refl
      (record {
        utxos = refl;
        sent = refl;
        events = refl;
        pending = refl;
        balances = refl;
        statistics = refl;
      })
      settled-Reach refl settled_waits_for_nothing

abbrev payment : Transaction
payment = record { version = pos 2; lock_time = 9; input = []; output = [] }

transaction-upsert_transaction_example :
    (transaction 9 (record {
      chain = (upsert_transaction (transaction_row externals 104 1 payment) chain).1;
      ledger = ledger;
    })).0
    ≡ ok (record {
      txid = 9;
      block_hash = 104;
      transaction_index = 1;
      lock_time = 9;
      version = pos 2;
    })
transaction-upsert_transaction_example =
    transaction-upsert_transaction externals 104 1 payment chain ledger (omega arith) refl refl
