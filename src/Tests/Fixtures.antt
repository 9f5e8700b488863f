-- ===== src/Tests/Fixtures.antt =====
-- A small chain, a block on top of it, and a ledger.
use mathlib.Core.List.Perm
use btc_idx_service.Prelude.{none, some, [], true, false, ◌∷◌, List, is_empty, ltb, arith, refl}
use btc_idx_service.Prelude.Int.{pos, ◌+ℤ◌}
use btc_idx_service.Types.{BlockInfo, P2trEvent}
use btc_idx_service.Aggregator.Worth.{IsArrangement}
use btc_idx_service.Processor.{IsWalk, Externals, World}
use btc_idx_service.Ledger.{Ledger}
use btc_idx_service.Chain.{Chain}
use btc_idx_service.Aggregator.{Aggregator}
use btc_idx_service.Ledger.Totals.{balance_at, statistic_total, event_total}
use btc_idx_service.Aggregator.Balanced.{IsBalanced}
use btc_idx_service.Aggregator.Faults.{IsQuiet}

-- The id of a transaction is its lock time, a coinbase has no input, every script but 0 is taproot
-- and is its own address, and maps are walked from the newest entry on.
abbrev pub externals : Externals
externals = record {
  compute_txid = λ tx. tx.lock_time;
  is_coinbase = λ tx. is_empty tx.input;
  is_p2tr = λ s. ltb 0 s;
  from_script = λ s. some s;
  timestamp_opt = λ t. some t;
  walk = λ l. l;
}

pub externals-IsWalk : IsWalk externals
externals-IsWalk l = Perm.refl l

abbrev pub in_order : List P2trEvent → List P2trEvent
in_order es = es

pub in_order-IsArrangement : IsArrangement in_order
in_order-IsArrangement es = Perm.refl es

-- Address 3 owns 50 satoshis at 7:0.
abbrev pub chain : Chain
chain = record {
  blocks =
      record {
        hash = 104;
        number = 4;
        previous_hash = some 103;
        timestamp = 1000;
        nonce = 0;
        version = pos 2;
        difficulty = pos 1;
      }
      ∷ [];
  transactions =
      record {
        txid = 7;
        block_hash = 104;
        transaction_index = pos 0;
        lock_time = 0;
        is_coinbase = false;
        version = pos 2;
      }
      ∷ [];
  utxos =
      record {
        id = record { txid = 7; vout = 0 };
        address = 3;
        txid = 7;
        vout = 0;
        amount = pos 50;
        block_number = 4;
        spent_block = none;
      }
      ∷ [];
}

abbrev pub world : World
world = record { chain = chain; sent = []; receiving = true; faults = [] }

-- A coinbase to address 5, and a transaction that spends 7:0, pays 20 to address 4, 25 back to
-- address 3, and has an output that is no taproot output.
abbrev pub block : BlockInfo
block = record {
  header = record {
    hash = 105;
    height = 5;
    previous_block_hash = some 104;
    time = 1600;
    nonce = 9;
    version = pos 2;
    difficulty = some (pos 1);
  };
  txdata =
      record {
        version = pos 2;
        lock_time = 8;
        input = [];
        output = record { value = 60; script_pubkey = 5 } ∷ [];
      }
      ∷ record {
        version = pos 2;
        lock_time = 9;
        input = record { previous_output = record { txid = 7; vout = 0 } } ∷ [];
        output =
            record { value = 20; script_pubkey = 4 }
            ∷ record { value = 5; script_pubkey = 0 }
            ∷ record { value = 25; script_pubkey = 3 }
            ∷ [];
      }
      ∷ [];
}

abbrev pub ledger : Ledger
ledger = record {
  events =
      record {
        sequence_id = 1;
        block_number = 4;
        tx_hash = 7;
        address = 3;
        amount = pos 50;
        action = pos 1;
      }
      ∷ [];
  pending = [];
  balances = record { address = 3; balance = pos 50; last_updated = 0 } ∷ [];
  statistics = record { address = 3; balance = pos 50; datetime_hour = 0; last_updated = 0 } ∷ [];
  next_sequence = 2;
}

abbrev pub aggregator : Aggregator
aggregator = record {
  ledger = ledger;
  last_block_number = 4;
  clock = λ n. n;
  readings = 0;
  faults = [];
}

pub ledger-IsBalanced : IsBalanced ledger
unfolding balance_at statistic_total event_total ◌+ℤ◌
ledger-IsBalanced = record { total = λ a. ground arith; hourly = λ a. ground arith }

pub aggregator-IsQuiet : IsQuiet aggregator
aggregator-IsQuiet = record { sound = refl; readable = tt }
