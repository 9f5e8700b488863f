-- ===== src/Processor/Undo.antt =====
-- The tables after a block, and after the rollback of the block.
use btc_idx_service.Prelude.{
  [], true, false, ◌∷◌, ◌≡◌, ◌+◌, ◌++◌, List, ℕ, All, inl, inr, ◌<◌, ◌==◌, ◌||◌, ◌∙◌, ◌^◌, refl,
  arith, Bool-cases, leb, unwrap_or, ap, exists, ltb, Option-cases, All-zip,
}
use btc_idx_service.Processor.State.{Externals, in_transaction, World, exec}
use btc_idx_service.Chain.{
  upsert_block, BlockRow, Chain, TransactionRow, upsert_transaction, delete_blocks_since,
  unspend_utxos_spent_since_block, get_relevant_utxos, spent_since,
}
use btc_idx_service.Processor.Defs.{index_transactions, process_block, out_points, process, collect}
use btc_idx_service.Types.{Transaction, BlockInfo, BlockHash, OutPoint, Txid}
use btc_idx_service.Chain.Undo.{
  IsBefore, Extends, restored, restored-none, delete_blocks_since-Extends, made_by,
}
use btc_idx_service.Processor.Writes.{has_row, IsIndexed, upsert_transaction-IsIndexed}
use btc_idx_service.Chain.Keys.{knows, IsConsistent, has_transaction}
use btc_idx_service.Prelude.Run.{Holds, Holds-resume, Holds-mono, ok, ◌>>=◌}
use btc_idx_service.Sql.{as_i32}
use btc_idx_service.Processor.Rules.{Holds-exec, Commits-Holds, Commits-in_transaction}
use btc_idx_service.Prelude.Int.{pos}
use btc_idx_service.Processor.Rollback.{IsTracked, process_transactions-Extends}
use btc_idx_service.Processor.Conservation.{get_relevant_utxos_lem}
use btc_idx_service.Processor.Known.{collect-AllBacked}

no_conflict :
    (row : BlockRow) (bs : List BlockRow)
    → All (λ (b : BlockRow). leb row.number b.number ≡ false) bs
    → exists (λ b. b.hash == row.hash) bs ≡ false
    → exists (λ b. b.hash == row.hash || b.number == row.number) bs ≡ false
no_conflict row [] before fresh = refl
no_conflict row (b ∷ bs) before fresh = ground (arith, no_conflict row bs before.1)

-- With the block and its transactions, and before any of their utxos.
IsIndexed-Extends :
    (row : BlockRow) (new : List TransactionRow) (c₀ c : Chain)
    → IsConsistent c₀
    → IsBefore row.number c₀
    → IsIndexed row.hash (row ∷ c₀.blocks) new c₀ c
    → Extends row new c₀ c
unfolding has_row
IsIndexed-Extends row new c₀ c keys before i = record {
  blocks = i.blocks;
  transactions = i.transactions;
  linked = i.linked;
  utxos =
      ap (restored row.number new) i.utxos
      ∙ restored-none row.number new c₀.utxos (
          All-zip (λ u. has_transaction c₀ u.txid ≡ true) (λ u. spent_since row.number u ≡ false)
            (λ u. (made_by new u ≡ false) × (spent_since row.number u ≡ false)) c₀.utxos
            (λ u known unspent. (i.apart u.txid known, unspent)) keys.in_transaction before.spent);
}

-- The rows that the processor writes for a block and for a transaction.
abbrev pub block_row : BlockInfo → ℕ → BlockRow
block_row block timestamp = record {
  hash = block.header.hash;
  number = block.header.height;
  previous_hash = block.header.previous_block_hash;
  timestamp = timestamp;
  nonce = block.header.nonce;
  version = block.header.version;
  difficulty = unwrap_or block.header.difficulty (pos 0);
}

abbrev pub transaction_row : Externals → BlockHash → ℕ → Transaction → TransactionRow
transaction_row x hash idx tx = record {
  txid = x.compute_txid tx;
  block_hash = hash;
  transaction_index = as_i32 idx;
  lock_time = tx.lock_time;
  is_coinbase = x.is_coinbase tx;
  version = tx.version;
}

module _ (x : Externals) where
  -- The ids of the transactions are new to the table.
  abbrev pub AreNew : List Transaction → Chain → Type 0
  AreNew txs c = All (λ tx. has_row c.transactions (x.compute_txid tx) ≡ false) txs

  -- Rows of the transactions have been added, and none been lost.
  abbrev pub Indexes :
      List BlockRow → Chain → BlockHash → List Transaction → List TransactionRow → Chain → Type 0
  Indexes bs c₀ hash txs new c =
      (new' : List TransactionRow) × IsIndexed hash bs new' c₀ c
      × ((id : Txid) → has_row new id ≡ true → has_row new' id ≡ true)
      × All (λ tx. has_row new' (x.compute_txid tx) ≡ true) txs

  pub index_transactions-Indexes :
      (bs : List BlockRow) (c₀ : Chain) (hash : BlockHash) (idx : ℕ) (txs : List Transaction)
      (points : List OutPoint) (new : List TransactionRow) (w : World)
      → IsIndexed hash bs new c₀ w.chain
      → AreNew txs c₀
      → Holds
          (λ _ w'. Indexes bs c₀ hash txs new w'.chain)
          (index_transactions x hash idx txs points w)
  unfolding index_transactions
  index_transactions-Indexes bs c₀ hash idx [] points new w i fresh = (new, i, (λ id h. h), tt)
  index_transactions-Indexes bs c₀ hash idx (tx ∷ rest) points new w i fresh =
      let row = transaction_row x hash idx tx in
      Holds-resume
        (λ _ w'.
          (new' : List TransactionRow) × IsIndexed hash bs new' c₀ w'.chain
          × ((id : Txid) → has_row new id ≡ true → has_row new' id ≡ true)
          × (has_row new' (x.compute_txid tx) ≡ true))
        _ (exec (upsert_transaction row) w) _
        (Holds-exec _ _ (upsert_transaction row) w
          (upsert_transaction-IsIndexed row bs new c₀ w.chain i fresh.0) (λ _ w' h _. h))
        (λ _ w₁ (new₁, i₁, more, has).
          Holds-mono (λ _ w'. Indexes bs c₀ hash rest new₁ w'.chain)
            (λ _ w'. Indexes bs c₀ hash (tx ∷ rest) new w'.chain) _
            (index_transactions-Indexes bs c₀ hash (idx + 1) rest (points ++ out_points tx.input)
              new₁ w₁ i₁ fresh.1)
            (λ _ w₂ (new₂, i₂, more₂, all).
              (new₂, i₂, (λ id h. more₂ id (more id h)), (more₂ _ has, all))))

  pub upsert_block-IsIndexed :
      (row : BlockRow) (c : Chain)
      → IsBefore row.number c
      → knows c row.hash ≡ false
      → Holds (λ _ c'. IsIndexed row.hash (row ∷ c.blocks) [] c c') (upsert_block row c)
  unfolding upsert_block has_row
  upsert_block-IsIndexed row c before fresh =
      rw (no_conflict row c.blocks before.blocks fresh)
        (elim (Bool-cases (ltb row.number (2 ^ 63))) [
          | inr large ↦ rw large tt
          | inl fits ↦ rw fits (record {
            blocks = refl;
            transactions = refl;
            linked = tt;
            apart = λ id h. refl;
            utxos = refl;
          })
        ])

  process_block-Extends :
      (block : BlockInfo) (w : World)
      → IsBefore block.header.height w.chain
      → knows w.chain block.header.hash ≡ false
      → AreNew block.txdata w.chain
      → IsConsistent w.chain
      → Holds
          (λ _ w'.
            (row : BlockRow) × (new : List TransactionRow) × (row.number ≡ block.header.height)
            × (row.hash ≡ block.header.hash)
            × Extends row new w.chain w'.chain)
          (process_block x block w)
  unfolding process_block
  process_block-Extends block w before fresh txs keys =
      elim (Option-cases (x.timestamp_opt block.header.time)) [
        | inl e ↦ rw e tt
        | inr (time, e) ↦ rw e (
            let row = block_row block time in
            Holds-resume (λ _ w'. IsIndexed row.hash (row ∷ w.chain.blocks) [] w.chain w'.chain) _
              (exec (upsert_block row) w) _
              (Holds-exec _ _ (upsert_block row) w (upsert_block-IsIndexed row w.chain before fresh)
                (λ _ w' h _. h))
              (λ _ w₁ i₁.
                Holds-resume
                  (λ _ w'. Indexes (row ∷ w.chain.blocks) w.chain row.hash block.txdata [] w'.chain)
                  _ (index_transactions x row.hash 0 block.txdata [] w₁) _
                  (index_transactions-Indexes (row ∷ w.chain.blocks) w.chain row.hash 0 block.txdata
                    [] [] w₁ i₁ txs)
                  (λ points w₂ (new, i₂, _, made).
                    Holds-resume (λ us w'. IsTracked row new w.chain (collect us []) w') _
                      (exec (get_relevant_utxos points) w₂) _
                      (Holds-exec _ _ (get_relevant_utxos points) w₂
                        (get_relevant_utxos_lem points w₂.chain)
                        (λ us w' h _. record {
                          extends =
                              rw (h.0) (IsIndexed-Extends row new w.chain w₂.chain keys before i₂);
                          backed = rw (h.0) (collect-AllBacked us [] w₂.chain.utxos h.1 tt);
                        }))
                      (λ us w₃ t₃.
                        Holds-mono (λ _ w'. Extends row new w.chain w'.chain) _ _
                          (process_transactions-Extends x row new w.chain block.txdata
                            (collect us []) w₃ made t₃)
                          (λ _ w' e'. (row, new, refl, refl, e'))))))
      ]

  -- A block at a height above all blocks and spendings of the tables, with a hash and transactions new
  -- to them, is processed and committed; a rollback to before its height, as a fork begins with it,
  -- then gives back the tables as they were, row for row.
  pub process-undo :
      (block : BlockInfo) (w : World)
      → block.header.height < 2 ^ 63
      → IsBefore block.header.height w.chain
      → knows w.chain block.header.hash ≡ false
      → AreNew block.txdata w.chain
      → IsConsistent w.chain
      → Holds
          (λ _ w'.
            (delete_blocks_since block.header.height >>= λ _.
            unspend_utxos_spent_since_block block.header.height)
              w'.chain
            ≡ (ok tt, w.chain))
          (process x block w)
  unfolding process
  process-undo block w fits before fresh txs keys =
      Commits-Holds w (λ _ w'. RollsBack w'.chain) (in_transaction (process_block x block) w)
        (Commits-in_transaction (λ _ c _. RollsBack c) (process_block x block) w
          (λ v c _.
            Holds-mono
              (λ _ w'.
                (row : BlockRow) × (new : List TransactionRow) × (row.number ≡ block.header.height)
                × (row.hash ≡ block.header.hash)
                × Extends row new v.chain w'.chain)
              (λ _ w'. RollsBack w'.chain) _
              (process_block-Extends block v (rw c before) (rw c fresh) (rw c txs) (rw c keys))
              (λ _ w' (row, new, num, h, e).
                rw (← num, ← c)
                  (delete_blocks_since-Extends row new v.chain (rw num fits) (rw (num, c) before)
                    (rw (h, c) fresh) (rw c keys) w'.chain e))))
    where
      RollsBack : Chain → Type 0
      RollsBack c =
          (delete_blocks_since block.header.height >>= λ _.
          unspend_utxos_spent_since_block block.header.height)
            c
          ≡ (ok tt, w.chain)
