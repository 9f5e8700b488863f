-- ===== src/Chain/Consistent.antt =====
-- The constraints hold after every statement, however it ends.
use btc_idx_service.Chain.Keys.{
  Distinct, same_hash, same_txid, same_output, knows, has_transaction, IsConsistent,
}
use btc_idx_service.Prelude.{
  [], true, false, inl, inr, ◌∷◌, ◌≡◌, ◌⊎◌, ◌∙◌, ◌^◌, List, Bool, ℕ, if◌then◌else◌, exists,
  Bool-cases, ltb, ◌==◌, ◌&&◌, refl, All-mono,
}
use btc_idx_service.Sql.{update, delete, count, as_i64}
use btc_idx_service.Chain.Queries.{
  upsert_block, create_utxo, at_out_point, unspend_utxos_spent_since_block, spend_utxo,
  delete_blocks_since, upsert_transaction, spend, spent_since, unspend,
}
use btc_idx_service.Types.{Address, Txid}
use btc_idx_service.Chain.Tables.{BlockRow, UtxoRow, Chain, TransactionRow}
use btc_idx_service.Prelude.Keeps.{Keeps}
use btc_idx_service.Chain.Rows.{
  exists-delete_none, exists-update, exists_ext, exists-cons, All-update, All-delete, exists-delete,
}
use btc_idx_service.Prelude.Int.{ℤ, pos, leb_ℤ}

module _ {R : Type 0} where
  Distinct-delete :
      (same : R → R → Bool) (p : R → Bool) (rs : List R)
      → Distinct same rs
      → Distinct same (delete p rs)
  Distinct-delete same p [] h = tt
  Distinct-delete same p (r ∷ rs) h = elim (Bool-cases (p r)) [
    | inl e ↦ rw e (Distinct-delete same p rs h.1)
    | inr e ↦ rw e (exists-delete_none (same r) p rs h.0, Distinct-delete same p rs h.1)
  ]

  -- An update that leaves the keys alone.
  Distinct-update :
      (same : R → R → Bool) (p : R → Bool) (f : R → R) (rs : List R)
      → ((r r' : R) → same (f r) r' ≡ same r r')
      → ((r r' : R) → same r (f r') ≡ same r r')
      → Distinct same rs
      → Distinct same (update p f rs)
  Distinct-update same p f [] k l h = tt
  Distinct-update same p f (r ∷ rs) k l h =
      (apart (Bool-cases (p r)), Distinct-update same p f rs k l h.1)
    where
      at_key : exists (same r) (update p f rs) ≡ false
      at_key = exists-update p (same r) f rs (l r) ∙ h.0

      apart :
          (p r ≡ true) ⊎ (p r ≡ false)
          → exists (same (if p r then f r else r)) (update p f rs) ≡ false
      apart (inl e) = rw e (exists_ext (same (f r)) (same r) (update p f rs) (k r) ∙ at_key)
      apart (inr e) = rw e at_key

pub upsert_block-IsConsistent : (row : BlockRow) → Keeps IsConsistent (upsert_block row)
unfolding upsert_block
upsert_block-IsConsistent row = record {
  at = λ c h. elim (Bool-cases (ltb row.number (2 ^ 63))) [
    | inr large ↦ rw large h
    | inl fits ↦ elim (Bool-cases (exists (same_hash row) c.blocks)) [
      | inl conflict ↦ rw (fits, conflict) h
      | inr new ↦
          rw (fits, new)
            (record {
              blocks = (new, h.blocks);
              transactions = h.transactions;
              outputs = h.outputs;
              in_block =
                  All-mono (λ t. knows c t.block_hash ≡ true)
                    (λ t. knows (record c { blocks = row ∷ c.blocks }) t.block_hash ≡ true)
                    c.transactions (λ t. exists-cons (λ b. b.hash == t.block_hash) row c.blocks)
                    h.in_block;
              in_transaction = h.in_transaction;
            })
    ]
  ];
}

pub create_utxo-IsConsistent :
    (owner : Address) (txid : Txid) (vout : ℕ) (amount : ℤ) (n : ℕ)
    → Keeps IsConsistent (create_utxo owner txid vout amount n)
unfolding create_utxo
create_utxo-IsConsistent owner txid vout amount n = record {
  at = λ c h. elim (Bool-cases (ltb n (2 ^ 63))) [
    | inr large ↦ rw large h
    | inl fits ↦ elim (Bool-cases (exists (at_out_point txid vout) c.utxos)) [
      | inl taken ↦ rw (fits, taken) h
      | inr free ↦ elim (Bool-cases (has_transaction c txid)) [
        | inr no_row ↦ rw (fits, free, no_row) h
        | inl row ↦
            rw (fits, free, row)
              (record {
                blocks = h.blocks;
                transactions = h.transactions;
                outputs = (free, h.outputs);
                in_block = h.in_block;
                in_transaction = (row, h.in_transaction);
              })
      ]
    ]
  ];
}

-- Any update of the utxos that leaves their out points alone.
pub updated-IsConsistent :
    (p : UtxoRow → Bool) (f : UtxoRow → UtxoRow) (c : Chain)
    → ((u : UtxoRow) → (f u).txid ≡ u.txid)
    → ((u : UtxoRow) → (f u).vout ≡ u.vout)
    → IsConsistent c
    → IsConsistent (record c { utxos = update p f c.utxos })
updated-IsConsistent p f c same_id same_vout h = record {
  blocks = h.blocks;
  transactions = h.transactions;
  outputs =
      Distinct-update same_output p f c.utxos (λ u u'. rw (same_id u, same_vout u) refl)
        (λ u u'. rw (same_id u', same_vout u') refl) h.outputs;
  in_block = h.in_block;
  in_transaction =
      All-update (λ u. has_transaction c u.txid ≡ true) (λ u. has_transaction c u.txid ≡ true) p f
        c.utxos (λ u k. k) (λ u k. rw (same_id u) k) h.in_transaction;
}

pub spend_utxo-IsConsistent :
    (txid : Txid) (vout n : ℕ) → Keeps IsConsistent (spend_utxo txid vout n)
unfolding spend_utxo
spend_utxo-IsConsistent txid vout n = record {
  at = λ c h.
      let h' =
        updated-IsConsistent (at_out_point txid vout) (spend n) c (λ u. refl) (λ u. refl) h in
      elim (Bool-cases (count (at_out_point txid vout) c.utxos == 1)) [
        | inl e ↦ rw e h'
        | inr e ↦ rw e h'
      ];
}

pub unspend_utxos_spent_since_block-IsConsistent :
    (n : ℕ) → Keeps IsConsistent (unspend_utxos_spent_since_block n)
unfolding unspend_utxos_spent_since_block
unspend_utxos_spent_since_block-IsConsistent n = record {
  at = λ c h. updated-IsConsistent (spent_since n) unspend c (λ u. refl) (λ u. refl) h;
}

pub upsert_transaction-IsConsistent :
    (row : TransactionRow) → Keeps IsConsistent (upsert_transaction row)
unfolding upsert_transaction
upsert_transaction-IsConsistent row = record {
  at = λ c h. elim (Bool-cases (knows c row.block_hash)) [
    | inr unknown ↦ rw unknown h
    | inl known ↦ elim (Bool-cases (has_transaction c row.txid)) [
      | inr new ↦
          rw (known, new)
            (record {
              blocks = h.blocks;
              transactions = (new, h.transactions);
              outputs = h.outputs;
              in_block = (known, h.in_block);
              in_transaction =
                  All-mono (λ u. has_transaction c u.txid ≡ true)
                    (λ u.
                      has_transaction (record c { transactions = row ∷ c.transactions }) u.txid
                      ≡ true)
                    c.utxos (λ u. exists-cons (λ t. t.txid == u.txid) row c.transactions)
                    h.in_transaction;
            })
      | inl conflict ↦
          rw (known, conflict)
            (record {
              blocks = h.blocks;
              transactions =
                  Distinct-update same_txid (λ t. t.txid == row.txid)
                    (λ t. record t { block_hash = row.block_hash }) c.transactions (λ t t'. refl)
                    (λ t t'. refl) h.transactions;
              outputs = h.outputs;
              in_block =
                  All-update (λ t. knows c t.block_hash ≡ true) (λ t. knows c t.block_hash ≡ true)
                    (λ t. t.txid == row.txid) (λ t. record t { block_hash = row.block_hash })
                    c.transactions (λ t k. k) (λ t k. known) h.in_block;
              in_transaction =
                  All-mono (λ u. has_transaction c u.txid ≡ true) _ c.utxos
                    (λ u k.
                      exists-update (λ t. t.txid == row.txid) (λ t. t.txid == u.txid)
                        (λ t. record t { block_hash = row.block_hash }) c.transactions (λ t. refl)
                      ∙ k)
                    h.in_transaction;
            })
    ]
  ];
}

pub delete_blocks_since-IsConsistent : (n : ℕ) → Keeps IsConsistent (delete_blocks_since n)
unfolding delete_blocks_since
delete_blocks_since-IsConsistent n = record {
  at = λ c h.
      let gone = λ (b : BlockRow). leb_ℤ (as_i64 n) (pos b.number) in
      let lost = λ (t : TransactionRow). exists (λ b. gone b && b.hash == t.block_hash) c.blocks in
      let lost_utxo = λ (u : UtxoRow). exists (λ t. lost t && t.txid == u.txid) c.transactions in
      record {
        blocks = Distinct-delete same_hash gone c.blocks h.blocks;
        transactions = Distinct-delete same_txid lost c.transactions h.transactions;
        outputs = Distinct-delete same_output lost_utxo c.utxos h.outputs;
        in_block =
            All-delete (λ t. knows c t.block_hash ≡ true) _ lost c.transactions
              (λ t kept k. exists-delete gone (λ b. b.hash == t.block_hash) c.blocks k kept)
              h.in_block;
        in_transaction =
            All-delete (λ u. has_transaction c u.txid ≡ true) _ lost_utxo c.utxos
              (λ u kept k. exists-delete lost (λ t. t.txid == u.txid) c.transactions k kept)
              h.in_transaction;
      };
}
