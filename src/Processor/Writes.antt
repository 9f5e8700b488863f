-- ===== src/Processor/Writes.antt =====
-- What the statements of a block leave of the tables, in full.
use btc_idx_service.Prelude.{
  [], true, false, inl, inr, ◌∷◌, ◌≡◌, ◌++◌, ◌==◌, ◌∙◌, refl, arith, List, Bool, ℕ, exists, All,
  Bool-cases, ap, ==_iff, sym,
}
use btc_idx_service.Chain.{
  upsert_transaction, spend_utxo, create_utxo, TransactionRow, BlockRow, Chain, new_utxo,
  at_out_point, spend,
}
use btc_idx_service.Types.{BlockHash, Txid, Address}
use btc_idx_service.Prelude.Int.{ℤ}
use btc_idx_service.Sql.{update, count}
use btc_idx_service.Prelude.Run.{Holds}
use btc_idx_service.Chain.Rows.{update-append, update-none, count-none, true≢false}

pub spend_utxo-writes :
    (txid : Txid) (vout n : ℕ) (c : Chain)
    → Holds
        (λ _ c'.
          (count (at_out_point txid vout) c.utxos ≡ 1)
          × (c' ≡ record c { utxos = update (at_out_point txid vout) (spend n) c.utxos }))
        (spend_utxo txid vout n c)
unfolding spend_utxo
spend_utxo-writes txid vout n c = elim (Bool-cases (count (at_out_point txid vout) c.utxos == 1)) [
  | inl one ↦ rw one ((==_iff _ _).0 one, refl)
  | inr other ↦ rw other tt
]

pub create_utxo-writes :
    (owner : Address) (txid : Txid) (vout : ℕ) (amount : ℤ) (n : ℕ) (c : Chain)
    → Holds
        (λ _ c'. c' ≡ record c { utxos = new_utxo owner txid vout amount n ∷ c.utxos })
        (create_utxo owner txid vout amount n c)
unfolding create_utxo
create_utxo-writes owner txid vout amount n c = ground arith

unfoldable pub has_row : List TransactionRow → Txid → Bool
has_row ts txid = exists (λ t. t.txid == txid) ts

-- The row that a conflict on the key rewrites.
abbrev pub moved : BlockHash → TransactionRow → TransactionRow
moved hash t = record t { block_hash = hash }

pub has_row-update :
    (hash : BlockHash) (txid id : Txid) (ts : List TransactionRow)
    → has_row (update (λ t. t.txid == txid) (moved hash) ts) id ≡ has_row ts id
unfolding has_row
has_row-update hash txid id [] = refl
has_row-update hash txid id (t ∷ ts) = ground (arith, has_row-update hash txid id ts)

pub has_row-cons :
    (t : TransactionRow) (ts : List TransactionRow) (id : Txid)
    → has_row ts id ≡ true
    → has_row (t ∷ ts) id ≡ true
unfolding has_row
has_row-cons t ts id h = ground arith

pub has_row-head : (t : TransactionRow) (ts : List TransactionRow) → has_row (t ∷ ts) t.txid ≡ true
unfolding has_row
has_row-head t ts = ground arith

pub has_row_mono :
    (ts us : List TransactionRow) (id : Txid) → has_row ts id ≡ true → has_row (ts ++ us) id ≡ true
unfolding has_row
has_row_mono [] us id h = absurd (true≢false (sym h))
has_row_mono (t ∷ ts) us id h = ground (arith, has_row_mono ts us id)

-- An id that one table has and another lacks is not the same.
pub has_row-fresh :
    (t : TransactionRow) (ts us : List TransactionRow) (id : Txid)
    → has_row us t.txid ≡ false
    → has_row us id ≡ true
    → has_row ts id ≡ false
    → has_row (t ∷ ts) id ≡ false
unfolding has_row
has_row-fresh t ts us id out in_us h = elim (Bool-cases (t.txid == id)) [
  | inr e ↦ rw e h
  | inl e ↦ absurd (ground (arith, (==_iff t.txid id).0 e))
]

pub has_row-append :
    (ts us : List TransactionRow) (id : Txid)
    → has_row us id ≡ false
    → has_row (ts ++ us) id ≡ has_row ts id
unfolding has_row
has_row-append [] us id h = h
has_row-append (t ∷ ts) us id h = ground (arith, has_row-append ts us id h)

pub All-moved :
    (hash : BlockHash) (txid : Txid) (ts : List TransactionRow)
    → All (λ (t : TransactionRow). t.block_hash ≡ hash) ts
    → All
        (λ (t : TransactionRow). t.block_hash ≡ hash)
        (update (λ t. t.txid == txid) (moved hash) ts)
All-moved hash txid [] h = tt
All-moved hash txid (t ∷ ts) h = (ground arith, All-moved hash txid ts h.1)

-- The rows of `c` are `new` before those of `c₀`; `new` belongs to the block with the hash.
pub record IsIndexed (hash : BlockHash) (bs : List BlockRow) (new : List TransactionRow)
    (c₀ c : Chain) : Type 0 where
  pub blocks : c.blocks ≡ bs
  pub transactions : c.transactions ≡ new ++ c₀.transactions
  pub linked : All (λ (t : TransactionRow). t.block_hash ≡ hash) new
  pub apart : (id : Txid) → has_row c₀.transactions id ≡ true → has_row new id ≡ false
  pub utxos : c.utxos ≡ c₀.utxos

pub upsert_transaction-IsIndexed :
    (t : TransactionRow) (bs : List BlockRow) (new : List TransactionRow) (c₀ c : Chain)
    → IsIndexed t.block_hash bs new c₀ c
    → has_row c₀.transactions t.txid ≡ false
    → Holds
        (λ _ c'.
          (new' : List TransactionRow) × IsIndexed t.block_hash bs new' c₀ c'
          × ((id : Txid) → has_row new id ≡ true → has_row new' id ≡ true)
          × (has_row new' t.txid ≡ true))
        (upsert_transaction t c)
unfolding upsert_transaction has_row
upsert_transaction-IsIndexed t bs new c₀ c x fresh =
    elim (Bool-cases (exists (λ b. b.hash == t.block_hash) c.blocks)) [
      | inr unknown ↦ rw unknown tt
      | inl known ↦ elim (Bool-cases (exists (λ u. u.txid == t.txid) c.transactions)) [
        | inr no_row ↦
            rw (known, no_row)
              (
                t ∷ new,
                record {
                  blocks = x.blocks;
                  transactions = ap (λ l. t ∷ l) x.transactions;
                  linked = (refl, x.linked);
                  apart = λ id h. has_row-fresh t new c₀.transactions id fresh h (x.apart id h);
                  utxos = x.utxos;
                },
                λ id h. has_row-cons t new id h,
                has_row-head t new,
              )
        | inl row ↦
            rw (known, row)
              (
                update (λ u. u.txid == t.txid) (moved t.block_hash) new,
                record {
                  blocks = x.blocks;
                  transactions =
                      ap (update (λ u. u.txid == t.txid) (moved t.block_hash)) x.transactions
                      ∙ update-append (λ u. u.txid == t.txid) (moved t.block_hash) new
                          c₀.transactions
                      ∙ ap (λ l. update (λ u. u.txid == t.txid) (moved t.block_hash) new ++ l)
                          (update-none (λ u. u.txid == t.txid) (moved t.block_hash) c₀.transactions
                            (count-none (λ u. u.txid == t.txid) c₀.transactions fresh));
                  linked = All-moved t.block_hash t.txid new x.linked;
                  apart = λ id h. has_row-update t.block_hash t.txid id new ∙ x.apart id h;
                  utxos = x.utxos;
                },
                λ id h. has_row-update t.block_hash t.txid id new ∙ h,
                has_row-update t.block_hash t.txid t.txid new
                    ∙ sym (has_row-append new c₀.transactions t.txid fresh)
                    ∙ ap (λ l. has_row l t.txid) (sym x.transactions)
                    ∙ row,
              )
      ]
    ]
