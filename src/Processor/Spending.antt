-- ===== src/Processor/Spending.antt =====
-- What a block does to the set of unspent outputs, without tables: each transaction in turn takes out
-- the outputs it spends, and puts in its taproot outputs.
pub mod Inputs
pub mod Tracked
pub mod Refined
pub mod Blocks
pub mod Replayed
use btc_idx_service.Prelude.{
  none, some, [], true, false, ◌∷◌, ◌≡◌, ◌+◌, ◌++◌, ◌==◌, List, ℕ, All, exists, Bool, Option,
}
use btc_idx_service.Prelude.Int.{pos, ℤ}
use btc_idx_service.Types.{Transaction, OutPoint, TxIn, Txid, same_out_point, TxOut, Address}
use btc_idx_service.Processor.State.{Externals}
use btc_idx_service.Processor.Defs.{out_points}
use btc_idx_service.Chain.Unspent.{UtxoSet, without, with_output}

abbrev pub spend_all : List TxIn → UtxoSet → UtxoSet
spend_all [] f = f
spend_all (i ∷ is) f = spend_all is (without i.previous_output f)

-- A taproot output, by the address of its script if there is one.
abbrev pub put_output : Bool → Option Address → OutPoint → ℤ → UtxoSet → UtxoSet
put_output false owner q value f = f
put_output true none q value f = f
put_output true (some owner) q value f = with_output q (owner, value) f

module _ (x : Externals) where
  abbrev pub output_at : Txid → ℕ → TxOut → UtxoSet → UtxoSet
  output_at txid idx txout f =
      put_output (x.is_p2tr txout.script_pubkey) (x.from_script txout.script_pubkey)
        (record { txid = txid; vout = idx }) (pos txout.value) f

  abbrev pub create_all : Txid → ℕ → List TxOut → UtxoSet → UtxoSet
  create_all txid idx [] f = f
  create_all txid idx (txout ∷ rest) f = create_all txid (idx + 1) rest (output_at txid idx txout f)

  abbrev pub apply_transactions : List Transaction → UtxoSet → UtxoSet
  apply_transactions [] f = f
  apply_transactions (tx ∷ rest) f =
      apply_transactions rest (create_all (x.compute_txid tx) 0 tx.output (spend_all tx.input f))

  -- The out point is an output of none of the transactions.
  abbrev pub IsOutside : List Transaction → OutPoint → Type 0
  IsOutside txs p = All (λ tx. (x.compute_txid tx == p.txid) ≡ false) txs

abbrev pub inputs_of : List Transaction → List OutPoint
inputs_of [] = []
inputs_of (tx ∷ rest) = out_points tx.input ++ inputs_of rest

-- The out point is among the inputs `points`.
abbrev pub IsAsked : List OutPoint → OutPoint → Type 0
IsAsked points p = exists (same_out_point p) points ≡ true
