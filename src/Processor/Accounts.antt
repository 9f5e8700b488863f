-- ===== src/Processor/Accounts.antt =====
-- What the messages and the map of balances account for, and that one utxo spent or created keeps it.
use btc_idx_service.Prelude.{
  inl, inr, ◌∷◌, ◌≡◌, ◌==◌, refl, ℕ, arith, Bool-cases, ==_iff, List, some,
}
use btc_idx_service.Chain.{create_utxo, spend_utxo, Chain, at_out_point, spend, new_utxo, UtxoRow}
use btc_idx_service.Types.{Address, Txid, UtxoInfo, OutPoint}
use btc_idx_service.Prelude.Int.{ℤ, ◌+ℤ◌, pos, ◌-ℤ◌, int_laws}
use btc_idx_service.Processor.Defs.{
  UtxoMap, BalanceMap, set_balance, balance_of, get_utxo, remove_utxo_at,
}
use btc_idx_service.Prelude.Run.{Holds}
use btc_idx_service.Processor.State.{World}
use btc_idx_service.Sql.{count, update}
use btc_idx_service.Processor.Known.{
  AllBacked, AllBacked-cons, get_utxo-IsBacked, remove_utxo_at-AllBacked,
}
use btc_idx_service.Chain.Totals.{unspent_total, at_info, HasUnspent, unspent_total-spend}
use btc_idx_service.Processor.Balances.{
  IsMap, event_sum, sum_at, sum_at-set_balance, set_balance-IsMap,
}

module _ (a : Address) (base : ℤ) where
  -- The unspent total is `base`, what the messages carry, and the changes not yet sent.
  abbrev pub Accounts : BalanceMap → World → Type 0
  Accounts updates w =
      unspent_total a w.chain.utxos ≡ base +ℤ event_sum a w.sent +ℤ sum_at a updates

  pub record IsOpen (known : UtxoMap) (updates : BalanceMap) (w : World) : Type 0 where
    pub backed : AllBacked known w.chain.utxos
    pub is_map : IsMap updates
    pub accounts : Accounts updates w

pub spend_utxo_lem :
    (txid : Txid) (vout n : ℕ) (c : Chain)
    → Holds
        (λ _ c'.
          (count (at_out_point txid vout) c.utxos ≡ 1)
          × (c'.utxos ≡ update (at_out_point txid vout) (spend n) c.utxos))
        (spend_utxo txid vout n c)
unfolding spend_utxo
spend_utxo_lem txid vout n c = elim (Bool-cases (count (at_out_point txid vout) c.utxos == 1)) [
  | inl one ↦ rw one ((==_iff _ _).0 one, refl)
  | inr other ↦ rw other tt
]

pub create_utxo_lem :
    (owner : Address) (txid : Txid) (vout : ℕ) (amount : ℤ) (n : ℕ) (c : Chain)
    → Holds
        (λ _ c'. c'.utxos ≡ new_utxo owner txid vout amount n ∷ c.utxos)
        (create_utxo owner txid vout amount n c)
unfolding create_utxo
create_utxo_lem owner txid vout amount n c = ground arith

module _ (a : Address) (base : ℤ) where
  spend_accounts :
      (u : UtxoInfo) (n : ℕ) (updates : BalanceMap) (rs : List UtxoRow) (s : ℤ)
      → IsMap updates
      → count (at_info u) rs ≡ 1
      → HasUnspent u rs
      → unspent_total a rs ≡ s +ℤ sum_at a updates
      → unspent_total a (update (at_info u) (spend n) rs)
        ≡ s
          +ℤ sum_at a
              (set_balance u.owner ((pos 0 -ℤ u.amount) +ℤ balance_of u.owner updates) updates)
  spend_accounts u n updates rs s im c h e = grind (
    int_laws,
    sum_at-set_balance a u.owner ((pos 0 -ℤ u.amount) +ℤ balance_of u.owner updates) updates,
    im u.owner,
    unspent_total-spend a u n rs c h,
  )

  create_accounts :
      (owner : Address) (txid : Txid) (vout n : ℕ) (v : ℤ) (updates : BalanceMap)
      (rs : List UtxoRow) (s : ℤ)
      → IsMap updates
      → unspent_total a rs ≡ s +ℤ sum_at a updates
      → unspent_total a (new_utxo owner txid vout v n ∷ rs)
        ≡ s +ℤ sum_at a (set_balance owner (balance_of owner updates +ℤ v) updates)
  unfolding unspent_total
  create_accounts owner txid vout n v updates rs s im e =
      grind (int_laws, sum_at-set_balance a owner (balance_of owner updates +ℤ v) updates, im owner)

module _ (a : Address) (base : ℤ) where
  -- One utxo spent.
  pub spent-IsOpen :
      (p : OutPoint) (u : UtxoInfo) (n : ℕ) (known : UtxoMap) (updates : BalanceMap) (w w' : World)
      → IsOpen a base known updates w
      → get_utxo p known ≡ some u
      → count (at_info u) w.chain.utxos ≡ 1
      → w'.chain.utxos ≡ update (at_info u) (spend n) w.chain.utxos
      → w'.sent ≡ w.sent
      → IsOpen a base
          (remove_utxo_at p known)
          (set_balance u.owner ((pos 0 -ℤ u.amount) +ℤ balance_of u.owner updates) updates)
          w'
  spent-IsOpen p u n known updates w w' o e one c s =
      let (key, held) = get_utxo-IsBacked p u known w.chain.utxos e o.backed in
      record {
        backed = rw (c, ← key) (remove_utxo_at-AllBacked u n known w.chain.utxos o.backed);
        is_map = set_balance-IsMap u.owner _ updates o.is_map;
        accounts =
            rw (c, s)
              (spend_accounts a base u n updates w.chain.utxos (base +ℤ event_sum a w.sent) o.is_map
                one held o.accounts);
      }

  pub created-IsOpen :
      (owner : Address) (txid : Txid) (vout n : ℕ) (v : ℤ) (known : UtxoMap) (updates : BalanceMap)
      (w w' : World)
      → IsOpen a base known updates w
      → w'.chain.utxos ≡ new_utxo owner txid vout v n ∷ w.chain.utxos
      → w'.sent ≡ w.sent
      → IsOpen a base known (set_balance owner (balance_of owner updates +ℤ v) updates) w'
  created-IsOpen owner txid vout n v known updates w w' o c s = record {
    backed = rw c (AllBacked-cons (new_utxo owner txid vout v n) known w.chain.utxos o.backed);
    is_map = set_balance-IsMap owner _ updates o.is_map;
    accounts =
        rw (c, s)
          (create_accounts a base owner txid vout n v updates w.chain.utxos
            (base +ℤ event_sum a w.sent) o.is_map o.accounts);
  }
