-- ===== src/Processor/Spending/Tracked.antt =====
-- The map of relevant utxos, the table and the set of unspent outputs, through the second pass.
use mathlib.Core.Path.{fun_ext}
use btc_idx_service.Processor.Spending.{IsAsked, OutPoint, UtxoSet, same_out_point}
use btc_idx_service.Prelude.{
  none, some, false, inl, inr, ◌∷◌, ◌≡◌, ◌==◌, ◌∙◌, refl, List, ℕ, All, subst, All-select,
  Bool-cases, sym,
}
use btc_idx_service.Types.{OutPoint, Address, UtxoInfo, get_out_point, same_out_point}
use btc_idx_service.Chain.Unspent.{
  UtxoSet, without, IsSpelled, with_output, unspent_at, unspent_at-create, unspent_at-spend,
}
use btc_idx_service.Processor.Defs.{UtxoMap, get_utxo, remove_utxo_at}
use btc_idx_service.Processor.State.{World}
use btc_idx_service.Prelude.Int.{ℤ}
use btc_idx_service.Sql.{update}
use btc_idx_service.Chain.{new_utxo, at_out_point, spend}
use btc_idx_service.Processor.Spending.Inputs.{
  IsKeyed, IsAsked-All, get_utxo-IsKeyed, get_utxo-remove, same_out_point-eq,
}
use btc_idx_service.Chain.Rows.{All-update}

-- The table stands for the set `f`, and where an input asked for is not in the map, `f` has nothing.
pub record IsTracked (points : List OutPoint) (known : UtxoMap) (f : UtxoSet) (w : World)
    : Type 0 where
  pub keyed : All IsKeyed known
  pub spelled : All IsSpelled w.chain.utxos
  pub stands : unspent_at w.chain.utxos ≡ f
  pub complete : (p : OutPoint) → IsAsked points p → get_utxo p known ≡ none → f p ≡ none

without-none : (p : OutPoint) (f : UtxoSet) → f p ≡ none → f ≡ without p f
without-none p f h = fun_ext λ q. elim (Bool-cases (same_out_point p q)) [
  | inr apart ↦ rw apart refl
  | inl here ↦ rw here (subst (λ r. f r ≡ none) (same_out_point-eq p q here) h)
]

module _ (points : List OutPoint) where
  -- An input that the map does not know takes nothing out.
  pub unknown-IsTracked :
      (p : OutPoint) (known : UtxoMap) (f : UtxoSet) (w : World)
      → IsTracked points known f w
      → IsAsked points p
      → get_utxo p known ≡ none
      → IsTracked points known (without p f) w
  unknown-IsTracked p known f w t asked e =
      subst (λ g. IsTracked points known g w) (without-none p f (t.complete p asked e)) t

  pub spent-IsTracked :
      (p : OutPoint) (u : UtxoInfo) (n : ℕ) (known : UtxoMap) (f : UtxoSet) (w w' : World)
      → IsTracked points known f w
      → get_utxo p known ≡ some u
      → w'.chain
        ≡ record w.chain { utxos = update (at_out_point u.txid u.vout) (spend n) w.chain.utxos }
      → IsTracked points (remove_utxo_at p known) (without p f) w'
  spent-IsTracked p u n known f w w' t e c =
      let key = get_utxo-IsKeyed p u known e t.keyed in
      record {
        keyed = All-select IsKeyed _ known t.keyed;
        spelled = rw c (
            All-update IsSpelled IsSpelled _ (spend n) w.chain.utxos (λ _ h. h) (λ _ h. h)
              t.spelled);
        stands =
            rw c (unspent_at-spend (get_out_point u) n w.chain.utxos ∙ rw (key, t.stands) refl);
        complete = λ q asked gone. elim (Bool-cases (same_out_point p q)) [
          | inl here ↦ rw here refl
          | inr apart ↦ rw apart (t.complete q asked (sym (get_utxo-remove q p known apart) ∙ gone))
        ];
      }

  pub created-IsTracked :
      (q : OutPoint) (o : Address × ℤ) (n : ℕ) (known : UtxoMap) (f : UtxoSet) (w w' : World)
      → IsTracked points known f w
      → All (λ (p : OutPoint). (q.txid == p.txid) ≡ false) points
      → w'.chain ≡ record w.chain { utxos = new_utxo o.0 q.txid q.vout o.1 n ∷ w.chain.utxos }
      → IsTracked points known (with_output q o f) w'
  created-IsTracked q o n known f w w' t apart c = record {
    keyed = t.keyed;
    spelled = rw c (refl, t.spelled);
    stands = rw c (unspent_at-create o.0 q.txid q.vout o.1 n w.chain.utxos ∙ rw t.stands refl);
    complete = λ p asked gone.
        rw (IsAsked-All (λ p. (q.txid == p.txid) ≡ false) points p apart asked)
          (t.complete p asked gone);
  }
