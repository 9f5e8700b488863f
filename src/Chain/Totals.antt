-- ===== src/Chain/Totals.antt =====
-- The unspent satoshis of an address in the utxo table, and how each kind of update moves them.
use btc_idx_service.Prelude.{
  ℕ, List, [], ◌∷◌, ◌==◌, ◌&&◌, if◌then◌else◌, Bool, ◌≤◌, arith, ◌≡◌, none, ◌⊎◌, inl, inr, refl,
  false, All, map, select, All-mono, Bool-cases, true,
}
use btc_idx_service.Prelude.Int.{ℤ, pos, ◌+ℤ◌, int_laws}
use btc_idx_service.Types.{Address, UtxoInfo, same_out_point, OutPoint, get_out_point}
use btc_idx_service.Chain.Tables.{UtxoRow}
use btc_idx_service.Chain.Queries.{utxo_info, is_unspent, at_out_point, spend, is_relevant}
use btc_idx_service.Sql.{count, update}

-- What a row adds to the unspent balance of `a`.
abbrev pub weight : Address → UtxoRow → ℤ
weight a r = if r.address == a && is_unspent r then r.amount else pos 0

unfoldable pub unspent_total : Address → List UtxoRow → ℤ
unspent_total a [] = pos 0
unspent_total a (r ∷ rs) = weight a r +ℤ unspent_total a rs

-- The table holds an unspent row that reads as `u`.
abbrev pub HasUnspent : UtxoInfo → List UtxoRow → Type 0
HasUnspent u [] = ⊥
HasUnspent u (r ∷ rs) = ((utxo_info r ≡ u) × (r.spent_block ≡ none)) ⊎ HasUnspent u rs

abbrev pub at_info : UtxoInfo → UtxoRow → Bool
at_info u = at_out_point u.txid u.vout

pub HasUnspent-count :
    (u : UtxoInfo) (rs : List UtxoRow) → HasUnspent u rs → 1 ≤ count (at_info u) rs
HasUnspent-count u [] h = absurd h
HasUnspent-count u (r ∷ rs) h = ground (arith, HasUnspent-count u rs)

unspent_total-update_none :
    (a : Address) (u : UtxoInfo) (n : ℕ) (rs : List UtxoRow)
    → count (at_info u) rs ≡ 0
    → unspent_total a (update (at_info u) (spend n) rs) ≡ unspent_total a rs
unfolding unspent_total
unspent_total-update_none a u n [] h = refl
unspent_total-update_none a u n (r ∷ rs) h = ground (arith, unspent_total-update_none a u n rs)

-- Spending the only row at an out point takes its amount from its owner's total, and from no other.
pub unspent_total-spend :
    (a : Address) (u : UtxoInfo) (n : ℕ) (rs : List UtxoRow)
    → count (at_info u) rs ≡ 1
    → HasUnspent u rs
    → unspent_total a (update (at_info u) (spend n) rs)
        +ℤ (if u.owner == a then u.amount else pos 0)
      ≡ unspent_total a rs
unfolding unspent_total
unspent_total-spend a u n [] c h = absurd h
unspent_total-spend a u n (r ∷ rs) c (inl here) =
    grind (int_laws, unspent_total-update_none a u n rs)
unspent_total-spend a u n (r ∷ rs) c (inr there) =
    grind (int_laws, unspent_total-spend a u n rs, HasUnspent-count u rs there)

-- A row elsewhere stays as it is.
pub HasUnspent-spend_ne :
    (v u : UtxoInfo) (n : ℕ) (rs : List UtxoRow)
    → same_out_point (get_out_point v) (get_out_point u) ≡ false
    → HasUnspent v rs
    → HasUnspent v (update (at_info u) (spend n) rs)
HasUnspent-spend_ne v u n [] d h = h
HasUnspent-spend_ne v u n (r ∷ rs) d (inl here) = ground arith
HasUnspent-spend_ne v u n (r ∷ rs) d (inr there) = inr (HasUnspent-spend_ne v u n rs d there)

relevant-unspent :
    (points : List OutPoint) (r : UtxoRow) → is_relevant points r ≡ true → r.spent_block ≡ none
relevant-unspent points r h = ground arith

-- What the query for relevant utxos reads is there.
pub All-relevant :
    (points : List OutPoint) (rs : List UtxoRow)
    → All (λ u. HasUnspent u rs) (map utxo_info (select (is_relevant points) rs))
All-relevant points [] = tt
All-relevant points (r ∷ rs) =
    let later =
      All-mono (λ u. HasUnspent u rs) (λ u. HasUnspent u (r ∷ rs))
        (map utxo_info (select (is_relevant points) rs)) (λ u h. inr h) (All-relevant points rs) in
    elim (Bool-cases (is_relevant points r)) [
      | inl hit ↦ rw hit (inl (refl, relevant-unspent points r hit), later)
      | inr miss ↦ rw miss later
    ]
