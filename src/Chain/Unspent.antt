-- ===== src/Chain/Unspent.antt =====
-- The utxo table as a function: what is unspent at an out point.
use btc_idx_service.Chain.Rows.{true≢false}
use mathlib.Core.Path.{fun_ext}
use btc_idx_service.Prelude.{
  none, some, [], true, false, ◌∷◌, ◌≡◌, ◌&&◌, refl, List, Bool, Option, ℕ, if◌then◌else◌, All,
  exists, map, select, inl, inr, ◌∙◌, arith, ==_iff, Bool-cases, sym, ap,
}
use btc_idx_service.Chain.Tables.{UtxoRow}
use btc_idx_service.Types.{OutPoint, Address, get_out_point, Txid, same_out_point}
use btc_idx_service.Sql.{update}
use btc_idx_service.Chain.Queries.{
  at_out_point, is_unspent, spend, new_utxo, utxo_info, is_relevant,
}
use btc_idx_service.Prelude.Int.{ℤ}

-- An unspent output, by its owner and its amount.
abbrev pub UtxoSet : Type 0
UtxoSet = OutPoint → Option (Address × ℤ)

abbrev pub at_point : OutPoint → UtxoRow → Bool
at_point p = at_out_point p.txid p.vout

unfoldable pub unspent_at : List UtxoRow → UtxoSet
unspent_at [] p = none
unspent_at (u ∷ us) p =
    let rest = unspent_at us p in
    if is_unspent u && at_point p u then some (u.address, u.amount) else rest

abbrev pub without : OutPoint → UtxoSet → UtxoSet
without q f p = if same_out_point q p then none else f p

abbrev pub with_output : OutPoint → Address × ℤ → UtxoSet → UtxoSet
with_output q o f p = if same_out_point q p then some o else f p

-- Spending a row takes its out point out of the set.
pub unspent_at-spend :
    (q : OutPoint) (n : ℕ) (us : List UtxoRow)
    → unspent_at (update (at_out_point q.txid q.vout) (spend n) us) ≡ without q (unspent_at us)
unfolding unspent_at
unspent_at-spend q n us = fun_ext λ p. go us p
  where
    go :
        (us : List UtxoRow) (p : OutPoint)
        → unspent_at (update (at_out_point q.txid q.vout) (spend n) us) p
          ≡ without q (unspent_at us) p
    go [] p = ground arith
    go (u ∷ us) p = ground (arith, go us p)

pub unspent_at-create :
    (owner : Address) (txid : Txid) (vout : ℕ) (amount : ℤ) (n : ℕ) (us : List UtxoRow)
    → unspent_at (new_utxo owner txid vout amount n ∷ us)
      ≡ with_output (record { txid = txid; vout = vout }) (owner, amount) (unspent_at us)
unfolding unspent_at
unspent_at-create owner txid vout amount n us = fun_ext λ p. refl

-- The text key of a row spells its out point.
abbrev pub IsSpelled : UtxoRow → Type 0
IsSpelled u = u.id ≡ record { txid = u.txid; vout = u.vout }

here-eq : (p : OutPoint) (u : UtxoRow) → IsSpelled u → at_point p u ≡ true → u.id ≡ p
here-eq p u s h =
    s ∙ go ((==_iff u.txid p.txid).0 (ground arith)) ((==_iff u.vout p.vout).0 (ground arith))
  where
    go :
        u.txid ≡ p.txid
        → u.vout ≡ p.vout
        → Path OutPoint (record { txid = u.txid; vout = u.vout }) p
    go e f i = record { txid = e i; vout = f i }

-- At an out point asked for, what the query for relevant utxos does not read is not unspent.
pub unspent_at-irrelevant :
    (points : List OutPoint) (p : OutPoint) (us : List UtxoRow)
    → All IsSpelled us
    → exists (same_out_point p) points ≡ true
    → All
        (λ u. same_out_point (get_out_point u) p ≡ false)
        (map utxo_info (select (is_relevant points) us))
    → unspent_at us p ≡ none
unfolding unspent_at
unspent_at-irrelevant points p [] s asked h = refl
unspent_at-irrelevant points p (u ∷ us) s asked h = elim (Bool-cases (is_relevant points u)) [
  | inl hit ↦
      let (apart, later) = rw hit at h in
      rw apart (rw (both_false (is_unspent u)) (unspent_at-irrelevant points p us s.1 asked later))
  | inr miss ↦ rw (elsewhere miss) (unspent_at-irrelevant points p us s.1 asked (rw miss at h))
]
  where
    both_false : (b : Bool) → (b && false) ≡ false
    both_false true = refl
    both_false false = refl

    elsewhere : is_relevant points u ≡ false → (is_unspent u && at_point p u) ≡ false
    elsewhere miss = elim (Bool-cases (is_unspent u)) [
      | inr spent ↦ rw spent refl
      | inl open_row ↦ elim (Bool-cases (at_point p u)) [
        | inr apart ↦ rw (open_row, apart) refl
        | inl here ↦ absurd (
            true≢false (
              sym asked
              ∙ sym (ap (λ q. exists (same_out_point q) points) (here-eq p u s.0 here))
              ∙ (rw open_row at miss)))
      ]
    ]
