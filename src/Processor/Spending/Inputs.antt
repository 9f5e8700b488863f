-- ===== src/Processor/Spending/Inputs.antt =====
-- The inputs of a block, and what the map of relevant utxos says of them.
use btc_idx_service.Chain.Rows.{true≢false}
use btc_idx_service.Prelude.{
  none, some, [], true, false, inl, inr, ◌∷◌, ◌≡◌, refl, arith, List, All, ==_iff, All-select, sym,
  Bool-cases, subst, ◌∙◌, Option,
}
use btc_idx_service.Types.{UtxoInfo, OutPoint, same_out_point, get_out_point}
use btc_idx_service.Processor.Defs.{UtxoMap, get_utxo, collect, remove_utxo_at}
use btc_idx_service.Processor.Spending.{IsAsked}

abbrev pub IsKeyed : OutPoint × UtxoInfo → Type 0
IsKeyed e = e.0 ≡ get_out_point e.1

pub same_out_point-eq : (p q : OutPoint) → same_out_point p q ≡ true → p ≡ q
same_out_point-eq p q h =
    go ((==_iff p.txid q.txid).0 (ground arith)) ((==_iff p.vout q.vout).0 (ground arith))
  where
    go : p.txid ≡ q.txid → p.vout ≡ q.vout → p ≡ q
    go e f i = record { txid = e i; vout = f i }

some≢none : (u : UtxoInfo) → Path (Option UtxoInfo) (some u) none → ⊥
some≢none u c = cc

pub get_utxo-IsKeyed :
    (p : OutPoint) (u : UtxoInfo) (m : UtxoMap)
    → get_utxo p m ≡ some u
    → All IsKeyed m
    → get_out_point u ≡ p
get_utxo-IsKeyed p u [] e h = absurd (some≢none u (sym e))
get_utxo-IsKeyed p u ((q, v) ∷ m) e h = ground (arith, get_utxo-IsKeyed p u m)

-- Another out point is still found.
pub get_utxo-remove :
    (p q : OutPoint) (m : UtxoMap)
    → same_out_point q p ≡ false
    → get_utxo p (remove_utxo_at q m) ≡ get_utxo p m
get_utxo-remove p q [] h = refl
get_utxo-remove p q ((r, u) ∷ m) h = ground (arith, get_utxo-remove p q m h)

-- What is not found after collecting was not there to collect.
pub get_utxo-collect :
    (p : OutPoint) (us : List UtxoInfo) (m : UtxoMap)
    → get_utxo p (collect us m) ≡ none
    → (get_utxo p m ≡ none) × All (λ u. same_out_point (get_out_point u) p ≡ false) us
get_utxo-collect p [] m h = (h, tt)
get_utxo-collect p (u ∷ us) m h =
    let (e, later) = get_utxo-collect p us _ h in
    elim (Bool-cases (same_out_point (get_out_point u) p)) [
      | inl here ↦ absurd (some≢none u (rw here at e))
      | inr apart ↦
          (sym (get_utxo-remove p (get_out_point u) m apart) ∙ (rw apart at e), (apart, later))
    ]

pub collect-IsKeyed :
    (us : List UtxoInfo) (m : UtxoMap) → All IsKeyed m → All IsKeyed (collect us m)
collect-IsKeyed [] m h = h
collect-IsKeyed (u ∷ us) m h = collect-IsKeyed us _ (refl, All-select IsKeyed _ m h)

pub IsAsked-All :
    (P : OutPoint → Type 0) (points : List OutPoint) (p : OutPoint)
    → All P points
    → IsAsked points p
    → P p
IsAsked-All P [] p h asked = absurd (true≢false (sym asked))
IsAsked-All P (q ∷ points) p h asked = elim (Bool-cases (same_out_point p q)) [
  | inl same ↦ subst P (sym (same_out_point-eq p q same)) h.0
  | inr other ↦ IsAsked-All P points p h.1 (rw other at asked)
]
