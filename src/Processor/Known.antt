-- ===== src/Processor/Known.antt =====
-- The map of relevant utxos: each entry is keyed by its out point and stands for an unspent row.
use btc_idx_service.Prelude.{
  none, some, [], inr, ◌∷◌, ◌≡◌, refl, arith, List, ℕ, All-mono, All, All-select,
}
use btc_idx_service.Types.{UtxoInfo, OutPoint, get_out_point}
use btc_idx_service.Processor.Defs.{UtxoMap, remove_utxo_at, get_utxo, collect}
use btc_idx_service.Chain.{UtxoRow, spend}
use btc_idx_service.Chain.Totals.{HasUnspent, at_info, HasUnspent-spend_ne}
use btc_idx_service.Sql.{update}

abbrev pub IsBacked : List UtxoRow → OutPoint × UtxoInfo → Type 0
IsBacked rs e = (e.0 ≡ get_out_point e.1) × HasUnspent e.1 rs

abbrev pub AllBacked : UtxoMap → List UtxoRow → Type 0
AllBacked m rs = All (IsBacked rs) m

-- What the map finds is an unspent row at the out point asked for.
pub get_utxo-IsBacked :
    (p : OutPoint) (u : UtxoInfo) (m : UtxoMap) (rs : List UtxoRow)
    → get_utxo p m ≡ some u
    → AllBacked m rs
    → (get_out_point u ≡ p) × HasUnspent u rs
get_utxo-IsBacked p u [] rs e h = absurd (none≢some u e)
  where
    none≢some : (v : UtxoInfo) → ¬ (none ≡ some v)
    none≢some v c = cc
get_utxo-IsBacked p u ((q, v) ∷ m) rs e h = ground (arith, get_utxo-IsBacked p u m rs)

-- Once `u` is spent, the other entries still stand for unspent rows.
pub remove_utxo_at-AllBacked :
    (u : UtxoInfo) (n : ℕ) (m : UtxoMap) (rs : List UtxoRow)
    → AllBacked m rs
    → AllBacked (remove_utxo_at (get_out_point u) m) (update (at_info u) (spend n) rs)
remove_utxo_at-AllBacked u n [] rs h = tt
remove_utxo_at-AllBacked u n ((q, v) ∷ m) rs h =
    ground (arith, remove_utxo_at-AllBacked u n m rs h.1, HasUnspent-spend_ne v u n rs)

pub AllBacked-cons :
    (r : UtxoRow) (m : UtxoMap) (rs : List UtxoRow) → AllBacked m rs → AllBacked m (r ∷ rs)
AllBacked-cons r m rs = All-mono (IsBacked rs) (IsBacked (r ∷ rs)) m (λ e h. (h.0, inr h.1))

pub collect-AllBacked :
    (us : List UtxoInfo) (m : UtxoMap) (rs : List UtxoRow)
    → All (λ u. HasUnspent u rs) us
    → AllBacked m rs
    → AllBacked (collect us m) rs
collect-AllBacked [] m rs h k = k
collect-AllBacked (u ∷ us) m rs h k =
    collect-AllBacked us _ rs h.1 ((refl, h.0), All-select (IsBacked rs) _ m k)
