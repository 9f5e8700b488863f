-- ===== src/Processor/Balances.antt =====
-- The map of balance changes of one transaction, and the sums that the messages carry.
use mathlib.Core.List.{Perm, Permᴰ}
use mathlib.Core.List.Permᴰ.{nil, cons, swap, trans}
use mathlib.Core.Logic.{∥∥₁_elim}
use btc_idx_service.Prelude.{[], List, ◌≡◌, if◌then◌else◌, ◌∷◌, arith, ◌==◌, ◌++◌, ◌∙◌, refl}
use btc_idx_service.Prelude.Int.{pos, ℤ, ℤ-set, int_laws, ◌+ℤ◌}
use btc_idx_service.Processor.Defs.{set_balance, BalanceMap, balance_of}
use btc_idx_service.Types.{Address, AggregatorMsg, event, reorg_from}
use btc_idx_service.Sql.{delete}

-- The changes under a key, added up.
unfoldable pub sum_at : Address → BalanceMap → ℤ
sum_at a [] = pos 0
sum_at a ((b, v) ∷ m) = (if b == a then v else pos 0) +ℤ sum_at a m

-- What the messages add to the balance of an address.
unfoldable pub event_amount : Address → AggregatorMsg → ℤ
event_amount a (event e) = if e.address == a then e.amount else pos 0
event_amount a (reorg_from n) = pos 0

unfoldable pub event_sum : Address → List AggregatorMsg → ℤ
unfolding event_amount
event_sum a [] = pos 0
event_sum a (e ∷ l) = event_amount a e +ℤ event_sum a l

pub event_sum-append :
    (a : Address) (l k : List AggregatorMsg) → event_sum a (l ++ k) ≡ event_sum a l +ℤ event_sum a k
unfolding event_sum
event_sum-append a [] k = omega int_laws
event_sum-append a (e ∷ l) k = rw (event_sum-append a l k) (omega int_laws)

-- A map with one value for each key: what it finds is all there is.
abbrev pub IsMap : BalanceMap → Type 0
IsMap m = (a : Address) → balance_of a m ≡ sum_at a m

sum_at-remove :
    (a k : Address) (m : BalanceMap)
    → sum_at a (delete (λ (e : Address × ℤ). e.0 == k) m) ≡ (if k == a then pos 0 else sum_at a m)
unfolding sum_at
sum_at-remove a k [] = ground arith
sum_at-remove a k ((b, v) ∷ m) = grind (int_laws, sum_at-remove a k m)

pub sum_at-set_balance :
    (a k : Address) (v : ℤ) (m : BalanceMap)
    → sum_at a (set_balance k v m) ≡ (if k == a then v else sum_at a m)
unfolding sum_at set_balance
sum_at-set_balance a k v m = grind (int_laws, sum_at-remove a k m)

balance_of-remove :
    (a k : Address) (m : BalanceMap)
    → balance_of a (delete (λ (e : Address × ℤ). e.0 == k) m)
      ≡ (if k == a then pos 0 else balance_of a m)
balance_of-remove a k [] = ground arith
balance_of-remove a k ((b, v) ∷ m) = ground (arith, balance_of-remove a k m)

pub balance_of-set_balance :
    (a k : Address) (v : ℤ) (m : BalanceMap)
    → balance_of a (set_balance k v m) ≡ (if k == a then v else balance_of a m)
unfolding set_balance
balance_of-set_balance a k v m = ground (arith, balance_of-remove a k m)

pub set_balance-IsMap : (k : Address) (v : ℤ) (m : BalanceMap) → IsMap m → IsMap (set_balance k v m)
set_balance-IsMap k v m h a =
    ground (arith, h a, sum_at-set_balance a k v m, balance_of-set_balance a k v m)

sum_at-perm_d : (a : Address) {l k : BalanceMap} → Permᴰ l k → sum_at a l ≡ sum_at a k
unfolding sum_at
sum_at-perm_d a nil = refl
sum_at-perm_d a (cons e p) = rw (e, sum_at-perm_d a p)
sum_at-perm_d a (swap e f) = rw (e, f) (omega int_laws)
sum_at-perm_d a (trans p q) = sum_at-perm_d a p ∙ sum_at-perm_d a q

-- The order in which the map is walked does not change what it adds up to.
pub sum_at-perm : (a : Address) {l k : BalanceMap} → Perm l k → sum_at a l ≡ sum_at a k
sum_at-perm a p = ∥∥₁_elim p (ℤ-set _ _) (sum_at-perm_d a)
