-- ===== src/Ledger/Totals.antt =====
-- What the ledger tables say of an address: its recorded events, those pending, its balance, and
-- its hourly changes.
use mathlib.Core.List.{Permᴰ}
use mathlib.Core.List.Permᴰ.{nil, cons, swap, trans}
use mathlib.Core.Logic.{∥∥₁_elim}
use btc_idx_service.Prelude.{
  some, [], true, ◌∷◌, ◌≡◌, ◌==◌, ◌&&◌, ◌∙◌, refl, List, Bool, ℕ, if◌then◌else◌, Perm, select, none,
  inl, inr, arith, Option, Bool-cases,
}
use btc_idx_service.Prelude.Int.{pos, ℤ, int_laws, ◌+ℤ◌, ℤ-set}
use btc_idx_service.Types.{Address, P2trEvent}
use btc_idx_service.Ledger.Tables.{EventRow, BalanceRow, PendingRow, StatisticRow}
use btc_idx_service.Ledger.Queries.{upsert, decode_all, decode_pending, decode_event}
use btc_idx_service.Sql.{delete}

-- The part of an amount that counts for `a`, in the blocks that `p` picks.
abbrev pub share : (ℕ → Bool) → Address → ℕ → Address → ℤ → ℤ
share p a block_number address amount = if p block_number && address == a then amount else pos 0

unfoldable pub event_total : (ℕ → Bool) → Address → List EventRow → ℤ
event_total p a [] = pos 0
event_total p a (r ∷ rs) = share p a r.block_number r.address r.amount +ℤ event_total p a rs

unfoldable pub pending_total : (ℕ → Bool) → Address → List PendingRow → ℤ
pending_total p a [] = pos 0
pending_total p a (r ∷ rs) = share p a r.block_number r.address r.amount +ℤ pending_total p a rs

-- The sum over a list of events.
unfoldable pub amount_total : (ℕ → Bool) → Address → List P2trEvent → ℤ
amount_total p a [] = pos 0
amount_total p a (e ∷ es) = share p a e.block_number e.address e.amount +ℤ amount_total p a es

-- The balance that `get_btc_balance` reports, 0 if there is none.
unfoldable pub balance_at : Address → List BalanceRow → ℤ
balance_at a [] = pos 0
balance_at a (r ∷ rs) = if r.address == a then r.balance else balance_at a rs

unfoldable pub statistic_total : Address → List StatisticRow → ℤ
statistic_total a [] = pos 0
statistic_total a (r ∷ rs) = (if r.address == a then r.balance else pos 0) +ℤ statistic_total a rs

abbrev pub any_block : ℕ → Bool
any_block n = true

pub balance_at-upsert :
    (a address : Address) (value : ℤ) (t : ℕ) (rs : List BalanceRow)
    → balance_at a (
        upsert
          (λ r. r.address == address)
          (record { address = address; balance = value; last_updated = t })
          (λ r. record r { balance = r.balance +ℤ value; last_updated = t })
          rs)
      ≡ balance_at a rs +ℤ (if address == a then value else pos 0)
unfolding balance_at
balance_at-upsert a address value t [] = grind int_laws
balance_at-upsert a address value t (r ∷ rs) =
    grind (int_laws, balance_at-upsert a address value t rs)

pub statistic_total-upsert :
    (a address : Address) (value : ℤ) (hour t : ℕ) (rs : List StatisticRow)
    → statistic_total a (
        upsert
          (λ r. r.address == address && r.datetime_hour == hour)
          (record { address = address; balance = value; datetime_hour = hour; last_updated = t })
          (λ r. record r { balance = r.balance +ℤ value; last_updated = t })
          rs)
      ≡ statistic_total a rs +ℤ (if address == a then value else pos 0)
unfolding statistic_total
statistic_total-upsert a address value hour t [] = grind int_laws
statistic_total-upsert a address value hour t (r ∷ rs) =
    grind (int_laws, statistic_total-upsert a address value hour t rs)

decode_all-cons :
    {R : Type 0} (d : R → Option P2trEvent) (r : R) (rs : List R) (es : List P2trEvent)
    → decode_all d (r ∷ rs) ≡ some es
    → (e : P2trEvent) × (es' : List P2trEvent) × (d r ≡ some e)
      × (decode_all d rs ≡ some es')
      × (es ≡ e ∷ es')
decode_all-cons d r rs es h = go (d r) refl (decode_all d rs) refl
  where
    go :
        (o : Option P2trEvent)
        → d r ≡ o
        → (t : Option (List P2trEvent)) → decode_all d rs ≡ t
        → (e : P2trEvent) × (es' : List P2trEvent) × (d r ≡ some e)
          × (decode_all d rs ≡ some es')
          × (es ≡ e ∷ es')
    go none e t f = ground arith
    go (some x) e none f = ground arith
    go (some x) e (some xs) f = (x, xs, e, f, ground arith)

decode_event_lem :
    (r : EventRow) (e : P2trEvent)
    → decode_event r ≡ some e
    → (e.block_number ≡ r.block_number) × (e.address ≡ r.address) × (e.amount ≡ r.amount)
decode_event_lem r e h = ground arith

decode_pending_lem :
    (r : PendingRow) (e : P2trEvent)
    → decode_pending r ≡ some e
    → (e.block_number ≡ r.block_number) × (e.address ≡ r.address) × (e.amount ≡ r.amount)
decode_pending_lem r e h = ground arith

-- What a query returns from the rows that `q` picks adds up as those rows do.
pub event_total-decode :
    (p q : ℕ → Bool) (a : Address) (rs : List EventRow) (es : List P2trEvent)
    → decode_all decode_event (select (λ r. q r.block_number) rs) ≡ some es
    → amount_total p a es ≡ event_total (λ n. p n && q n) a rs
unfolding event_total amount_total
event_total-decode p q a [] [] h = refl
event_total-decode p q a [] (e ∷ es) h = cc
event_total-decode p q a (r ∷ rs) es h = elim (Bool-cases (q r.block_number)) [
  | inr out ↦ grind (int_laws, event_total-decode p q a rs es)
  | inl hit ↦
      let (e, es', d, ds, f) =
        decode_all-cons decode_event r (select (λ r. q r.block_number) rs) es (rw hit at h) in
      let (n, b, v) = decode_event_lem r e d in
      rw (f, n, b, v, event_total-decode p q a rs es' ds) (ground arith)
]

-- So do the events that a pull takes out and the rows that it leaves.
pub pending_total-decode :
    (p q : ℕ → Bool) (a : Address) (rs : List PendingRow) (es : List P2trEvent)
    → decode_all decode_pending (select (λ r. q r.block_number) rs) ≡ some es
    → amount_total p a es +ℤ pending_total p a (delete (λ r. q r.block_number) rs)
      ≡ pending_total p a rs
unfolding pending_total amount_total
pending_total-decode p q a [] [] h = omega int_laws
pending_total-decode p q a [] (e ∷ es) h = cc
pending_total-decode p q a (r ∷ rs) es h = elim (Bool-cases (q r.block_number)) [
  | inr out ↦ rw out (grind (int_laws, pending_total-decode p q a rs es (rw out at h)))
  | inl hit ↦
      let (e, es', d, ds, f) =
        decode_all-cons decode_pending r (select (λ r. q r.block_number) rs) es (rw hit at h) in
      let (n, b, v) = decode_pending_lem r e d in
      rw (hit, f, n, b, v) (grind (int_laws, pending_total-decode p q a rs es' ds))
]

amount_total-perm_d :
    (p : ℕ → Bool) (a : Address) {l k : List P2trEvent}
    → Permᴰ l k
    → amount_total p a l ≡ amount_total p a k
unfolding amount_total
amount_total-perm_d p a nil = refl
amount_total-perm_d p a (cons e d) = rw (e, amount_total-perm_d p a d)
amount_total-perm_d p a (swap e f) = rw (e, f) (omega int_laws)
amount_total-perm_d p a (trans d e) = amount_total-perm_d p a d ∙ amount_total-perm_d p a e

pub amount_total-perm :
    (p : ℕ → Bool) (a : Address) {l k : List P2trEvent}
    → Perm l k
    → amount_total p a l ≡ amount_total p a k
amount_total-perm p a d = ∥∥₁_elim d (ℤ-set _ _) (amount_total-perm_d p a)
