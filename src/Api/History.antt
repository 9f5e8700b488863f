-- ===== src/Api/History.antt =====
-- The balance snapshots, by the rows of the hourly changes.
use btc_idx_service.Api.Snapshots.{sum_of, IsAbsent, balance_snapshots-Returns}
use btc_idx_service.Api.Defs.{
  Changes, TimeUnit, month, week, day, hour, TimeSpan, recent_month, recent_week, recent_day,
  Granularity, weekly, daily, hourly, window, joined, or_zero, left_join, value_at,
  balance_snapshots,
}
use btc_idx_service.Prelude.{
  [], ◌∷◌, ◌++◌, ◌≡◌, ◌==◌, ◌&&◌, some, true, false, Bool, List, ℕ, All, refl, inl, inr, Bool-cases,
  if◌then◌else◌, append_assoc, All-append, sym, ◌∙◌, Option, ap,
}
use btc_idx_service.Prelude.Int.{ℤ, pos, ◌+ℤ◌, int_laws, ◌-ℤ◌}
use btc_idx_service.Ledger.{StatisticRow, Ledger}
use btc_idx_service.Types.{Address}
use btc_idx_service.Prelude.Run.{Returns, Returns-mono}
use btc_idx_service.Aggregator.Balanced.{IsBalanced}
use btc_idx_service.Ledger.Totals.{event_total, any_block}

-- The units that the parameters name, in each pair but that of a day in weeks.
abbrev pub span_unit : TimeSpan → TimeUnit
span_unit recent_month = month
span_unit recent_week = week
span_unit recent_day = day

abbrev pub step_unit : Granularity → TimeUnit
step_unit weekly = week
step_unit daily = day
step_unit hourly = hour

abbrev pub IsKnown : TimeSpan → Granularity → Type 0
IsKnown recent_day weekly = ⊥
IsKnown span granularity = Unit

window_lem :
    (span : TimeSpan) (granularity : Granularity)
    → IsKnown span granularity
    → window span granularity ≡ some (span_unit span, step_unit granularity)
unfolding window
window_lem recent_month weekly k = refl
window_lem recent_month daily k = refl
window_lem recent_month hourly k = refl
window_lem recent_week weekly k = refl
window_lem recent_week daily k = refl
window_lem recent_week hourly k = refl
window_lem recent_day weekly k = absurd k
window_lem recent_day daily k = refl
window_lem recent_day hourly k = refl

sum_of-append : (xs ys : Changes) → sum_of (xs ++ ys) ≡ sum_of xs +ℤ sum_of ys
sum_of-append [] ys = omega int_laws
sum_of-append ((t, c) ∷ xs) ys = rw (sum_of-append xs ys) (omega int_laws)

module _ (trunc : ℕ → ℕ) (a : Address) where
  -- The row is one of the address `a`, of an hour that is truncated to the time `t`.
  abbrev pub is_of : ℕ → StatisticRow → Bool
  is_of t r = trunc r.datetime_hour == t && r.address == a

  -- The change of the time `t` in the rows, and that of several times.
  abbrev pub change_at : ℕ → List StatisticRow → ℤ
  change_at t [] = pos 0
  change_at t (r ∷ rs) = (if is_of t r then r.balance else pos 0) +ℤ change_at t rs

  abbrev pub changes : List ℕ → List StatisticRow → ℤ
  changes [] rs = pos 0
  changes (t ∷ ts) rs = change_at t rs +ℤ changes ts rs

  sum_of-joined : (t : ℕ) (rs : List StatisticRow) → sum_of (joined trunc a t rs) ≡ change_at t rs
  sum_of-joined t [] = refl
  sum_of-joined t (r ∷ rs) = elim (Bool-cases (is_of t r)) [
    | inl e ↦ rw (e, sum_of-joined t rs) refl
    | inr e ↦ rw (e, sum_of-joined t rs) (omega int_laws)
  ]

  sum_of-or_zero : (t : ℕ) (cs : Changes) → sum_of (or_zero t cs) ≡ sum_of cs
  sum_of-or_zero t [] = omega int_laws
  sum_of-or_zero t (c ∷ cs) = refl

  sum_of-left_join :
      (ts : List ℕ) (rs : List StatisticRow) → sum_of (left_join trunc a rs ts) ≡ changes ts rs
  sum_of-left_join [] rs = refl
  sum_of-left_join (t ∷ ts) rs =
      rw
        (
          sum_of-append (or_zero t (joined trunc a t rs)) (left_join trunc a rs ts),
          sum_of-or_zero t (joined trunc a t rs),
          sum_of-joined t rs,
          sum_of-left_join ts rs,
        )
        refl

  left_join-append :
      (rs : List StatisticRow) (ts us : List ℕ)
      → left_join trunc a rs (ts ++ us) ≡ left_join trunc a rs ts ++ left_join trunc a rs us
  left_join-append rs [] us = refl
  left_join-append rs (t ∷ ts) us = rw (left_join-append rs ts us) (
      sym (
        append_assoc (or_zero t (joined trunc a t rs)) (left_join trunc a rs ts)
          (left_join trunc a rs us)))

  -- The rows of another time do not have the time `t`.
  joined-IsAbsent :
      (t u : ℕ) (rs : List StatisticRow) → (u == t) ≡ false → IsAbsent t (joined trunc a u rs)
  joined-IsAbsent t u [] e = tt
  joined-IsAbsent t u (r ∷ rs) e = elim (Bool-cases (is_of u r)) [
    | inl k ↦ rw k (e, joined-IsAbsent t u rs e)
    | inr k ↦ rw k (joined-IsAbsent t u rs e)
  ]

  or_zero-IsAbsent :
      (t u : ℕ) (cs : Changes) → (u == t) ≡ false → IsAbsent t cs → IsAbsent t (or_zero u cs)
  or_zero-IsAbsent t u [] e h = (e, tt)
  or_zero-IsAbsent t u (c ∷ cs) e h = h

  left_join-IsAbsent :
      (t : ℕ) (us : List ℕ) (rs : List StatisticRow)
      → All (λ u. (u == t) ≡ false) us
      → IsAbsent t (left_join trunc a rs us)
  left_join-IsAbsent t [] rs h = tt
  left_join-IsAbsent t (u ∷ us) rs h =
      All-append (λ (c : ℕ × ℤ). (c.0 == t) ≡ false) (or_zero u (joined trunc a u rs))
        (left_join trunc a rs us)
        (or_zero-IsAbsent t u (joined trunc a u rs) h.0 (joined-IsAbsent t u rs h.0))
        (left_join-IsAbsent t us rs h.1)

  joined-none :
      (t : ℕ) (rs : List StatisticRow) → All (λ r. is_of t r ≡ false) rs → joined trunc a t rs ≡ []
  joined-none t [] h = refl
  joined-none t (r ∷ rs) h = rw (h.0) (joined-none t rs h.1)

  -- The rows of a time end with its last one.
  joined-last :
      (t : ℕ) (rs after : List StatisticRow) (r : StatisticRow)
      → is_of t r ≡ true
      → All (λ r'. is_of t r' ≡ false) after
      → joined trunc a t (rs ++ r ∷ after) ≡ joined trunc a t rs ++ (t, r.balance) ∷ []
  joined-last t [] after r e h = rw (e, joined-none t after h) refl
  joined-last t (r' ∷ rs) after r e h = elim (Bool-cases (is_of t r')) [
    | inl k ↦ rw (k, joined-last t rs after r e h) refl
    | inr k ↦ rw (k, joined-last t rs after r e h) refl
  ]

  or_zero-last : (t : ℕ) (cs : Changes) (c : ℤ) → or_zero t (cs ++ (t, c) ∷ []) ≡ cs ++ (t, c) ∷ []
  or_zero-last t [] c = refl
  or_zero-last t (x ∷ cs) c = refl

  rows_lem :
      (ts us : List ℕ) (t : ℕ) (rs after : List StatisticRow) (r : StatisticRow)
      → is_of t r ≡ true
      → All (λ r'. is_of t r' ≡ false) after
      → left_join trunc a (rs ++ r ∷ after) (ts ++ t ∷ us)
        ≡ (left_join trunc a (rs ++ r ∷ after) ts ++ joined trunc a t rs)
          ++ (t, r.balance) ∷ left_join trunc a (rs ++ r ∷ after) us
  rows_lem ts us t rs after r e h =
      let all = rs ++ r ∷ after in
      left_join-append all ts (t ∷ us)
      ∙ ap (λ j. left_join trunc a all ts ++ (or_zero t j ++ left_join trunc a all us))
          (joined-last t rs after r e h)
      ∙ ap (λ j. left_join trunc a all ts ++ (j ++ left_join trunc a all us))
          (or_zero-last t (joined trunc a t rs) r.balance)
      ∙ ap (λ j. left_join trunc a all ts ++ j)
          (append_assoc (joined trunc a t rs) ((t, r.balance) ∷ []) (left_join trunc a all us))
      ∙ sym (
          append_assoc (left_join trunc a all ts) (joined trunc a t rs)
            ((t, r.balance) ∷ left_join trunc a all us))

  newer_lem :
      (ts : List ℕ) (t : ℕ) (all rs : List StatisticRow)
      → sum_of (left_join trunc a all ts ++ joined trunc a t rs) ≡ changes ts all +ℤ change_at t rs
  newer_lem ts t all rs =
      rw
        (
          sum_of-append (left_join trunc a all ts) (joined trunc a t rs),
          sum_of-left_join ts all,
          sum_of-joined t rs,
        )
        refl

module _ (date_trunc : TimeUnit → ℕ → ℕ) (series : TimeUnit → TimeUnit → List ℕ)
    (parse : ℕ → Option Address) where
  -- For every pair of a time span and a granularity but that of a day in weeks, for an address that
  -- parses, and on a ledger whose balances are the sums of the recorded events, the handler returns and
  -- changes no table. At a time that has a row of the address and does not come again later in the
  -- series, it shows the sum of all recorded events of the address less its changes at the times before
  -- it in the series, which are newer, and less those of the same time but for its last row.
  pub balance_snapshots-shows :
      (text : ℕ) (span : TimeSpan) (granularity : Granularity) (a : Address) (l : Ledger)
      (ts us : List ℕ) (t : ℕ) (rs after : List StatisticRow) (r : StatisticRow)
      → IsKnown span granularity
      → parse text ≡ some a
      → IsBalanced l
      → series (span_unit span) (step_unit granularity) ≡ ts ++ t ∷ us
      → All (λ u. (u == t) ≡ false) us
      → l.statistics ≡ rs ++ r ∷ after
      → is_of (date_trunc (step_unit granularity)) a t r ≡ true
      → All (λ r'. is_of (date_trunc (step_unit granularity)) a t r' ≡ false) after
      → Returns
          (λ m l'.
            (value_at t m
              ≡ some (
                  event_total any_block a l.events
                  -ℤ (changes (date_trunc (step_unit granularity)) a ts l.statistics
                      +ℤ change_at (date_trunc (step_unit granularity)) a t rs)))
            × (l' ≡ l))
          (balance_snapshots date_trunc series parse text span granularity l)
  balance_snapshots-shows text span granularity a l ts us t rs after r known parses balanced times
        distinct rows at last =
      let trunc = date_trunc (step_unit granularity) in
      let all = rs ++ r ∷ after in
      let joins =
        ap (λ ss. left_join trunc a ss (series (span_unit span) (step_unit granularity))) rows
        ∙ ap (λ ts'. left_join trunc a all ts') times
        ∙ rows_lem trunc a ts us t rs after r at last in
      Returns-mono
        (λ m l'.
          (value_at t m
            ≡ some (
                event_total any_block a l.events
                -ℤ sum_of (left_join trunc a all ts ++ joined trunc a t rs)))
          × (l' ≡ l))
        _ _
        (balance_snapshots-Returns date_trunc series parse text span granularity (span_unit span)
          (step_unit granularity) a l (left_join trunc a all ts ++ joined trunc a t rs)
          (left_join trunc a all us) t r.balance (window_lem span granularity known) parses balanced
          joins (left_join-IsAbsent trunc a t us all distinct))
        (λ m l' (value, same). (
          value
              ∙ ap (λ v. some (event_total any_block a l.events -ℤ v))
                  (newer_lem trunc a ts t all rs
                    ∙ ap (λ ss. changes trunc a ts ss +ℤ change_at trunc a t rs) (sym rows)),
          same,
        ))
