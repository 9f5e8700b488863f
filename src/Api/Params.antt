-- ===== src/Api/Params.antt =====
-- bin/bis/src/api/models.rs: the parameters of the balance snapshots, as text of one letter.
use btc_idx_service.Prelude.{none, some, ◌≡◌, ◌==◌, refl, Option, ℕ, if◌then◌else◌}
use btc_idx_service.Api.Defs.{
  Granularity, TimeSpan, recent_month, weekly, daily, recent_week, recent_day, hourly,
}

-- The codes of the letters.
abbrev d_letter : ℕ
d_letter = 100

abbrev h_letter : ℕ
h_letter = 104

abbrev m_letter : ℕ
m_letter = 109

abbrev w_letter : ℕ
w_letter = 119

-- `Deserialize`, with the names in snake case.
unfoldable pub time_span_of : ℕ → Option TimeSpan
time_span_of letter =
    if letter == m_letter
    then some recent_month
    else if letter == w_letter
    then some recent_week
    else if letter == d_letter
    then some recent_day
    else none

unfoldable pub granularity_of : ℕ → Option Granularity
granularity_of letter =
    if letter == w_letter
    then some weekly
    else if letter == d_letter
    then some daily
    else if letter == h_letter
    then some hourly
    else none

-- `Display`.
abbrev pub show_time_span : TimeSpan → ℕ
show_time_span recent_month = m_letter
show_time_span recent_week = w_letter
show_time_span recent_day = d_letter

abbrev pub show_granularity : Granularity → ℕ
show_granularity weekly = w_letter
show_granularity daily = d_letter
show_granularity hourly = h_letter

pub time_span_of-show_time_span : (s : TimeSpan) → time_span_of (show_time_span s) ≡ some s
unfolding time_span_of
time_span_of-show_time_span recent_month = refl
time_span_of-show_time_span recent_week = refl
time_span_of-show_time_span recent_day = refl

pub granularity_of-show_granularity :
    (g : Granularity) → granularity_of (show_granularity g) ≡ some g
unfolding granularity_of
granularity_of-show_granularity weekly = refl
granularity_of-show_granularity daily = refl
granularity_of-show_granularity hourly = refl

-- `AggregatedBalanceParams`: `none` is a parameter that is missing.
pub record Params : Type 0 where
  pub time_span : Option ℕ
  pub granularity : Option ℕ

abbrev both : Option TimeSpan → Option Granularity → Option (TimeSpan × Granularity)
both (some s) (some g) = some (s, g)
both (some s) none = none
both none g = none

abbrev and_then : {A : Type 0} → Option ℕ → (ℕ → Option A) → Option A
and_then none f = none
and_then (some n) f = f n

abbrev pub read_params : Params → Option (TimeSpan × Granularity)
read_params q = both (and_then q.time_span time_span_of) (and_then q.granularity granularity_of)
