-- ===== src/Tests/Requested.antt =====
-- Requests to the web API.
use btc_idx_service.Tests.Fixtures.{chain, ledger}
use btc_idx_service.Api.Service.{
  Web, Request, Site, service, post, get, ok_text, current_balance, resource, show, failure,
}
use btc_idx_service.Api.Effects.{Effect, service-Effect}
use btc_idx_service.Api.Protected.{
  api, v1, protected, harvester, scan, text, Segment, processed, p2tr, balance,
}
use btc_idx_service.Api.Protected
use btc_idx_service.Api.Reads
use btc_idx_service.Harvester.{scan_blocks}
use btc_idx_service.Prelude.{none, some, [], true, ◌∷◌, ◌≡◌, refl, Option, ℕ, unwrap_or}
use btc_idx_service.Prelude.Int.{pos}
use btc_idx_service.Api.{status, params_invalid}
use btc_idx_service.Ledger.{get_btc_balance}

abbrev number_of : Segment → Option ℕ
number_of (text n) = some n
number_of other = none

abbrev pub web : Web
web = record {
  unmatched = λ v p. 404;
  number = number_of;
  hash = number_of;
  txid = number_of;
  spelled = λ s. unwrap_or (number_of s) 0;
  address = λ n. some n;
  date_trunc = λ u n. n;
  series = λ u v. [];
}

abbrev site : Site
site = record {
  database = record { chain = chain; ledger = ledger };
  channel = record { queue = []; receiving = true };
}

abbrev pub scanning : Request
scanning = record {
  verb = post;
  path = api ∷ v1 ∷ protected ∷ harvester ∷ scan ∷ text 3 ∷ text 8 ∷ [];
  query = record { time_span = none; granularity = none };
}

blocks_are_scanned : service web scanning site ≡ (
  some (200, ok_text),
  record site { channel = record { queue = scan_blocks 3 8 ∷ []; receiving = true } },
)
unfolding service Protected.route Protected.scan_block
blocks_are_scanned = refl

service-Effect_example : Effect post site (service web scanning site)
service-Effect_example = service-Effect web scanning site

-- Neither the direction of the range nor text in place of a number gets a command onto the channel.
range_is_checked :
    service web
      (record scanning { path = api ∷ v1 ∷ protected ∷ harvester ∷ scan ∷ text 8 ∷ text 3 ∷ [] })
      site
    ≡ (some (400, failure params_invalid), site)
unfolding service Protected.route Protected.scan_block status
range_is_checked = refl

balance_is_shown :
    (service web
      (record {
        verb = get;
        path = api ∷ v1 ∷ processed ∷ p2tr ∷ text 3 ∷ balance ∷ [];
        query = record { time_span = none; granularity = none };
      })
      site).0
    ≡ some (200, current_balance (pos 50))
unfolding service resource show Reads.p2tr_balance get_btc_balance
balance_is_shown = refl
