-- ===== src/Tools.antt =====
-- bin/bis/src/tools.rs: the subcommands of the indexer's command line.
use btc_idx_service.Api.Protected
use btc_idx_service.Harvester
use btc_idx_service.Api.Protected.{
  Segment, route, response, pause_harvester, resume_harvester, terminate_harvester,
}
use btc_idx_service.Commands.{Channel}
use btc_idx_service.Harvester.{Command}
use btc_idx_service.Prelude.{
  none, some, [], true, false, ◌∷◌, ◌≡◌, ◌++◌, ◌&&◌, List, Bool, Option, ℕ, if◌then◌else◌, not, ltb,
  arith,
}
use btc_idx_service.Prelude.Run.{ok, err, Outcome}
use btc_idx_service.Api.{status}
use native.Mathlib.Omega.{arith}

pub data Subcommand : Type 0 where
  scan_block : ℕ → ℕ → Subcommand
  terminate pause resume : Subcommand

pub data ToolError : Type 0 where
  failed : ToolError

-- The printing and parsing of numbers in a URL, the test for a successful status, and the status
-- for a path without a route are those of std, actix_web and reqwest; `connected` says whether the
-- service is there to answer a request.
pub record Http : Type 0 where
  pub to_string : ℕ → ℕ
  pub parse : ℕ → Option ℕ
  pub is_success : ℕ → Bool
  pub connected : Bool
  pub unmatched : ℕ

pub record IsHttp (x : Http) : Type 0 where
  pub parse-to_string : (n : ℕ) → x.parse (x.to_string n) ≡ some n
  pub ok_status : x.is_success 200 ≡ true
  pub bad_request : x.is_success 400 ≡ false
  pub server_error : x.is_success 500 ≡ false

-- The words of the routes are no numbers.
abbrev number_of : (ℕ → Option ℕ) → Segment → Option ℕ
number_of parse (Protected.text n) = parse n
number_of parse word = none

module _ (x : Http) where
  abbrev pub url : Subcommand → List Segment
  url (scan_block from to) =
      Protected.api
      ∷ Protected.v1
      ∷ Protected.protected
      ∷ Protected.harvester
      ∷ Protected.scan
      ∷ Protected.text (x.to_string from)
      ∷ Protected.text (x.to_string to)
      ∷ []
  url terminate =
      Protected.api ∷ Protected.v1 ∷ Protected.protected ∷ Protected.harvester ∷ Protected.terminate
      ∷ []
  url pause =
      Protected.api ∷ Protected.v1 ∷ Protected.protected ∷ Protected.harvester ∷ Protected.pause
      ∷ []
  url resume =
      Protected.api ∷ Protected.v1 ∷ Protected.protected ∷ Protected.harvester ∷ Protected.resume
      ∷ []

  -- A POST to the service.
  abbrev pub post : List Segment → Channel → ℕ × Channel
  post path ch = elim (route (number_of x.parse) path) [
    | none ↦ (x.unmatched, ch)
    | some endpoint ↦ response (Protected.handle endpoint ch)
  ]

  abbrev check_status : ℕ × Channel → Outcome ToolError (Unit {0}) × Channel
  check_status (status_code, ch) =
      if x.is_success status_code then (ok tt, ch) else (err failed, ch)

  -- `scan_block`, `terminate`, `pause` and `resume`.
  unfoldable pub run : Subcommand → Channel → Outcome ToolError (Unit {0}) × Channel
  run subcommand ch =
      if x.connected then check_status (post (url subcommand) ch) else (err failed, ch)

-- What a subcommand is for.
abbrev pub command_of : Subcommand → Command
command_of (scan_block from to) = Harvester.scan_blocks from to
command_of terminate = Harvester.terminate
command_of pause = Harvester.pause
command_of resume = Harvester.auto_scan

abbrev pub is_valid : Subcommand → Bool
is_valid (scan_block from to) = not (ltb to from)
is_valid terminate = true
is_valid pause = true
is_valid resume = true

-- The command arrives as the last of the queue, or the subcommand fails and nothing does.
abbrev pub delivered : Bool → Subcommand → Channel → Outcome ToolError (Unit {0}) × Channel
delivered connected subcommand ch =
    if connected && is_valid subcommand && ch.receiving
    then (ok tt, record ch { queue = ch.queue ++ command_of subcommand ∷ [] })
    else (err failed, ch)

-- A subcommand does what `delivered` says: through URL, route, handler and status code, a valid one
-- reaches a listening harvester as its command, and reports success; a scan that ends before it
-- starts, a harvester that is gone, or a service that does not answer, is reported as a failure and
-- nothing is sent.
pub run-eq-delivered :
    (x : Http) (subcommand : Subcommand) (ch : Channel)
    → IsHttp x
    → run x subcommand ch ≡ delivered x.connected subcommand ch
unfolding run route Protected.scan_block pause_harvester resume_harvester terminate_harvester status
run-eq-delivered x (scan_block from to) ch i =
    rw (i.parse-to_string from, i.parse-to_string to)
      (ground (arith, i.ok_status, i.bad_request, i.server_error))
run-eq-delivered x terminate ch i = ground (arith, i.ok_status, i.server_error)
run-eq-delivered x pause ch i = ground (arith, i.ok_status, i.server_error)
run-eq-delivered x resume ch i = ground (arith, i.ok_status, i.server_error)
