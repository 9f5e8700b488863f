-- ===== src/Api/Protected.antt =====
-- The handlers under protected/harvester, and the routes that lead to them.
use btc_idx_service.Commands
use btc_idx_service.Commands.{Channel, SendFailure, closed}
use btc_idx_service.Prelude.{none, some, [], ◌∷◌, List, Option, ℕ, if◌then◌else◌, ltb}
use btc_idx_service.Prelude.Run.{ok, err, panic, raise, Run, Outcome}
use btc_idx_service.Api.Defs.{ApiError, params_invalid, status, other}

abbrev pub P : Type 0 → Type 0
P A = Run Channel ApiError A

-- `map_err(|e| ApiError::Other(e.into()))`.
abbrev pub or_other :
    Outcome SendFailure (Unit {0}) × Channel → Outcome ApiError (Unit {0}) × Channel
or_other (ok a, ch) = (ok a, ch)
or_other (err e, ch) = (err other, ch)
or_other (panic, ch) = (panic, ch)

unfoldable pub pause_harvester : P (Unit {0})
pause_harvester ch = or_other (Commands.pause ch)

unfoldable pub resume_harvester : P (Unit {0})
resume_harvester ch = or_other (Commands.auto_scan ch)

unfoldable pub scan_block : ℕ → ℕ → P (Unit {0})
scan_block from to ch =
    if ltb to from then (err params_invalid, ch) else or_other (Commands.scan_block from to ch)

unfoldable pub terminate_harvester : P (Unit {0})
terminate_harvester ch = or_other (Commands.terminate ch)

-- A part of a path: one of the words of the routes, or other text.
pub data Segment : Type 0 where
  api v1 protected harvester pause resume scan terminate : Segment
  raw block latest transaction processed p2tr balance utxo aggregated : Segment
  healthz infoz : Segment
  text : ℕ → Segment

-- What a POST can be for.
pub data Endpoint : Type 0 where
  pausing resuming terminating : Endpoint
  scanning : Option ℕ → Option ℕ → Endpoint

-- `Path<(usize, usize)>`: text that is no number is refused by the error handler of the paths.
abbrev pub scan_texts : Option ℕ → Option ℕ → P (Unit {0})
scan_texts (some from) (some to) = scan_block from to
scan_texts none to = raise params_invalid
scan_texts (some from) none = raise params_invalid

abbrev pub handle : Endpoint → P (Unit {0})
handle pausing = pause_harvester
handle resuming = resume_harvester
handle terminating = terminate_harvester
handle (scanning from to) = scan_texts from to

-- The services that take a POST; `parse` reads a number.
unfoldable pub route : (Segment → Option ℕ) → List Segment → Option Endpoint
route parse (api ∷ v1 ∷ protected ∷ harvester ∷ pause ∷ []) = some pausing
route parse (api ∷ v1 ∷ protected ∷ harvester ∷ resume ∷ []) = some resuming
route parse (api ∷ v1 ∷ protected ∷ harvester ∷ terminate ∷ []) = some terminating
route parse (api ∷ v1 ∷ protected ∷ harvester ∷ scan ∷ from ∷ to ∷ []) =
    some (scanning (parse from) (parse to))
route parse path = none

-- The status of a response: that of `HttpResponse::Ok`, or of the error.
abbrev pub response : Outcome ApiError (Unit {0}) × Channel → ℕ × Channel
response (ok a, ch) = (200, ch)
response (err e, ch) = (status e, ch)
response (panic, ch) = (500, ch)
