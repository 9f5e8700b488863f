-- ===== src/Api/Service.antt =====
-- bin/bis/src/api/mod.rs: the service as a function of a request.
use btc_idx_service.Api.Protected
use btc_idx_service.Api.Reads
use btc_idx_service.Api.Protected.{
  Segment, api, v1, raw, latest, processed, p2tr, balance, utxo, aggregated, healthz, infoz,
}
use btc_idx_service.Prelude.{none, some, [], ◌∷◌, List, Option, ℕ}
use btc_idx_service.Prelude.Run.{ok, err, panic, raise, Outcome}
use btc_idx_service.Api.Defs.{
  ApiError, TimeSpan, params_invalid, Granularity, status, JsonMap, TimeUnit, balance_snapshots,
}
use btc_idx_service.Types.{BlockHash, Txid, Address}
use btc_idx_service.Commands.{Channel}
use btc_idx_service.Api.Params.{Params, read_params}
use btc_idx_service.Prelude.Int.{ℤ}
use btc_idx_service.Api.Reads.{on_ledger}

pub data Verb : Type 0 where
  get post other_verb : Verb

pub record Request : Type 0 where
  pub verb : Verb
  pub path : List Segment
  pub query : Params

pub data Body : Type 0 where
  nothing ok_text process_info : Body
  failure : ApiError → Body
  latest_block_height : Option ℕ → Body
  block_header_data : Reads.BlockHeaderData → Body
  transaction_data : Reads.TransactionData → Body
  current_balance : ℤ → Body
  utxos : List Reads.Utxo → Body
  snapshots : JsonMap → Body

-- A status and a body, or none where the handler panics.
abbrev pub Response : Type 0
Response = Option (ℕ × Body)

pub record Site : Type 0 where
  pub database : Reads.Database
  pub channel : Channel

-- What actix_web, the crate bitcoin, std and PostgreSQL do: the status where no service matches, the
-- reading of a part of a path as a number, a hash, an id or an address, and the times of the snapshots.
pub record Web : Type 0 where
  pub unmatched : Verb → List Segment → ℕ
  pub number : Segment → Option ℕ
  pub hash : Segment → Option BlockHash
  pub txid : Segment → Option Txid
  pub spelled : Segment → ℕ
  pub address : ℕ → Option Address
  pub date_trunc : TimeUnit → ℕ → ℕ
  pub series : TimeUnit → TimeUnit → List ℕ

-- What a GET can be for, with the parameters that do not read as `none`.
pub data Resource : Type 0 where
  health info latest_height : Resource
  block_at : Option BlockHash → Resource
  transaction_at : Option Txid → Resource
  balance_at utxos_at snapshots_at : ℕ → Resource

abbrev pub respond : {A : Type 0} → (A → Body) → Outcome ApiError A → Response
respond body (ok a) = some (200, body a)
respond body (err e) = some (status e, failure e)
respond body panic = none

-- `Path` with text that does not read, by the error handler of the paths.
abbrev pub or_invalid : {A B : Type 0} → Option A → (A → Reads.R B) → Reads.R B
or_invalid none f = raise params_invalid
or_invalid (some a) f = f a

module _ (web : Web) where
  -- The services in the order of `routes`: the latest block before the one with a hash.
  unfoldable pub resource : List Segment → Option Resource
  resource (healthz ∷ []) = some health
  resource (infoz ∷ []) = some info
  resource (api ∷ v1 ∷ raw ∷ Protected.block ∷ latest ∷ []) = some latest_height
  resource (api ∷ v1 ∷ raw ∷ Protected.block ∷ hash ∷ []) = some (block_at (web.hash hash))
  resource (api ∷ v1 ∷ raw ∷ Protected.transaction ∷ txid ∷ []) =
      some (transaction_at (web.txid txid))
  resource (api ∷ v1 ∷ processed ∷ p2tr ∷ address ∷ balance ∷ []) =
      some (balance_at (web.spelled address))
  resource (api ∷ v1 ∷ processed ∷ p2tr ∷ address ∷ utxo ∷ []) =
      some (utxos_at (web.spelled address))
  resource (api ∷ v1 ∷ aggregated ∷ p2tr ∷ address ∷ []) = some (snapshots_at (web.spelled address))
  resource path = none

  abbrev pub on_params : ℕ → Option (TimeSpan × Granularity) → Reads.R JsonMap
  on_params address none d = raise params_invalid d
  on_params address (some (time_span, granularity)) d =
      Reads.on_tables
        (balance_snapshots web.date_trunc web.series web.address address time_span granularity) d

  abbrev read_with :
      {A : Type 0} → (A → Body) → Reads.R A → Reads.Database → Response × Reads.Database
  read_with body q d = (respond body (q d).0, (q d).1)

  unfoldable pub show : Resource → Params → Reads.Database → Response × Reads.Database
  show health query d = (some (200, nothing), d)
  show info query d = (some (200, process_info), d)
  show latest_height query d = read_with latest_block_height Reads.latest_block d
  show (block_at hash) query d = read_with block_header_data (or_invalid hash Reads.block) d
  show (transaction_at txid) query d =
      read_with transaction_data (or_invalid txid Reads.transaction) d
  show (balance_at address) query d =
      read_with current_balance (Reads.p2tr_balance web.address address) d
  show (utxos_at address) query d = read_with utxos (Reads.p2tr_utxo web.address address) d
  show (snapshots_at address) query d =
      read_with snapshots (on_params address (read_params query)) d

  abbrev pub shown : Option Resource → Request → Site → Response × Site
  shown none req s = (some (web.unmatched req.verb req.path, nothing), s)
  shown (some r) req s =
      ((show r req.query s.database).0, record s { database = (show r req.query s.database).1 })

  abbrev pub handled : Option Protected.Endpoint → Request → Site → Response × Site
  handled none req s = (some (web.unmatched req.verb req.path, nothing), s)
  handled (some e) req s = (
    respond (λ _. ok_text) (Protected.handle e s.channel).0,
    record s { channel = (Protected.handle e s.channel).1 },
  )

  unfoldable pub service : Request → Site → Response × Site
  service req s = elim req.verb [
    | get ↦ shown (resource req.path) req s
    | post ↦ handled (Protected.route web.number req.path) req s
    | other_verb ↦ (some (web.unmatched req.verb req.path, nothing), s)
  ]
