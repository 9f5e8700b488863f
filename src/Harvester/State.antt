-- ===== src/Harvester/State.antt =====
-- What the harvester works on: its own fields, what the processor works on, and the number of
-- requests made to the node.
use btc_idx_service.Prelude.Run.{ok, err, panic, Run, Outcome}
use btc_idx_service.Prelude.{Option, ℕ}
use btc_idx_service.Sql.{SqlError}
use btc_idx_service.Types.{BlockInfo}
use btc_idx_service.Processor.{ProcessorError, World, sqlx}
use btc_idx_service.Client.{C}

-- `harvester::Error`.
pub data HarvesterError : Type 0 where
  database : SqlError → HarvesterError
  missing_block : ℕ → HarvesterError
  invalid_desired_height : HarvesterError
  client : ProcessorError → HarvesterError
  boxed : ProcessorError → HarvesterError

-- How a run ends that does not return: with an error of the code, or out of fuel.
pub data Stop : Type 0 where
  raised : HarvesterError → Stop
  out_of_fuel : Stop

pub record Harvester : Type 0 where
  pub start_height : Option ℕ
  pub end_height : Option ℕ
  pub last_processed_block : Option BlockInfo
  pub world : World
  pub requests : ℕ

abbrev pub H : Type 0 → Type 0
H A = Run Harvester Stop A

-- `?` and `map_err` on an error of the processor.
abbrev pub convert :
    {A : Type 0} → (ProcessorError → HarvesterError) → Outcome ProcessorError A → Outcome Stop A
convert wrap (ok a) = ok a
convert wrap (err e) = err (raised (wrap e))
convert wrap panic = panic

-- A call of the processor, and one of the client.
abbrev pub on_processor :
    {A : Type 0} → (ProcessorError → HarvesterError) → Run World ProcessorError A → H A
on_processor wrap q h = (convert wrap (q h.world).0, record h { world = (q h.world).1 })

abbrev pub on_client : {A : Type 0} → C A → H A
on_client q h = (convert client (q h.requests).0, record h { requests = (q h.requests).1 })

-- `?` on an error of sqlx.
abbrev pub from_sqlx : ProcessorError → HarvesterError
from_sqlx (sqlx e) = database e
from_sqlx e = boxed e
