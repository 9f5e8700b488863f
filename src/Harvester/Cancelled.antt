-- ===== src/Harvester/Cancelled.antt =====
-- A harvest that a command cuts short.
use btc_idx_service.Prelude.{List, Bool}
use btc_idx_service.Processor.{Externals}
use btc_idx_service.Harvester.State.{Harvester}
use btc_idx_service.Client.{Node}
use btc_idx_service.Chain.Keys.{IsConsistent}
use btc_idx_service.Harvester.Defs.{harvest}
use btc_idx_service.Harvester.Consistent.{harvest-Keeps}

abbrev pub with_faults : List Bool → Harvester → Harvester
with_faults fs h = record h { world = record h.world { faults = fs } }

-- When a command arrives, `select!` drops the harvest at the call it waits for. It leaves what it
-- leaves where this call fails, of the database (by `fs`) or of the node (by what `node` answers).
unfoldable pub cancelled : Externals → Node → List Bool → Harvester → Harvester
cancelled x node fs h = with_faults h.world.faults (harvest x node (with_faults fs h)).1

module _ (x : Externals) where
  pub cancelled-IsConsistent :
      (node : Node) (fs : List Bool) (g : Harvester)
      → IsConsistent g.world.chain
      → IsConsistent (cancelled x node fs g).world.chain
  unfolding cancelled
  cancelled-IsConsistent node fs g k = (harvest-Keeps x node).at (with_faults fs g) k
