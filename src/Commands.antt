-- ===== src/Commands.antt =====
-- core/src/lib.rs: `CommandHandler`, the sending end of the command channel.
use btc_idx_service.Harvester.{Command}
use btc_idx_service.Harvester
use btc_idx_service.Prelude.{[], ◌∷◌, ◌++◌, List, Bool, ℕ, if◌then◌else◌}
use btc_idx_service.Prelude.Run.{ok, err, Run}

-- The commands under way, and whether the harvester still holds the receiving end. A sender waits
-- while the channel is full, and then does what is said here.
pub record Channel : Type 0 where
  pub queue : List Command
  pub receiving : Bool

-- `anyhow::Error`, of a `SendError`.
pub data SendFailure : Type 0 where
  closed : SendFailure

abbrev pub S : Type 0 → Type 0
S A = Run Channel SendFailure A

abbrev pub send_command : Command → S (Unit {0})
send_command command ch =
    if ch.receiving
    then (ok tt, record ch { queue = ch.queue ++ command ∷ [] })
    else (err closed, ch)

abbrev pub terminate : S (Unit {0})
terminate = send_command Harvester.terminate

abbrev pub pause : S (Unit {0})
pause = send_command Harvester.pause

abbrev pub scan_block : ℕ → ℕ → S (Unit {0})
scan_block from to = send_command (Harvester.scan_blocks from to)

abbrev pub auto_scan : S (Unit {0})
auto_scan = send_command Harvester.auto_scan
