-- ===== src/Harvester/Paused.antt =====
-- What the command to pause comes to.
use btc_idx_service.Prelude.{none, some, [], zero, suc, ◌∷◌, ◌≡◌, refl, arith, List, ℕ, le→leb}
use btc_idx_service.Prelude.Run.{ok}
use btc_idx_service.Harvester.Defs.{
  Turn, elapsed, harvest, start, get_desired_height, retry, received, first_time, pause,
  harvest_blocks, auto_scan,
}
use btc_idx_service.Processor.{Externals}
use btc_idx_service.Client.{Node}
use btc_idx_service.Harvester.State.{Harvester}
use btc_idx_service.Types.{BlockInfo}

-- Rounds without a command.
abbrev pub idle : ℕ → List Turn
idle zero = []
idle (suc n) = elapsed ∷ idle n

abbrev at_end : Harvester → BlockInfo → Harvester
at_end h b = record h { last_processed_block = some b; end_height = some b.header.height }

module _ (x : Externals) (node : Node) where
  -- At its end height a harvest does nothing.
  harvest-at_end :
      (h : Harvester) (b : BlockInfo) → harvest x node (at_end h b) ≡ (ok tt, at_end h b)
  unfolding harvest get_desired_height first_time harvest_blocks
  harvest-at_end h b =
      rw (harvest_blocks, le→leb b.header.height b.header.height (omega arith)) refl

  idle-at_end :
      (n : ℕ) (h : Harvester) (b : BlockInfo)
      → start x node (idle n) (at_end h b) ≡ (ok tt, at_end h b)
  unfolding start retry
  idle-at_end zero h b = refl
  idle-at_end (suc n) h b = rw (harvest-at_end h b) (idle-at_end n h b)

  -- Once a block has been processed, a pause holds: however many rounds go by without a command, the
  -- harvester asks the node for nothing, processes nothing, and sends nothing.
  pub pause_holds :
      (n : ℕ) (h : Harvester) (b : BlockInfo)
      → h.last_processed_block ≡ some b
      → start x node (received (some pause) ∷ idle n) h
        ≡ (ok tt, record h { end_height = some b.header.height })
  unfolding start
  pause_holds n h b e = rw e (idle-at_end n h b)

  -- Before the first block has been processed, a pause is none: the command does what the command to
  -- resume does, whatever follows.
  pub early_pause_resumes :
      (turns : List Turn) (h : Harvester)
      → h.last_processed_block ≡ none
      → start x node (received (some pause) ∷ turns) h
        ≡ start x node (received (some auto_scan) ∷ turns) h
  unfolding start
  early_pause_resumes turns h e = rw e refl
