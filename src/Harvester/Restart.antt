-- ===== src/Harvester/Restart.antt =====
-- Where the harvester takes up its work after a scan command.
use btc_idx_service.Prelude.{some, true, ◌≡◌, arith, ℕ, leb, [], ◌∷◌, ◌≤◌, refl, le→leb}
use btc_idx_service.Prelude.Run.{ok}
use btc_idx_service.Processor.{Externals}
use btc_idx_service.Client.{Node, scan_block}
use btc_idx_service.Harvester.Defs.{
  harvest, get_desired_height, first_time, harvest_blocks, start, scan_from, received, note_gap,
  scan_blocks, elapsed, retry,
}
use btc_idx_service.Harvester.State.{Harvester, on_client}
use btc_idx_service.Types.{BlockInfo, BlockHash}
use btc_idx_service.Client.Heights.{IsSound, IsPlaced, scan_block-IsPlaced}
use btc_idx_service.Harvester.Rules.{Settles, Settles-resume, on_client-Settles}

module _ (x : Externals) (node : Node) where
  harvest_idle :
      (h : Harvester) (n : ℕ) (block : BlockInfo)
      → h.end_height ≡ some n
      → h.last_processed_block ≡ some block
      → leb n block.header.height ≡ true
      → harvest x node h ≡ (ok tt, h)
  unfolding harvest get_desired_height first_time harvest_blocks
  harvest_idle h n block end at done = ground arith

module _ (x : Externals) (node : Node) (height_of : BlockHash → ℕ)
    (sound : IsSound node height_of) where
  scan_from_lem :
      (from : ℕ) (h : Harvester)
      → Settles
          (λ _ h'.
            (block : BlockInfo) × (h'.last_processed_block ≡ some block)
            × (block.header.height ≡ from)
            × (h'.world ≡ h.world))
          (scan_from node from h)
  unfolding scan_from
  scan_from_lem from h =
      Settles-resume (λ _ h'. h'.world ≡ h.world) _ (note_gap from h) _ noted
        (λ _ h₁ same.
          Settles-resume
            (λ (block : BlockInfo) h'. (block.header.height ≡ from) × (h'.world ≡ h.world)) _
            (on_client (scan_block node (some from)) h₁) _
            (on_client-Settles
              (λ (block : BlockInfo). (block.header.height ≡ from) × IsPlaced height_of block) _
              (scan_block node (some from)) h₁
              (scan_block-IsPlaced node height_of sound from h₁.requests) (λ _ _ k. (k.0, same)))
            (λ block h₂ k. (block, refl, k.0, k.1)))
    where
      noted : Settles (λ _ h'. h'.world ≡ h.world) (note_gap from h)
      noted = ground arith

  -- After a command to scan up to a height that is not above the first, and then a harvest, the
  -- database and the channel are as before, if no call to the node fails: the first block of a scan
  -- is fetched, and not processed.
  pub start_scans_nothing :
      (from to : ℕ) (h : Harvester)
      → to ≤ from
      → Settles
          (λ _ h'. h'.world ≡ h.world)
          (start x node (received (some (scan_blocks from to)) ∷ elapsed ∷ []) h)
  unfolding start retry
  start_scans_nothing from to h below =
      Settles-resume
        (λ _ h'.
          (block : BlockInfo) × (h'.last_processed_block ≡ some block)
          × (block.header.height ≡ from)
          × (h'.world ≡ h.world))
        (λ _ h'. h'.world ≡ h.world) (scan_from node from h) _ (scan_from_lem from h)
        (λ _ h₁ (block, at, height, same).
          rw
            (harvest_idle x node (record h₁ { end_height = some to }) to block refl at
              (rw height (le→leb to from below)))
            same)
