-- ===== src/Harvester/Consistent.antt =====
-- The constraints of the tables hold throughout the work of the harvester.
use btc_idx_service.Processor.Consistent.{
  HasKeys, process-HasKeys, process_fork-HasKeys, exec-HasKeys, reads-IsConsistent,
}
use btc_idx_service.Prelude.{
  none, some, [], zero, suc, ◌∷◌, refl, arith, List, Option, ℕ, inl, inr, ◌+◌, Bool-cases,
  Option-cases, leb,
}
use btc_idx_service.Prelude.Run.{ok, err, panic, Outcome, Run}
use btc_idx_service.Harvester.State.{
  invalid_desired_height, out_of_fuel, missing_block, Harvester, HarvesterError, on_client, Stop,
  raised, on_processor, database, boxed, client, missing_block, from_sqlx,
}
use btc_idx_service.Harvester.Defs.{
  terminate, pause, auto_scan, elapsed, retry, set_last_processed_block, note_gap,
  get_desired_height, scan_from, set_end_height, start, Turn, process_first, accept, first_time,
  harvest_blocks, harvest, received, scan_blocks, height_of_last, start_num,
}
use btc_idx_service.Prelude.Keeps.{Keeps, Keeps-bind, Keeps-pure}
use btc_idx_service.Harvester.Frame.{IsFrame, accept-Keeps}
use btc_idx_service.Processor.{ProcessorError, Externals, is_processed, World, exec}
use btc_idx_service.Client.{Node, C, scan_block}
use btc_idx_service.Types.{BlockInfo}
use btc_idx_service.Chain.{has_block, get_latest_block_num}
use btc_idx_service.Chain.Keys.{IsConsistent}

abbrev HarvestsKeys : Harvester → Type 0
HarvestsKeys h = HasKeys h.world

on_processor-Keeps :
    {A : Type 0} (wrap : ProcessorError → HarvesterError) (q : Run World ProcessorError A)
    → Keeps HasKeys q
    → Keeps HarvestsKeys (on_processor wrap q)
on_processor-Keeps wrap q k = record { at = λ h s. k.at h.world s }

on_client-Keeps : {A : Type 0} (q : C A) → Keeps HarvestsKeys (on_client q)
on_client-Keeps q = record { at = λ h s. s }

set_last_processed_block-Keeps :
    (block : BlockInfo) → Keeps HarvestsKeys (set_last_processed_block block)
set_last_processed_block-Keeps block = record { at = λ h s. s }

set_end_height-Keeps : (n : Option ℕ) → Keeps HarvestsKeys (set_end_height n)
set_end_height-Keeps n = record { at = λ h s. s }

retry-HarvestsKeys :
    (r : Outcome Stop (Unit {0}) × Harvester) → HarvestsKeys r.1 → HarvestsKeys (retry r).1
unfolding retry
retry-HarvestsKeys (ok a, h) k = k
retry-HarvestsKeys (err (raised (database e)), h) k = k
retry-HarvestsKeys (err (raised (boxed e)), h) k = k
retry-HarvestsKeys (err (raised (client e)), h) k = k
retry-HarvestsKeys (err (raised (missing_block n)), h) k = k
retry-HarvestsKeys (err (raised invalid_desired_height), h) k = k
retry-HarvestsKeys (err out_of_fuel, h) k = k
retry-HarvestsKeys (panic, h) k = k

note_gap-Keeps : (from : ℕ) → Keeps HarvestsKeys (note_gap from)
note_gap-Keeps from = record { at = λ h k. ground arith }

module _ (node : Node) where
  scan_from-Keeps : (from : ℕ) → Keeps HarvestsKeys (scan_from node from)
  unfolding scan_from
  scan_from-Keeps from = Keeps-bind (note_gap from) _ (note_gap-Keeps from) (λ _.
      Keeps-bind (on_client (scan_block node (some from))) _ (on_client-Keeps _)
        (λ block. set_last_processed_block-Keeps block))

  get_desired_height-Keeps : Keeps HarvestsKeys (get_desired_height node)
  unfolding get_desired_height
  get_desired_height-Keeps = record { at = λ h k. ground arith }

module _ (x : Externals) (node : Node) where
  HarvestsKeys-IsFrame : IsFrame x HarvestsKeys
  unfolding is_processed has_block
  HarvestsKeys-IsFrame = record {
    calls = λ h k s. s;
    looks_up = λ hash.
        on_processor-Keeps boxed _
          (exec-HasKeys _ (reads-IsConsistent (has_block hash) (λ c. refl)));
    forks = λ bs. on_processor-Keeps boxed _ (process_fork-HasKeys x bs);
    processes = λ block. on_processor-Keeps client _ (process-HasKeys x block);
  }

  harvest_blocks-Keeps :
      (fuel desired : ℕ) → Keeps HarvestsKeys (harvest_blocks x node fuel desired)
  unfolding harvest_blocks
  harvest_blocks-Keeps zero desired = record { at = λ h k. k }
  harvest_blocks-Keeps (suc fuel) desired = record {
    at = λ h k. elim (Option-cases h.last_processed_block) [
      | inl e ↦ rw (e, harvest_blocks) k
      | inr (prev, e) ↦ elim (Bool-cases (leb desired prev.header.height)) [
        | inl done ↦ rw (e, harvest_blocks, done) k
        | inr more ↦
            rw (e, harvest_blocks, more)
              ((Keeps-bind (on_client (scan_block node (some (prev.header.height + 1)))) _
                  (on_client-Keeps _)
                  (λ block.
                    Keeps-bind (accept x node prev block) _
                      (accept-Keeps x node HarvestsKeys HarvestsKeys-IsFrame prev block)
                      (λ _.
                        Keeps-bind (set_last_processed_block block) _
                          (set_last_processed_block-Keeps block)
                          (λ _. harvest_blocks-Keeps fuel desired)))).at
                _ k)
      ]
    ];
  }

  process_first-Keeps : (desired : ℕ) → Keeps HarvestsKeys (process_first x node desired)
  unfolding process_first get_latest_block_num
  process_first-Keeps desired =
      Keeps-bind (on_processor from_sqlx (exec get_latest_block_num)) _
        (on_processor-Keeps from_sqlx _
          (exec-HasKeys _ (reads-IsConsistent get_latest_block_num (λ c. refl))))
        (λ latest.
          Keeps-bind
            (λ h. on_client (scan_block node (some (start_num latest h.start_height desired))) h) _
            (record { at = λ h k. k })
            (λ block.
              Keeps-bind (set_last_processed_block block) _ (set_last_processed_block-Keeps block)
                (λ _. on_processor-Keeps client _ (process-HasKeys x block))))

  first_time-Keeps : (desired : ℕ) → Keeps HarvestsKeys (first_time x node desired)
  unfolding first_time
  first_time-Keeps desired = record {
    at = λ h k. elim (Option-cases h.last_processed_block) [
      | inl e ↦ rw (e, first_time) ((process_first-Keeps desired).at _ k)
      | inr (b, e) ↦ rw (e, first_time) k
    ];
  }

  pub harvest-Keeps : Keeps HarvestsKeys (harvest x node)
  unfolding harvest
  harvest-Keeps = Keeps-bind (get_desired_height node) _ (get_desired_height-Keeps node) (λ desired.
      Keeps-bind (first_time x node desired) _ (first_time-Keeps desired)
        (λ _. harvest_blocks-Keeps (suc desired) desired))

  start-Keeps : (turns : List Turn) → Keeps HarvestsKeys (start x node turns)
  unfolding start
  start-Keeps [] = Keeps-pure _
  start-Keeps (received none ∷ turns) = Keeps-pure _
  start-Keeps (received (some terminate) ∷ turns) = Keeps-pure _
  start-Keeps (received (some (scan_blocks from to)) ∷ turns) =
      Keeps-bind (scan_from node from) _ (scan_from-Keeps node from) (λ _.
        Keeps-bind (set_end_height (some to)) _ (set_end_height-Keeps (some to))
          (λ _. start-Keeps turns))
  start-Keeps (received (some pause) ∷ turns) =
      Keeps-bind (λ h. set_end_height (height_of_last h.last_processed_block) h) _
        (record { at = λ h k. k }) (λ _. start-Keeps turns)
  start-Keeps (received (some auto_scan) ∷ turns) =
      Keeps-bind (set_end_height none) _ (set_end_height-Keeps none) (λ _. start-Keeps turns)
  start-Keeps (elapsed ∷ turns) =
      Keeps-bind (λ h. retry (harvest x node h)) _
        (record { at = λ h k. retry-HarvestsKeys (harvest x node h) (harvest-Keeps.at h k) })
        (λ _. start-Keeps turns)

  -- Whatever commands, forks and faults the main loop meets, and however it ends, the chain tables
  -- stay consistent: hashes, block numbers, transaction ids and out points are unique, each
  -- transaction belongs to a stored block and each utxo to a stored transaction.
  pub start-IsConsistent :
      (turns : List Turn) (h : Harvester)
      → IsConsistent h.world.chain
      → IsConsistent (start x node turns h).1.world.chain
  start-IsConsistent turns h k = (start-Keeps turns).at h k
