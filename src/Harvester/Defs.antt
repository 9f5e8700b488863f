-- ===== src/Harvester/Defs.antt =====
-- The methods of `Harvester`.
use btc_idx_service.Prelude.{
  none, some, [], true, false, zero, suc, ◌∷◌, ◌+◌, ◌==◌, List, Option, ℕ, if◌then◌else◌, unwrap_or,
  leb, ltb, last,
}
use btc_idx_service.Prelude.Run.{ok, err, panic, ◌>>=◌, ◌>>◌, Outcome, pure, raise}
use btc_idx_service.Types.{BlockInfo, P2trEvent}
use btc_idx_service.Harvester.State.{
  H, on_processor, on_client, out_of_fuel, Stop, from_sqlx, client, Harvester, boxed, raised,
  missing_block, invalid_desired_height, missing_block, client, raised,
}
use btc_idx_service.Processor.{Externals, exec, process, is_processed, process_fork}
use btc_idx_service.Client.{Node, get_tip_number, scan_block, scan_block_by_hash}
use btc_idx_service.Chain.{get_latest_block_num}

abbrev pub max : ℕ → ℕ → ℕ
max a b = if leb a b then b else a

-- Where a first run starts, by the highest block in the database and the configuration.
unfoldable pub start_num : Option ℕ → Option ℕ → ℕ → ℕ
start_num (some num) start_height desired = max (num + 1) (unwrap_or start_height desired)
start_num none start_height desired = unwrap_or start_height desired

abbrev pub set_last_processed_block : BlockInfo → H (Unit {0})
set_last_processed_block block h = (ok tt, record h { last_processed_block = some block })

-- A height below `from`, after a gap, becomes the start height.
abbrev pub note_gap : ℕ → H (Unit {0})
note_gap from h = elim h.last_processed_block [
  | none ↦ (ok tt, h)
  | some last_block ↦
      if ltb last_block.header.height from
      then (ok tt, record h { start_height = some from })
      else (ok tt, h)
]

-- `Command`.
pub data Command : Type 0 where
  terminate pause auto_scan : Command
  scan_blocks : ℕ → ℕ → Command

-- One round of `select!`: what the command channel gives (`none` once it is closed), or, with no
-- command, the end of the sleep.
pub data Turn : Type 0 where
  received : Option Command → Turn
  elapsed : Turn

-- The errors that `start` retries.
unfoldable pub retry : Outcome Stop (Unit {0}) × Harvester → Outcome Stop (Unit {0}) × Harvester
retry (err (raised invalid_desired_height), h) = (ok tt, h)
retry (err (raised (missing_block n)), h) = (ok tt, h)
retry (err (raised (client e)), h) = (ok tt, h)
retry (r, h) = (r, h)

abbrev pub set_end_height : Option ℕ → H (Unit {0})
set_end_height n h = (ok tt, record h { end_height = n })

abbrev pub height_of_last : Option BlockInfo → Option ℕ
height_of_last none = none
height_of_last (some block) = some block.header.height

module _ (node : Node) where
  unfoldable pub get_desired_height : H ℕ
  get_desired_height h = elim h.end_height [
    | some n ↦ (ok n, h)
    | none ↦ on_client (get_tip_number node) h
  ]

  unfoldable pub scan_from : ℕ → H (Unit {0})
  scan_from from = do
    note_gap from
    start_block ← on_client (scan_block node (some from))
    set_last_processed_block start_block

module _ (x : Externals) (node : Node) where
  -- The blocks from `block` back to the first that the database has, the newest first.
  unfoldable pub get_fork_blocks : ℕ → BlockInfo → H (List BlockInfo)
  get_fork_blocks zero block = raise out_of_fuel
  get_fork_blocks (suc fuel) block = elim (block.header.height == 0) [
    | true ↦ pure []
    | false ↦ do
      processed ← on_processor boxed (is_processed block.header.hash)
      elim processed [
        | true ↦ pure []
        | false ↦ elim block.header.previous_block_hash [
          | none ↦ pure (block ∷ [])
          | some parent_hash ↦ do
            parent ← on_client (scan_block_by_hash node parent_hash)
            rest ← get_fork_blocks fuel parent
            pure (block ∷ rest)
        ]
      ]
  ]

  -- `last().expect(…)` panics on an empty list.
  unfoldable pub handle_reorg : BlockInfo → H (List P2trEvent)
  handle_reorg head_block = do
    fork_blocks_reversed ← get_fork_blocks (suc head_block.header.height) head_block
    elim (last fork_blocks_reversed) [
      | none ↦ λ h. (panic, h)
      | some origin ↦ on_processor boxed (process_fork x fork_blocks_reversed)
    ]

  -- The successor of `prev_block`: on top of it, on a fork, or with no parent.
  unfoldable pub accept : BlockInfo → BlockInfo → H (Unit {0})
  accept prev_block block = elim block.header.previous_block_hash [
    | none ↦ pure tt
    | some prev ↦ elim (prev_block.header.hash == prev) [
      | true ↦ on_processor client (process x block)
      | false ↦ handle_reorg block >> pure tt
    ]
  ]

  unfoldable pub harvest_blocks : ℕ → ℕ → H (Unit {0})
  harvest_blocks zero desired_height h = (err out_of_fuel, h)
  harvest_blocks (suc fuel) desired_height h = elim h.last_processed_block [
    | none ↦ (ok tt, h)
    | some prev_block ↦ elim (leb desired_height prev_block.header.height) [
      | true ↦ (ok tt, h)
      | false ↦
          (do
            block ← on_client (scan_block node (some (prev_block.header.height + 1)))
            accept prev_block block
            set_last_processed_block block
            harvest_blocks fuel desired_height)
            h
    ]
  ]

  -- The block is the last processed one before it is processed.
  unfoldable pub process_first : ℕ → H (Unit {0})
  process_first desired_height = do
    latest ← on_processor from_sqlx (exec get_latest_block_num)
    start_block ←
        λ h. on_client (scan_block node (some (start_num latest h.start_height desired_height))) h
    set_last_processed_block start_block
    on_processor client (process x start_block)

  unfoldable pub first_time : ℕ → H (Unit {0})
  first_time desired_height h = elim h.last_processed_block [
    | none ↦ process_first desired_height h
    | some block ↦ (ok tt, h)
  ]

  unfoldable pub harvest : H (Unit {0})
  harvest = do
    desired_height ← get_desired_height node
    first_time desired_height
    harvest_blocks (suc desired_height) desired_height

  -- The loop of `start` on the rounds to come: it goes on until a command ends it or an error.
  unfoldable pub start : List Turn → H (Unit {0})
  start [] = pure tt
  start (received none ∷ turns) = pure tt
  start (received (some terminate) ∷ turns) = pure tt
  start (received (some (scan_blocks from to)) ∷ turns) = do
    scan_from node from
    set_end_height (some to)
    start turns
  start (received (some pause) ∷ turns) = do
    λ h. set_end_height (height_of_last h.last_processed_block) h
    start turns
  start (received (some auto_scan) ∷ turns) = do set_end_height none; start turns
  start (elapsed ∷ turns) = do (λ h. retry (harvest h)); start turns
