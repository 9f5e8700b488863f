-- ===== src/Harvester/Progress.antt =====
-- `harvest` comes to the height it is after.
use btc_idx_service.Prelude.{
  none, some, true, false, zero, suc, inl, inr, ◌≡◌, ◌+◌, ◌≤◌, ◌<◌, ◌==◌, ◌⊎◌, arith, Option, ℕ,
  Bool-cases, leb, Option-cases, last, refl, leb→le, leb→gt,
}
use btc_idx_service.Prelude.Run.{ok, pure, ◌>>◌, Holds-any, err, panic, Outcome, Holds}
use btc_idx_service.Harvester.State.{
  Harvester, H, on_processor, client, boxed, on_client, Stop, from_sqlx,
}
use btc_idx_service.Processor.{Externals, process, process_fork, ProcessorError, exec}
use btc_idx_service.Client.{Node, get_tip_number, scan_block}
use btc_idx_service.Types.{BlockHash, BlockInfo}
use btc_idx_service.Client.Heights.{IsSound, IsPlaced, scan_block-IsPlaced}
use btc_idx_service.Harvester.Defs.{
  accept, harvest_blocks, handle_reorg, get_fork_blocks, get_desired_height, harvest, first_time,
  process_first, start_num,
}
use btc_idx_service.Harvester.Rules.{
  Settles, Settles-resume, Settles-mono, on_processor-Settles, on_client-Settles,
}
use btc_idx_service.Harvester.Fork.{get_fork_blocks-IsFork}
use btc_idx_service.Chain.{get_latest_block_num}

-- The last processed block is at the height `n` or above.
abbrev pub Reached : ℕ → Harvester → Type 0
Reached n h = (b : BlockInfo) × (h.last_processed_block ≡ some b) × (n ≤ b.header.height)

-- The height that a run is after: the configured end, or else the tip of the node.
abbrev pub IsDesired : Node → Harvester → ℕ → Type 0
IsDesired node h n =
    (h.end_height ≡ some n) ⊎ ((h.end_height ≡ none) × ((get_tip_number node h.requests).0 ≡ ok n))

module _ (x : Externals) (node : Node) (height_of : BlockHash → ℕ)
    (sound : IsSound node height_of) where
  handle_reorg-Settles :
      (block : BlockInfo) (h : Harvester)
      → IsPlaced height_of block
      → Settles (λ _ _. Unit {0}) (handle_reorg x node block h)
  unfolding handle_reorg
  handle_reorg-Settles block h placed =
      Settles-resume (λ _ _. Unit {0}) _ (get_fork_blocks x node (suc block.header.height) block h)
        _
        (Settles-mono _ _ _
          (get_fork_blocks-IsFork x node height_of sound (suc block.header.height) block h placed
            (omega arith))
          (λ _ _ _. tt))
        (λ bs h₁ _. elim (Option-cases (last bs)) [
          | inl e ↦ rw e tt
          | inr (b, e) ↦ rw e (
              on_processor-Settles (λ _ _. Unit {0}) _ boxed (process_fork x bs) h₁ (Holds-any _)
                (λ _ _ _. tt))
        ])

  accept-Settles :
      (prev block : BlockInfo) (h : Harvester)
      → IsPlaced height_of block
      → Settles (λ _ _. Unit {0}) (accept x node prev block h)
  unfolding accept
  accept-Settles prev block h placed = go block.header.previous_block_hash
    where
      go :
          (o : Option BlockHash)
          → Settles
              (λ _ _. Unit {0})
              ((elim o as (λ _. H (Unit {0})) [
                | none ↦ pure tt
                | some p ↦ elim (prev.header.hash == p) [
                  | true ↦ on_processor client (process x block)
                  | false ↦ handle_reorg x node block >> pure tt
                ]
              ])
                h)
      go none = tt
      go (some p) = elim (Bool-cases (prev.header.hash == p)) [
        | inl e ↦ rw e (
            on_processor-Settles (λ _ _. Unit {0}) _ client (process x block) h (Holds-any _)
              (λ _ _ _. tt))
        | inr e ↦ rw e (
            Settles-resume (λ _ _. Unit {0}) _ (handle_reorg x node block h) _
              (handle_reorg-Settles block h placed) (λ _ _ _. tt))
      ]

  -- From a last processed block on, one unit of fuel for each height that is left is enough.
  harvest_blocks-Reaches :
      (fuel desired : ℕ) (h : Harvester) (prev : BlockInfo)
      → h.last_processed_block ≡ some prev
      → 0 < fuel
      → desired < fuel + prev.header.height
      → Settles (λ _ h'. Reached desired h') (harvest_blocks x node fuel desired h)
  unfolding harvest_blocks
  harvest_blocks-Reaches zero desired h prev e some_fuel enough = absurd (omega arith)
  harvest_blocks-Reaches (suc fuel) desired h prev e some_fuel enough =
      elim (Bool-cases (leb desired prev.header.height)) [
        | inl done ↦ rw (e, harvest_blocks, done) (prev, e, leb→le desired prev.header.height done)
        | inr more ↦
            rw (e, harvest_blocks, more)
              (let left = leb→gt desired prev.header.height more in
                let block_num = prev.header.height + 1 in
                Settles-resume
                  (λ (block : BlockInfo) _.
                    (block.header.height ≡ block_num) × IsPlaced height_of block)
                  (λ _ h'. Reached desired h') (on_client (scan_block node (some block_num)) h) _
                  (on_client-Settles
                    (λ (block : BlockInfo).
                      (block.header.height ≡ block_num) × IsPlaced height_of block)
                    _ (scan_block node (some block_num)) h
                    (scan_block-IsPlaced node height_of sound block_num h.requests) (λ _ _ k. k))
                  (λ block h₁ (at, placed).
                    Settles-resume (λ _ _. Unit {0}) (λ _ h'. Reached desired h')
                      (accept x node prev block h₁) _ (accept-Settles prev block h₁ placed)
                      (λ _ h₂ _.
                        harvest_blocks-Reaches fuel desired
                          (record h₂ { last_processed_block = some block }) block refl (omega arith)
                          (omega arith))))
      ]

  first_time-Settles :
      (desired : ℕ) (h : Harvester)
      → Settles
          (λ _ h'. (b : BlockInfo) × (h'.last_processed_block ≡ some b))
          (first_time x node desired h)
  unfolding first_time process_first
  first_time-Settles desired h = go h.last_processed_block refl
    where
      Started : Harvester → Type 0
      Started h' = (b : BlockInfo) × (h'.last_processed_block ≡ some b)

      go :
          (o : Option BlockInfo)
          → h.last_processed_block ≡ o
          → Settles
              (λ _ h'. (b : BlockInfo) × (h'.last_processed_block ≡ some b))
              (elim o as (λ _. Outcome Stop (Unit {0}) × Harvester) [
                | none ↦ process_first x node desired h
                | some block ↦ (ok tt, h)
              ])
      go (some block) e = (block, e)
      go none e =
          Settles-resume (λ _ _. Unit {0}) _ (on_processor from_sqlx (exec get_latest_block_num) h)
            _
            (on_processor-Settles (λ _ _. Unit {0}) _ from_sqlx (exec get_latest_block_num) h
              (Holds-any _) (λ _ _ _. tt))
            (λ latest h₁ _.
              let n = start_num latest h₁.start_height desired in
              Settles-resume (λ _ _. Unit {0}) _ (on_client (scan_block node (some n)) h₁) _
                (on_client-Settles (λ _. Unit {0}) _ (scan_block node (some n)) h₁ (Holds-any _)
                  (λ _ _ _. tt))
                (λ block h₂ _.
                  on_processor-Settles (λ _ _. Unit {0}) _ client (process x block)
                    (record h₂ { last_processed_block = some block }) (Holds-any _)
                    (λ _ _ _. (block, refl))))

  get_desired_height-Settles :
      (h : Harvester) → Settles (λ n _. IsDesired node h n) (get_desired_height node h)
  unfolding get_desired_height
  get_desired_height-Settles h = go h.end_height refl
    where
      answered : (r : Outcome ProcessorError ℕ × ℕ) → Holds (λ n _. r.0 ≡ ok n) r
      answered (ok n, k) = refl
      answered (err e, k) = tt
      answered (panic, k) = tt

      go :
          (o : Option ℕ)
          → h.end_height ≡ o
          → Settles
              (λ n _. IsDesired node h n)
              (elim o as (λ _. Outcome Stop ℕ × Harvester) [
                | some n ↦ (ok n, h)
                | none ↦ on_client (get_tip_number node) h
              ])
      go (some n) e = inl e
      go none e =
          on_client-Settles (λ n. (get_tip_number node h.requests).0 ≡ ok n) _ (get_tip_number node)
            h (answered (get_tip_number node h.requests)) (λ n k at. inr (e, at))

  -- On a node whose answers belong to what was asked for, a harvest does not run out of fuel, whatever
  -- forks it meets and whatever calls fail; if it returns, the last processed block is at or above
  -- the configured end height, or, where there is none, the tip the node has answered.
  pub harvest-Reaches :
      (h : Harvester)
      → Settles (λ _ h'. (n : ℕ) × IsDesired node h n × Reached n h') (harvest x node h)
  unfolding harvest
  harvest-Reaches h =
      Settles-resume (λ n _. IsDesired node h n) _ (get_desired_height node h) _
        (get_desired_height-Settles h)
        (λ n h₁ desired.
          Settles-resume (λ _ h'. (b : BlockInfo) × (h'.last_processed_block ≡ some b)) _
            (first_time x node n h₁) _ (first_time-Settles n h₁)
            (λ _ h₂ (b, e).
              Settles-mono (λ _ h'. Reached n h')
                (λ _ h'. (n : ℕ) × IsDesired node h n × Reached n h') _
                (harvest_blocks-Reaches (suc n) n h₂ b e (omega arith) (omega arith))
                (λ _ h₃ r. (n, desired, r))))
