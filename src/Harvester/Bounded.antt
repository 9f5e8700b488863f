-- ===== src/Harvester/Bounded.antt =====
-- The height that a harvest does not pass.
use btc_idx_service.Harvester.Frame.{IsFrame, accept-Keeps}
use btc_idx_service.Prelude.Run.{
  resume, Holds-state, ok, err, panic, Outcome, Holds, ◌>>◌, Holds-mono,
}
use btc_idx_service.Prelude.{
  some, zero, suc, inl, inr, ◌≡◌, ◌≤◌, ℕ, Bool-cases, leb, ◌+◌, refl, arith, leb→gt,
}
use btc_idx_service.Processor.{Externals, ProcessorError}
use btc_idx_service.Types.{BlockInfo, BlockHash}
use btc_idx_service.Harvester.State.{Harvester, Stop, on_client, H, convert, client}
use btc_idx_service.Client.{C, Node, scan_block}
use btc_idx_service.Client.Heights.{IsSound, scan_block-IsPlaced, IsPlaced}
use btc_idx_service.Harvester.Defs.{
  harvest_blocks, harvest, first_time, get_desired_height, accept, set_last_processed_block,
}

-- The end height is `n`, and the last processed block is `b`.
abbrev IsAt : ℕ → BlockInfo → Harvester → Type 0
IsAt n b h = (h.end_height ≡ some n) × (h.last_processed_block ≡ some b)

-- The end height is `n`, and there is a last processed block, at `n` or below.
abbrev pub IsWithin : ℕ → Harvester → Type 0
IsWithin n h =
    (b : BlockInfo) × (h.end_height ≡ some n)
    × (h.last_processed_block ≡ some b)
    × (b.header.height ≤ n)

-- A step and the rest of a run keep `P`, however they end.
then_keeps :
    {A B : Type 0} (P : Harvester → Type 0) (R : A → Harvester → Type 0)
    (r : Outcome Stop A × Harvester) (f : A → H B)
    → P r.1
    → Holds R r
    → ((a : A) (h : Harvester) → R a h → P (f a h).1)
    → P (resume r f).1
then_keeps P R (ok a, h) f p s k = k a h s
then_keeps P R (err e, h) f p s k = p
then_keeps P R (panic, h) f p s k = p

-- A call of the client changes nothing but the number of requests.
on_client-Holds :
    {A : Type 0} (P : Harvester → Type 0) (R : A → Type 0) (q : C A) (h : Harvester)
    → ((k : ℕ) → P (record h { requests = k }))
    → Holds (λ a _. R a) (q h.requests)
    → Holds (λ a h'. R a × P h') (on_client q h)
on_client-Holds {A = A} P R q h p s = go (q h.requests) s
  where
    go :
        (r : Outcome ProcessorError A × ℕ)
        → Holds (λ a _. R a) r
        → Holds (λ a h'. R a × P h') (convert client r.0, record h { requests = r.1 })
    go (ok a, k) s' = (s', p k)
    go (err e, k) s' = tt
    go (panic, k) s' = tt

module _ (x : Externals) (node : Node) (height_of : BlockHash → ℕ)
    (sound : IsSound node height_of) where
  IsAt-IsFrame : (n : ℕ) (b : BlockInfo) → IsFrame x (IsAt n b)
  IsAt-IsFrame n b = record {
    calls = λ h k s. s;
    looks_up = λ hash. record { at = λ h s. s };
    forks = λ bs. record { at = λ h s. s };
    processes = λ block. record { at = λ h s. s };
  }

  scan_block_height :
      (num k : ℕ)
      → Holds (λ (block : BlockInfo) _. block.header.height ≡ num) (scan_block node (some num) k)
  scan_block_height num k =
      Holds-mono (λ (block : BlockInfo) _. (block.header.height ≡ num) × IsPlaced height_of block)
        (λ (block : BlockInfo) _. block.header.height ≡ num) (scan_block node (some num) k)
        (scan_block-IsPlaced node height_of sound num k) (λ _ _ h. h.0)

  harvest_blocks-IsWithin :
      (fuel n : ℕ) (h : Harvester) → IsWithin n h → IsWithin n (harvest_blocks x node fuel n h).1
  unfolding harvest_blocks
  harvest_blocks-IsWithin zero n h w = w
  harvest_blocks-IsWithin (suc fuel) n h (b, f, e, le) = elim (Bool-cases (leb n b.header.height)) [
    | inl done ↦ rw (e, harvest_blocks, done) (b, f, e, le)
    | inr more ↦
        rw (e, harvest_blocks, more)
          (let block_num = b.header.height + 1 in
            let left = leb→gt n b.header.height more in
            then_keeps (IsWithin n)
              (λ (block : BlockInfo) h₁. (block.header.height ≡ block_num) × IsAt n b h₁)
              (on_client (scan_block node (some block_num)) h)
              (λ block.
                accept x node b block
                >> (set_last_processed_block block >> harvest_blocks x node fuel n))
              (b, f, e, le)
              (on_client-Holds (IsAt n b) (λ (block : BlockInfo). block.header.height ≡ block_num)
                (scan_block node (some block_num)) h (λ k. (f, e))
                (scan_block_height block_num h.requests))
              (λ block h₁ (at, here).
                let stays =
                  (accept-Keeps x node (IsAt n b) (IsAt-IsFrame n b) b block).at h₁ here in
                then_keeps (IsWithin n) (λ _ h₂. IsAt n b h₂) (accept x node b block h₁)
                  (λ _. set_last_processed_block block >> harvest_blocks x node fuel n)
                  (b, stays.0, stays.1, le)
                  (Holds-state (IsAt n b) (accept x node b block h₁) stays)
                  (λ _ h₂ (f₂, e₂).
                    harvest_blocks-IsWithin fuel n (record h₂ { last_processed_block = some block })
                      (block, f₂, refl, omega arith))))
  ]

  first_time-IsWithin :
      (n : ℕ) (h : Harvester) → IsWithin n h → IsWithin n (first_time x node n h).1
  unfolding first_time
  first_time-IsWithin n h (b, f, e, le) = rw (e, first_time) (b, f, e, le)

  -- On a node whose answers belong to what was asked for, a harvester at or below its configured end
  -- height stays there through a harvest, whatever forks it meets and however the harvest ends.
  pub harvest-IsWithin : (n : ℕ) (h : Harvester) → IsWithin n h → IsWithin n (harvest x node h).1
  unfolding harvest get_desired_height
  harvest-IsWithin n h (b, f, e, le) =
      rw (f, get_desired_height)
        (let within = first_time-IsWithin n h (b, f, e, le) in
          then_keeps (IsWithin n) (λ _ h'. IsWithin n h') (first_time x node n h)
            (λ _. harvest_blocks x node (suc n) n) within
            (Holds-state (IsWithin n) (first_time x node n h) within)
            (λ _ h' w. harvest_blocks-IsWithin (suc n) n h' w))
