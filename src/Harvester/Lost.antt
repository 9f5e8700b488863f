-- ===== src/Harvester/Lost.antt =====
-- The first block of a harvester whose connection is lost once.
use btc_idx_service.Prelude.{
  none, some, [], true, false, zero, suc, ◌∷◌, ◌≡◌, ◌+◌, refl, ℕ, le→leb, arith, ◌∙◌, ap, leb,
}
use btc_idx_service.Prelude.Run.{ok, err}
use btc_idx_service.Processor.{Externals, process, sqlx}
use btc_idx_service.Types.{BlockInfo}
use btc_idx_service.Sql.{io}
use btc_idx_service.Chain.{Chain, get_latest_block_num}
use btc_idx_service.Client.{Node, scan_block, get_tip_number}
use btc_idx_service.Harvester.Defs.{
  harvest, get_desired_height, first_time, process_first, harvest_blocks, start_num, start, retry,
}
use btc_idx_service.Harvester.State.{Harvester, raised, client}
use btc_idx_service.Harvester.Paused.{idle}

-- A harvester as a start of the service makes it, to begin at block `n` on the tables `c`. Of its
-- calls to the database the second fails, with which the transaction of the first block begins.
abbrev pub fresh : ℕ → Chain → Harvester
fresh n c = record {
  start_height = some n;
  end_height = none;
  last_processed_block = none;
  world = record { chain = c; sent = []; receiving = true; faults = false ∷ true ∷ [] };
  requests = 0;
}

-- The harvester after `block` with the tables as they were, and `k` requests.
abbrev pub past : ℕ → Chain → BlockInfo → ℕ → Harvester
past n c block k = record (fresh n c) {
  last_processed_block = some block;
  world = record { chain = c; sent = []; receiving = true; faults = [] };
  requests = k;
}

zero_plus : (k : ℕ) → k ≡ 0 + k
zero_plus k = omega arith

plus_suc : (r k : ℕ) → r + suc k ≡ suc r + k
plus_suc r k = omega arith

module _ (x : Externals) (node : Node) (n : ℕ) (c : Chain) (block : BlockInfo)
    (tip : (k : ℕ) → get_tip_number node k ≡ (ok n, suc k))
    (at_tip : (k : ℕ) → scan_block node (some n) k ≡ (ok block, suc (suc (suc k))))
    (height : block.header.height ≡ n) where
  harvest_fails :
      c.blocks ≡ []
      → harvest x node (fresh n c) ≡ (err (raised (client (sqlx io))), past n c block 4)
  unfolding harvest get_desired_height first_time process_first process get_latest_block_num
      start_num
  harvest_fails new = rw (tip 0, new, at_tip 1) refl

  is_at_tip : leb n block.header.height ≡ true
  is_at_tip = le→leb n block.header.height (omega (arith, height))

  harvest-past : (k : ℕ) → harvest x node (past n c block k) ≡ (ok tt, past n c block (suc k))
  unfolding harvest get_desired_height first_time harvest_blocks
  harvest-past k = rw (tip k, harvest_blocks, is_at_tip) refl

  idle-past :
      (rounds k : ℕ)
      → start x node (idle rounds) (past n c block k) ≡ (ok tt, past n c block (rounds + k))
  unfolding start retry
  idle-past zero k = ap (λ j. (ok tt, past n c block j)) (zero_plus k)
  idle-past (suc rounds) k =
      rw (harvest-past k)
        (idle-past rounds (suc k) ∙ ap (λ j. (ok tt, past n c block j)) (plus_suc rounds k))

  -- A start of the service on tables without blocks is configured to begin at the tip of the chain, and
  -- the connection is lost once, when the transaction of this first block begins. Then, however many
  -- rounds follow in which the database and the node answer and the tip stays: the main loop goes on
  -- without an error, takes the block for processed, and never writes it nor sends anything.
  pub first_block_is_lost :
      (rounds : ℕ)
      → c.blocks ≡ []
      → start x node (idle (suc rounds)) (fresh n c) ≡ (ok tt, past n c block (rounds + 4))
  unfolding start retry
  first_block_is_lost rounds new = rw (harvest_fails new) (idle-past rounds 4)
