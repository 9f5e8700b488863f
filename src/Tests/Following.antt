-- ===== src/Tests/Following.antt =====
-- The harvester on a node that follows another chain than the last processed block.
use btc_idx_service.Tests.Fixtures.{block, world, externals}
use btc_idx_service.Prelude.{
  none, some, zero, suc, inr, ◌≡◌, ◌⊎◌, arith, Option, ℕ, [], inl, ◌∷◌, ◌∙◌, refl, sym, ap,
}
use btc_idx_service.Prelude.Int.{pos}
use btc_idx_service.Client.{
  RpcClientError, Node, RpcResponse, scan_block, reqwest, get_block_hash, scan_block_by_hash,
  get_block_header, get_block, into_result,
}
use btc_idx_service.Types.{BlockHash, BlockHeader, BlockInfo}
use btc_idx_service.Client.Heights.{IsSound, IsPlaced}
use btc_idx_service.Prelude.Run.{ok}
use btc_idx_service.Harvester.Rules.{Settles}
use btc_idx_service.Harvester.{
  Harvester, start, harvest, get_fork_blocks, received, elapsed, scan_blocks, pause, auto_scan,
}
use btc_idx_service.Harvester.Progress.{IsDesired, Reached, harvest-Reaches}
use btc_idx_service.Harvester.Fork.{IsFork, OnlyReads, get_fork_blocks-IsFork}
use btc_idx_service.Harvester.Restart.{start_scans_nothing}
use btc_idx_service.Harvester.Lost.{fresh, past, first_block_is_lost}
use btc_idx_service.Client.{get_tip_number, get_block_count}
use btc_idx_service.Chain.{Chain}
use btc_idx_service.Harvester.Paused.{idle, early_pause_resumes, pause_holds}
use btc_idx_service.Harvester.Bounded.{IsWithin, harvest-IsWithin}

-- The hash of a block of this node is its height.
abbrev pub height_of : BlockHash → ℕ
height_of n = n

abbrev pub parent_of : BlockHash → Option BlockHash
parent_of zero = none
parent_of (suc n) = some n

abbrev pub header_of : BlockHash → BlockHeader
header_of h = record {
  hash = h;
  height = h;
  previous_block_hash = parent_of h;
  time = 1000;
  nonce = 0;
  version = pos 2;
  difficulty = none;
}

abbrev answered : {A : Type 0} → A → RpcClientError ⊎ RpcResponse A
answered a = inr (record { result = some a; error = none })

abbrev pub node : Node
node = record {
  getblockcount = λ k. answered 6;
  getblockhash = λ k n. answered n;
  getblockheader = λ k h. answered (header_of h);
  getblock = λ k h. answered 0;
  deserialize_hex = λ hex. some block.txdata;
}

pub below : (h p : ℕ) → parent_of h ≡ some p → suc p ≡ h
below zero p e = ground arith
below (suc n) p e = ground arith

header_lem :
    (hash : BlockHash) (r : RpcResponse BlockHeader) (header : BlockHeader)
    → answered (header_of hash) ≡ inr r
    → r.result ≡ some header
    → header ≡ header_of hash
header_lem hash r header e f = ground arith

node-IsSound : IsSound node height_of
node-IsSound = record {
  hash_at = λ k n r hash e f. ground arith;
  header_at = λ k hash r header e f. ground arith;
  parent_at = λ k hash parent r header e f g.
      let same = header_lem hash r header e f in
      below hash parent (sym (ap (λ (hd : BlockHeader). hd.previous_block_hash) same) ∙ g)
      ∙ sym (ap (λ (hd : BlockHeader). hd.height) same);
}

-- The last processed block, at height 5, is none of the node's.
abbrev pub harvester : Harvester
harvester = record {
  start_height = none;
  end_height = some 6;
  last_processed_block = some block;
  world = world;
  requests = 0;
}

abbrev head : BlockInfo
head = record { header = header_of 6; txdata = block.txdata }

head-IsPlaced : IsPlaced height_of head
head-IsPlaced = record { height = refl; parent = λ p e. below 6 p e }

get_fork_blocks-IsFork_example :
    Settles
      (λ bs h'. IsFork harvester.world.chain head bs × OnlyReads harvester h')
      (get_fork_blocks externals node 7 head harvester)
get_fork_blocks-IsFork_example =
    get_fork_blocks-IsFork externals node height_of node-IsSound 7 head harvester head-IsPlaced
      (omega arith)

harvest-Reaches_example :
    Settles
      (λ _ h'. (n : ℕ) × IsDesired node harvester n × Reached n h')
      (harvest externals node harvester)
harvest-Reaches_example = harvest-Reaches externals node height_of node-IsSound harvester

start_scans_nothing_example :
    Settles
      (λ _ h'. h'.world ≡ world)
      (start externals node (received (some (scan_blocks 6 6)) ∷ elapsed ∷ []) harvester)
start_scans_nothing_example =
    start_scans_nothing externals node height_of node-IsSound 6 6 harvester (omega arith)

-- A node that answers nothing.
abbrev pub silent : Node
silent = record node { getblockhash = λ k n. inl reqwest }

abbrev no_rows : Chain
no_rows = record { blocks = []; transactions = []; utxos = [] }

first_block_is_lost_example :
    start externals node (idle 4) (fresh 6 no_rows) ≡ (ok tt, past 6 no_rows head 7)
unfolding get_tip_number get_block_count scan_block scan_block_by_hash get_block_hash
    get_block_header get_block into_result
first_block_is_lost_example =
    first_block_is_lost externals node 6 no_rows head (λ k. refl) (λ k. refl) refl 3 refl

harvest-IsWithin_example : IsWithin 6 (harvest externals node harvester).1
harvest-IsWithin_example =
    harvest-IsWithin externals node height_of node-IsSound 6 harvester
      (block, refl, refl, omega arith)

abbrev paused : Harvester
paused = record harvester { end_height = some 5 }

pause_holds_example :
    start externals node (received (some pause) ∷ idle 3) harvester ≡ (ok tt, paused)
pause_holds_example = pause_holds externals node 3 harvester block refl

-- Before its first block.
abbrev untouched : Harvester
untouched = record harvester { last_processed_block = none }

early_pause_resumes_example :
    start externals node (received (some pause) ∷ elapsed ∷ []) untouched
    ≡ start externals node (received (some auto_scan) ∷ elapsed ∷ []) untouched
early_pause_resumes_example = early_pause_resumes externals node (elapsed ∷ []) untouched refl
