-- ===== src/Client.antt =====
-- core/src/rpc_client.rs and core/src/bitcoin/harvester/client.rs: blocks from the node.
pub mod Heights
use btc_idx_service.Prelude.{◌⊎◌, inl, inr, none, some, suc, List, Option, ℕ}
use btc_idx_service.Prelude.Run.{◌>>=◌, Run, raise, pure, ◌>>◌}
use btc_idx_service.Types.{BlockHash, BlockInfo, Transaction, BlockHeader}
use btc_idx_service.Prelude.Int.{ℤ}
use btc_idx_service.Processor.{ProcessorError, rpc}

-- `rpc_client::RpcError`, with the text of the message as a number.
pub record RpcError : Type 0 where
  pub code : ℤ
  pub message : ℕ

-- `rpc_client::Error`.
pub data RpcClientError : Type 0 where
  reqwest anyhow other : RpcClientError
  rpc_error : RpcError → RpcClientError

pub record RpcResponse (A : Type 0) : Type 0 where
  pub result : Option A
  pub error : Option RpcError

-- `From<RpcResponse<T>> for Result<T, Error>`.
unfoldable pub into_result : {A : Type 0} → RpcResponse A → RpcClientError ⊎ A
into_result r = elim r.result [
  | some a ↦ inr a
  | none ↦ elim r.error [ some e ↦ inl (rpc_error e) | none ↦ inl anyhow ]
]

-- What `request` gives for the four methods of the node, by the number of requests made before, and
-- `deserialize_hex` of the crate bitcoin for the transactions of a block in hexadecimal.
pub record Node : Type 0 where
  pub getblockcount : ℕ → RpcClientError ⊎ RpcResponse ℕ
  pub getblockhash : ℕ → ℕ → RpcClientError ⊎ RpcResponse BlockHash
  pub getblockheader : ℕ → BlockHash → RpcClientError ⊎ RpcResponse BlockHeader
  pub getblock : ℕ → BlockHash → RpcClientError ⊎ RpcResponse ℕ
  pub deserialize_hex : ℕ → Option (List Transaction)

-- A run of the client counts its requests. Its errors are those of `processor::Error`, into which
-- `?` converts an `rpc_client::Error`.
abbrev pub C : Type 0 → Type 0
C A = Run ℕ ProcessorError A

abbrev pub or_rpc : {A : Type 0} → RpcClientError ⊎ A → C A
or_rpc (inl e) = raise rpc
or_rpc (inr a) = pure a

-- `self.request(…).await?`.
abbrev pub request : {A : Type 0} → (ℕ → RpcClientError ⊎ RpcResponse A) → C (RpcResponse A)
request answer k = or_rpc (answer k) (suc k)

module _ (node : Node) where
  unfoldable pub get_block_count : C ℕ
  get_block_count = request node.getblockcount >>= λ r. or_rpc (into_result r)

  unfoldable pub get_block_hash : ℕ → C BlockHash
  get_block_hash height = request (λ k. node.getblockhash k height) >>= λ r. or_rpc (into_result r)

  unfoldable pub get_block_header : BlockHash → C BlockHeader
  get_block_header hash = request (λ k. node.getblockheader k hash) >>= λ r. or_rpc (into_result r)

  -- `getblock` ignores the error field of the response.
  unfoldable pub get_block : BlockHash → C (List Transaction)
  get_block hash = do
    r ← request (λ k. node.getblock k hash)
    hex ← elim r.result [ none ↦ raise rpc | some hex ↦ pure hex ]
    elim (node.deserialize_hex hex) [ none ↦ raise rpc | some txs ↦ pure txs ]

  unfoldable pub get_tip_number : C ℕ
  get_tip_number = get_block_count

  -- `try_join!` of the header and the block, asked for one after the other.
  unfoldable pub scan_block_by_hash : BlockHash → C BlockInfo
  scan_block_by_hash hash = do
    header ← get_block_header hash
    txdata ← get_block hash
    pure (record { header = header; txdata = txdata })

  unfoldable pub scan_block : Option ℕ → C BlockInfo
  scan_block (some num) = do hash ← get_block_hash num; scan_block_by_hash hash
  scan_block none = do num ← get_block_count; hash ← get_block_hash num; scan_block_by_hash hash
