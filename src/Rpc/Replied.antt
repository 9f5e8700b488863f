-- ===== src/Rpc/Replied.antt =====
-- The four requests of the client, and what the node replies to them.

use btc_idx_service.Prelude.{some, [], inr, ◌∷◌, ◌≡◌, List, Option, ℕ, ◌⊎◌, refl, ◌↔◌, subst}
use btc_idx_service.Rpc.{
  Transport, BitcoinRpcClient, BlockHash, RpcResponse, getblockhash, Method, Json, number,
  BlockHeader, getblockheader, node_of, getblockcount, getblock,
}
use btc_idx_service.Types.{BlockHash, BlockHeader}
use btc_idx_service.Client.{RpcResponse, RpcClientError, Node}
use btc_idx_service.Rpc.Sound.{
  Replies, Replies-send_request, send_request-Replies, with_hash-Replies,
}

-- The four requests that are made.
pub data Query : Type 0 where
  block_count : Query
  block_hash : ℕ → Query
  block_header block_text : BlockHash → Query

abbrev pub Answer : Query → Type 0
Answer block_count = ℕ
Answer (block_hash height) = BlockHash
Answer (block_header hash) = BlockHeader
Answer (block_text hash) = ℕ

abbrev pub ask : Node → (q : Query) → ℕ → RpcClientError ⊎ RpcResponse (Answer q)
ask node block_count k = node.getblockcount k
ask node (block_hash height) k = node.getblockhash k height
ask node (block_header hash) k = node.getblockheader k hash
ask node (block_text hash) k = node.getblock k hash

-- What the node documents of each: the method and its parameters, of which a hash may have no JSON.
abbrev pub method_of : Query → Method
method_of block_count = getblockcount
method_of (block_hash height) = getblockhash
method_of (block_header hash) = getblockheader
method_of (block_text hash) = getblock

module _ (t : Transport) (client : BitcoinRpcClient) where
  abbrev pub Parameters : Query → List Json → Type 0
  Parameters block_count ps = ps ≡ []
  Parameters (block_hash height) ps = ps ≡ number height ∷ []
  Parameters (block_header hash) ps =
      (json : Json) × (t.to_value hash ≡ some json) × (ps ≡ json ∷ [])
  Parameters (block_text hash) ps =
      (json : Json) × (t.to_value hash ≡ some json) × (ps ≡ json ∷ number 0 ∷ [])

  abbrev pub reader : (q : Query) → ℕ → Option (RpcResponse (Answer q))
  reader block_count = t.read_count
  reader (block_hash height) = t.read_hash
  reader (block_header hash) = t.read_header
  reader (block_text hash) = t.read_text

  -- For each of the four requests the client has an answer only of a node that replied, to this method
  -- with these parameters, at its address and with its login, with success and a body that reads as
  -- that answer; and it has the answer of every such reply.
  pub node_of-Replies :
      (q : Query) (k : ℕ) (r : RpcResponse (Answer q))
      → ask (node_of t client) q k ≡ inr r
        ↔ ((ps : List Json) × Parameters q ps × Replies t client (reader q) k (method_of q) ps r)
  unfolding node_of
  node_of-Replies block_count k r = (
    λ e. ([], refl, send_request-Replies t client t.read_count getblockcount [] k r e),
    λ (ps, e, reply).
        Replies-send_request t client t.read_count getblockcount [] k r
          (subst (λ js. Replies t client t.read_count k getblockcount js r) e reply),
  )
  node_of-Replies (block_hash height) k r = (
    λ e. (
      number height ∷ [],
      refl,
      send_request-Replies t client t.read_hash getblockhash (number height ∷ []) k r e,
    ),
    λ (ps, e, reply).
        Replies-send_request t client t.read_hash getblockhash (number height ∷ []) k r
          (subst (λ js. Replies t client t.read_hash k getblockhash js r) e reply),
  )
  node_of-Replies (block_header hash) k r = (
    λ e.
        let (json, j, reply) =
          with_hash-Replies t client t.read_header getblockheader [] (t.to_value hash) k r e in
        (json ∷ [], (json, j, refl), reply),
    λ (ps, (json, j, e), reply). rw j (
        Replies-send_request t client t.read_header getblockheader (json ∷ []) k r
          (subst (λ js. Replies t client t.read_header k getblockheader js r) e reply)),
  )
  node_of-Replies (block_text hash) k r = (
    λ e.
        let (json, j, reply) =
          with_hash-Replies t client t.read_text getblock (number 0 ∷ []) (t.to_value hash) k r e in
        (json ∷ number 0 ∷ [], (json, j, refl), reply),
    λ (ps, (json, j, e), reply). rw j (
        Replies-send_request t client t.read_text getblock (json ∷ number 0 ∷ []) k r
          (subst (λ js. Replies t client t.read_text k getblock js r) e reply)),
  )
