-- ===== src/Client/Heights.antt =====
-- What the client gets from a node whose answers belong to what was asked for.
use btc_idx_service.Prelude.{
  some, suc, inl, inr, ◌≡◌, ◌⊎◌, ◌∙◌, refl, List, ℕ, ap, Option-cases, sym,
}
use btc_idx_service.Client.{
  Node, into_result, BlockInfo, scan_block_by_hash, RpcResponse, scan_block, RpcClientError,
  BlockHeader, get_block_header, get_block_hash, request, Transaction, or_rpc, get_block,
}
use btc_idx_service.Types.{BlockHash, BlockInfo, BlockHeader, Transaction}
use btc_idx_service.Prelude.Run.{Holds, Holds-resume, Holds-mono, ◌>>=◌, resume, Holds-any}

-- Each block has a height, one more than its parent's; the hash given for a height is that of a block
-- of this height; and a header is that of the block with the hash asked for.
pub record IsSound (node : Node) (height_of : BlockHash → ℕ) : Type 0 where
  pub hash_at :
      (k n : ℕ) (r : RpcResponse BlockHash) (hash : BlockHash)
      → node.getblockhash k n ≡ inr r
      → r.result ≡ some hash
      → height_of hash ≡ n
  pub header_at :
      (k : ℕ) (hash : BlockHash) (r : RpcResponse BlockHeader) (header : BlockHeader)
      → node.getblockheader k hash ≡ inr r
      → r.result ≡ some header
      → (header.hash ≡ hash) × (header.height ≡ height_of hash)
  pub parent_at :
      (k : ℕ) (hash parent : BlockHash) (r : RpcResponse BlockHeader) (header : BlockHeader)
      → node.getblockheader k hash ≡ inr r
      → r.result ≡ some header
      → header.previous_block_hash ≡ some parent
      → suc (height_of parent) ≡ header.height

-- The block has the height of its hash, and its parent is one below.
pub record IsPlaced (height_of : BlockHash → ℕ) (block : BlockInfo) : Type 0 where
  pub height : block.header.height ≡ height_of block.header.hash
  pub parent :
      (p : BlockHash)
      → block.header.previous_block_hash ≡ some p
      → suc (height_of p) ≡ block.header.height

-- `a` is the result of the response to request `k`.
abbrev Answered : {A : Type 0} → (ℕ → RpcClientError ⊎ RpcResponse A) → ℕ → A → Type 0
Answered {A = A} answer k a = (r : RpcResponse A) × (answer k ≡ inr r) × (r.result ≡ some a)

-- A response that is used carries its result.
request_lem :
    {A : Type 0} (answer : ℕ → RpcClientError ⊎ RpcResponse A) (k : ℕ)
    → Holds (λ a _. Answered answer k a) ((request answer >>= λ r. or_rpc (into_result r)) k)
unfolding into_result
request_lem {A = A} answer k = asked (answer k) refl
  where
    used :
        (r : RpcResponse A)
        → answer k ≡ inr r
        → Holds (λ a _. Answered answer k a) (or_rpc (into_result r) (suc k))
    used r e = elim (Option-cases r.result) [
      | inr (a, f) ↦ rw f (r, e, f)
      | inl f ↦ elim (Option-cases r.error) [ inl g ↦ rw (f, g) tt | inr (x, g) ↦ rw (f, g) tt ]
    ]

    asked :
        (o : RpcClientError ⊎ RpcResponse A)
        → answer k ≡ o
        → Holds
            (λ a _. Answered answer k a)
            (resume (or_rpc o (suc k)) (λ r. or_rpc (into_result r)))
    asked (inl x) e = tt
    asked (inr r) e = used r e

module _ (node : Node) (height_of : BlockHash → ℕ) (sound : IsSound node height_of) where
  -- What the header asked for by `hash` is.
  abbrev IsHeaderOf : BlockHash → BlockHeader → Type 0
  IsHeaderOf hash hd =
      (hd.hash ≡ hash)
      × ((txs : List Transaction) → IsPlaced height_of (record { header = hd; txdata = txs }))

  get_block_header_lem :
      (hash : BlockHash) (k : ℕ) → Holds (λ hd _. IsHeaderOf hash hd) (get_block_header node hash k)
  unfolding get_block_header
  get_block_header_lem hash k =
      Holds-mono (λ hd _. Answered (λ i. node.getblockheader i hash) k hd)
        (λ hd _. IsHeaderOf hash hd) _ (request_lem (λ i. node.getblockheader i hash) k)
        (λ hd _ (r, e, f).
          let (same, at) = sound.header_at k hash r hd e f in
          (
            same,
            λ txs. record {
              height = at ∙ ap height_of (sym same);
              parent = λ p g. sound.parent_at k hash p r hd e f g;
            },
          ))

  pub scan_block_by_hash-IsPlaced :
      (hash : BlockHash) (k : ℕ)
      → Holds
          (λ block _. (block.header.hash ≡ hash) × IsPlaced height_of block)
          (scan_block_by_hash node hash k)
  unfolding scan_block_by_hash
  scan_block_by_hash-IsPlaced hash k =
      Holds-resume (λ hd _. IsHeaderOf hash hd) _ (get_block_header node hash k) _
        (get_block_header_lem hash k)
        (λ hd k₁ h₁.
          Holds-resume (λ _ _. Unit {0}) _ (get_block node hash k₁) _
            (Holds-any (get_block node hash k₁)) (λ txs _ _. (h₁.0, h₁.1 txs)))

  pub scan_block-IsPlaced :
      (n k : ℕ)
      → Holds
          (λ block _. (block.header.height ≡ n) × IsPlaced height_of block)
          (scan_block node (some n) k)
  unfolding scan_block get_block_hash
  scan_block-IsPlaced n k =
      Holds-resume (λ hash _. height_of hash ≡ n) _ (get_block_hash node n k) _
        (Holds-mono (λ hash _. Answered (λ i. node.getblockhash i n) k hash)
          (λ hash _. height_of hash ≡ n) _ (request_lem (λ i. node.getblockhash i n) k)
          (λ hash _ (r, e, f). sound.hash_at k n r hash e f))
        (λ hash k₁ at.
          Holds-mono (λ block _. (block.header.hash ≡ hash) × IsPlaced height_of block)
            (λ block _. (block.header.height ≡ n) × IsPlaced height_of block) _
            (scan_block_by_hash-IsPlaced hash k₁)
            (λ block _ h. (h.1.height ∙ ap height_of h.0 ∙ at, h.1)))
