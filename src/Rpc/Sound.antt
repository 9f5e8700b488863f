-- ===== src/Rpc/Sound.antt =====
-- What of the answers of the node the client lets through.
use btc_idx_service.Client.Heights.{IsSound}
use btc_idx_service.Prelude.{
  some, [], true, suc, inr, ◌∷◌, ◌≡◌, List, Option, ℕ, none, inl, ◌⊎◌, refl, arith, Bool-cases, ◌∙◌,
  ap, sym,
}
use btc_idx_service.Rpc.{
  Transport, BitcoinRpcClient, BlockHash, send_request, RpcResponse, getblockhash, Method, Json,
  number, HttpResponse, BlockHeader, getblockheader, http_request, decoded, with_hash, answer,
  node_of, HttpRequest, credentials,
}
use btc_idx_service.Types.{BlockHash, BlockHeader}
use btc_idx_service.Client.{RpcResponse, RpcClientError, anyhow, reqwest}

module _ (t : Transport) (client : BitcoinRpcClient) where
  -- A request as the node expects it, with a user and a password where there are both.
  abbrev pub expected : Method → List Json → HttpRequest
  expected method params = record {
    url = client.url;
    basic_auth = elim client.user as (λ _. Option (ℕ × ℕ)) [
      | none ↦ none
      | some user ↦ elim client.password as (λ _. Option (ℕ × ℕ)) [
        | none ↦ none
        | some password ↦ some (user, password)
      ]
    ];
    json = record { method = method; params = params };
  }

  login_lem :
      (user password : Option ℕ)
      → credentials user password ≡ elim user as (λ _. Option (ℕ × ℕ)) [
        | none ↦ none
        | some u ↦ elim password as (λ _. Option (ℕ × ℕ)) [ none ↦ none | some p ↦ some (u, p) ]
      ]
  login_lem (some user) (some password) = refl
  login_lem (some user) none = refl
  login_lem none password = refl

  abbrev with_login : Method → List Json → Option (ℕ × ℕ) → HttpRequest
  with_login method params login = record {
    url = client.url;
    basic_auth = login;
    json = record { method = method; params = params };
  }

  http_request_lem :
      (method : Method) (params : List Json)
      → http_request t client method params ≡ expected method params
  http_request_lem method params =
      ap (with_login method params) (login_lem client.user client.password)

  -- The node answers the request `k` with success, and the body reads as `r`.
  abbrev pub Replies :
      {A : Type 0} → (ℕ → Option (RpcResponse A)) → ℕ → Method → List Json → RpcResponse A → Type 0
  Replies read k method params r =
      (response : HttpResponse) × (t.send k (expected method params) ≡ some response)
      × (t.is_success response.status ≡ true)
      × (read response.body ≡ some r)

  module _ {A : Type 0} (read : ℕ → Option (RpcResponse A)) where
    decoded_lem :
        (o : Option (RpcResponse A)) (r : RpcResponse A)
        → decoded t client read o ≡ inr r
        → o ≡ some r
    decoded_lem none r e = absurd (inl≢inr e)
      where
        inl≢inr : Path (RpcClientError ⊎ RpcResponse A) (inl reqwest) (inr r) → ⊥
        inl≢inr c = cc
    decoded_lem (some a) r e = cc

    answer_lem :
        (o : Option HttpResponse) (r : RpcResponse A)
        → answer t client read o ≡ inr r
        → (response : HttpResponse) × (o ≡ some response)
          × (t.is_success response.status ≡ true)
          × (read response.body ≡ some r)
    answer_lem none r e = absurd (never e)
      where
        never : Path (RpcClientError ⊎ RpcResponse A) (inl reqwest) (inr r) → ⊥
        never c = cc
    answer_lem (some response) r e = elim (Bool-cases (t.is_success response.status)) [
      | inl good ↦ (response, refl, good, decoded_lem (read response.body) r (rw good at e))
      | inr bad ↦ absurd (ground (arith, bad, e))
    ]

    -- A request that returns had a successful answer that reads as what it returns.
    pub send_request-Replies :
        (method : Method) (params : List Json) (k : ℕ) (r : RpcResponse A)
        → send_request t client read method params k ≡ inr r
        → Replies read k method params r
    unfolding send_request
    send_request-Replies method params k r e =
        answer_lem (t.send k (expected method params)) r (
          ap (λ req. answer t client read (t.send k req)) (sym (http_request_lem method params))
          ∙ e)

    pub Replies-send_request :
        (method : Method) (params : List Json) (k : ℕ) (r : RpcResponse A)
        → Replies read k method params r
        → send_request t client read method params k ≡ inr r
    unfolding send_request
    Replies-send_request method params k r (response, sent, good, reads) =
        ap (λ req. answer t client read (t.send k req)) (http_request_lem method params)
        ∙ rw (sent, good, reads) refl

    pub with_hash-Replies :
        (method : Method) (more : List Json) (o : Option Json) (k : ℕ) (r : RpcResponse A)
        → with_hash t client read method more o k ≡ inr r
        → (json : Json) × (o ≡ some json) × Replies read k method (json ∷ more) r
    with_hash-Replies method more none k r e = absurd (never e)
      where
        never : Path (RpcClientError ⊎ RpcResponse A) (inl anyhow) (inr r) → ⊥
        never c = cc
    with_hash-Replies method more (some json) k r e =
        (json, refl, send_request-Replies method (json ∷ more) k r e)

  -- What the node replies belongs to what was asked for, where it replies with success: the hash for
  -- a height has this height, the header for a hash is that of the hash and one above its parent.
  pub record IsFaithful (height_of : BlockHash → ℕ) : Type 0 where
    pub hash_at :
        (k n : ℕ) (r : RpcResponse BlockHash) (hash : BlockHash)
        → Replies t.read_hash k getblockhash (number n ∷ []) r
        → r.result ≡ some hash
        → height_of hash ≡ n
    pub header_at :
        (k : ℕ) (hash : BlockHash) (json : Json) (r : RpcResponse BlockHeader)
        (header : BlockHeader)
        → t.to_value hash ≡ some json
        → Replies t.read_header k getblockheader (json ∷ []) r
        → r.result ≡ some header
        → (header.hash ≡ hash)
          × (header.height ≡ height_of hash)
          × ((parent : BlockHash)
              → header.previous_block_hash ≡ some parent
              → suc (height_of parent) ≡ header.height)

  -- If what a node replies with success to a request for a hash or for a header belongs to this request,
  -- then so does every hash and every header that the client has from it, which is what the theorems
  -- on the harvester ask of a node.
  pub node_of-IsSound :
      (height_of : BlockHash → ℕ) → IsFaithful height_of → IsSound (node_of t client) height_of
  unfolding node_of
  node_of-IsSound height_of f = record {
    hash_at = λ k n r hash e some_hash.
        f.hash_at k n r hash (send_request-Replies t.read_hash getblockhash (number n ∷ []) k r e)
          some_hash;
    header_at = λ k hash r header e some_header.
        let (json, j, reply) =
          with_hash-Replies t.read_header getblockheader [] (t.to_value hash) k r e in
        let (same, height, _) = f.header_at k hash json r header j reply some_header in
        (same, height);
    parent_at = λ k hash parent r header e some_header p.
        let (json, j, reply) =
          with_hash-Replies t.read_header getblockheader [] (t.to_value hash) k r e in
        let (_, _, above) = f.header_at k hash json r header j reply some_header in above parent p;
  }
