-- ===== src/Rpc.antt =====
-- core/src/rpc_client.rs: the requests to the node, over HTTP.
pub mod Sound
pub mod Replied
use btc_idx_service.Prelude.{
  none, some, [], inl, inr, ◌∷◌, ◌⊎◌, List, Bool, Option, ℕ, if◌then◌else◌,
}
use btc_idx_service.Client.{RpcResponse, Node, RpcClientError, anyhow, reqwest}
use btc_idx_service.Types.{BlockHash, BlockHeader, Transaction}

-- The names of the methods.
pub data Method : Type 0 where
  getblockcount getblockhash getblockheader getblock : Method

-- `serde_json::Value`, of a number or of the text of a hash.
pub data Json : Type 0 where
  number : ℕ → Json
  text : BlockHash → Json

-- `jsonrpc` and `id`, "2.0" and "1" in every request, are left out.
pub record RpcRequest : Type 0 where
  pub method : Method
  pub params : List Json

-- A POST, with the user and the password of `basic_auth`.
pub record HttpRequest : Type 0 where
  pub url : ℕ
  pub basic_auth : Option (ℕ × ℕ)
  pub json : RpcRequest

pub record HttpResponse : Type 0 where
  pub status : ℕ
  pub body : ℕ

-- What the crates reqwest, serde_json and bitcoin do: the exchange over the network, by the number of
-- calls made before, the ranges of status codes (`is_error` for `error_for_status`), the decoding of
-- a body as a response with a number, a hash, a header or a text, the JSON of a hash, and the
-- transactions of a block in hexadecimal.
pub record Transport : Type 0 where
  pub send : ℕ → HttpRequest → Option HttpResponse
  pub is_success : ℕ → Bool
  pub is_error : ℕ → Bool
  pub read_count : ℕ → Option (RpcResponse ℕ)
  pub read_hash : ℕ → Option (RpcResponse BlockHash)
  pub read_header : ℕ → Option (RpcResponse BlockHeader)
  pub read_text : ℕ → Option (RpcResponse ℕ)
  pub to_value : BlockHash → Option Json
  pub deserialize_hex : ℕ → Option (List Transaction)

pub record BitcoinRpcClient : Type 0 where
  pub url : ℕ
  pub user : Option ℕ
  pub password : Option ℕ

-- Credentials are sent if there are both a user and a password.
abbrev pub credentials : Option ℕ → Option ℕ → Option (ℕ × ℕ)
credentials (some user) (some password) = some (user, password)
credentials (some user) none = none
credentials none password = none

module _ (t : Transport) (client : BitcoinRpcClient) where
  abbrev pub http_request : Method → List Json → HttpRequest
  http_request method params = record {
    url = client.url;
    basic_auth = credentials client.user client.password;
    json = record { method = method; params = params };
  }

  module _ {A : Type 0} (read : ℕ → Option (RpcResponse A)) where
    -- `response.json().await.map_err(Into::into)`.
    abbrev pub decoded : Option (RpcResponse A) → RpcClientError ⊎ RpcResponse A
    decoded none = inl reqwest
    decoded (some r) = inr r

    abbrev pub answer : Option HttpResponse → RpcClientError ⊎ RpcResponse A
    answer none = inl reqwest
    answer (some response) =
        if t.is_success response.status
        then decoded (read response.body)
        else if t.is_error response.status
        then inl reqwest
        else inl anyhow

    unfoldable pub send_request : Method → List Json → ℕ → RpcClientError ⊎ RpcResponse A
    send_request method params k = answer (t.send k (http_request method params))

  -- `into_json`, and then the request with the parameters that begin with the hash.
  abbrev pub with_hash :
      {A : Type 0} (read : ℕ → Option (RpcResponse A))
      → Method
      → List Json
      → Option Json
      → ℕ
      → RpcClientError ⊎ RpcResponse A
  with_hash read method more none k = inl anyhow
  with_hash read method more (some hash) k = send_request read method (hash ∷ more) k

  -- The requests of `get_block_count`, `get_block_hash`, `get_block_header` and `get_block`.
  unfoldable pub node_of : Node
  node_of = record {
    getblockcount = send_request t.read_count getblockcount [];
    getblockhash = λ k height. send_request t.read_hash getblockhash (number height ∷ []) k;
    getblockheader = λ k hash. with_hash t.read_header getblockheader [] (t.to_value hash) k;
    getblock = λ k hash. with_hash t.read_text getblock (number 0 ∷ []) (t.to_value hash) k;
    deserialize_hex = t.deserialize_hex;
  }
