-- ===== src/Tests/Requests.antt =====
-- A node behind HTTP that wants a user and a password.
use btc_idx_service.Tests.Following.{header_of, height_of, below}
use btc_idx_service.Prelude.{
  none, some, [], ◌∷◌, ◌≡◌, ◌==◌, arith, List, Option, ℕ, leb, ◌∙◌, refl, subst, ap, sym, inr, ◌↔◌,
}
use btc_idx_service.Rpc.{
  HttpResponse, Method, Transport, BitcoinRpcClient, Json, number, text, getblockcount,
  getblockhash, getblockheader, getblock, node_of, send_request,
}
use btc_idx_service.Client.{
  RpcResponse, scan_block, get_block_hash, get_block_header, get_block, scan_block_by_hash,
  into_result,
}
use btc_idx_service.Types.{BlockHeader, BlockHash}
use btc_idx_service.Prelude.Run.{ok, err}
use btc_idx_service.Rpc.Replied.{ask, block_hash, node_of-Replies}
use btc_idx_service.Rpc.Sound.{Replies, IsFaithful, node_of-IsSound}
use btc_idx_service.Client.Heights.{IsSound}
use btc_idx_service.Processor.{rpc}

abbrev result_of : {A : Type 0} → A → Option (RpcResponse A)
result_of a = some (record { result = some a; error = none })

-- 401 without the user 1 and the password 2, 404 for what is not asked for.
abbrev reply : Option (ℕ × ℕ) → Method → List Json → HttpResponse
reply none method params = record { status = 401; body = 0 }
reply (some login) getblockcount params = record { status = 200; body = 6 }
reply (some login) getblockhash (number n ∷ params) = record { status = 200; body = n }
reply (some login) getblockheader (text h ∷ params) = record { status = 200; body = h }
reply (some login) getblock (text h ∷ params) = record { status = 200; body = 0 }
reply (some login) method params = record { status = 404; body = 0 }

abbrev transport : Transport
transport = record {
  send = λ k req. some (reply req.basic_auth req.json.method req.json.params);
  is_success = λ status. status == 200;
  is_error = λ status. leb 400 status;
  read_count = result_of;
  read_hash = result_of;
  read_header = λ body. result_of (header_of body);
  read_text = result_of;
  to_value = λ hash. some (text hash);
  deserialize_hex = λ hex. some [];
}

abbrev rpc_client : BitcoinRpcClient
rpc_client = record { url = 8; user = some 1; password = some 2 }

abbrev anonymous : BitcoinRpcClient
anonymous = record rpc_client { password = none }

hash_lem :
    (n : ℕ) (response : HttpResponse) (r : RpcResponse BlockHash) (hash : BlockHash)
    → Path (Option HttpResponse) (some (record { status = 200; body = n })) (some response)
    → result_of response.body ≡ some r
    → r.result ≡ some hash
    → hash ≡ n
hash_lem n response r hash e f g = ground arith

header_lem :
    (n : ℕ) (response : HttpResponse) (r : RpcResponse BlockHeader) (header : BlockHeader)
    → Path (Option HttpResponse) (some (record { status = 200; body = n })) (some response)
    → result_of (header_of response.body) ≡ some r
    → r.result ≡ some header
    → header ≡ header_of n
header_lem n response r header e f g = ground arith

header_replied :
    (k h : ℕ) (json : Json) (r : RpcResponse BlockHeader) (header : BlockHeader)
    → Path (Option Json) (some (text h)) (some json)
    → Replies transport rpc_client transport.read_header k getblockheader (json ∷ []) r
    → r.result ≡ some header
    → header ≡ header_of h
header_replied k h json r header j reply g =
    let same : json ≡ text h = cc in
    let (response, e, _, f) =
      subst (λ js. Replies transport rpc_client transport.read_header k getblockheader (js ∷ []) r)
        same reply in
    header_lem h response r header e f g

rpc_client-IsFaithful : IsFaithful transport rpc_client height_of
rpc_client-IsFaithful = record {
  hash_at = λ k n r hash (response, e, _, f) g. hash_lem n response r hash e f g;
  header_at = λ k hash json r header j reply g.
      let same = header_replied k hash json r header j reply g in
      (
        ap (λ (hd : BlockHeader). hd.hash) same,
        ap (λ (hd : BlockHeader). hd.height) same,
        λ parent p.
            below hash parent (sym (ap (λ (hd : BlockHeader). hd.previous_block_hash) same) ∙ p)
            ∙ sym (ap (λ (hd : BlockHeader). hd.height) same),
      );
}

node_of-IsSound_example : IsSound (node_of transport rpc_client) height_of
node_of-IsSound_example = node_of-IsSound transport rpc_client height_of rpc_client-IsFaithful

abbrev found : RpcResponse BlockHash
found = record { result = some 5; error = none }

node_of-Replies_example : ask (node_of transport rpc_client) (block_hash 5) 0 ≡ inr found ↔ (
    (ps : List Json) × (ps ≡ number 5 ∷ [])
    × Replies transport rpc_client transport.read_hash 0 getblockhash ps found)
node_of-Replies_example = node_of-Replies transport rpc_client (block_hash 5) 0 found

block_is_read :
    (scan_block (node_of transport rpc_client) (some 5) 0).0
    ≡ ok (record { header = header_of 5; txdata = [] })
unfolding scan_block node_of send_request get_block_hash get_block_header get_block
    scan_block_by_hash into_result
block_is_read = refl

anonymous_is_refused : (scan_block (node_of transport anonymous) (some 5) 0).0 ≡ err rpc
unfolding scan_block node_of send_request get_block_hash
anonymous_is_refused = refl
