-- ===== src/Types.antt =====
-- core/src/bitcoin/types.rs: the domain types, and what the indexer reads of a block of the
-- `bitcoin` crate. Hashes, transaction ids, scripts and addresses are only compared, so they are
-- numbers; their text forms, which the crate prints and parses, are identified with them.
use btc_idx_service.Prelude.{ℕ, ◌==◌, ◌&&◌, Bool, Option, none, some, List, if◌then◌else◌}
use btc_idx_service.Prelude.Int.{ℤ, pos, negsuc, ◌*ℤ◌, pos_part, neg_part}

abbrev pub BlockHash : Type 0
BlockHash = ℕ

abbrev pub Txid : Type 0
Txid = ℕ

abbrev pub Address : Type 0
Address = ℕ

abbrev pub Script : Type 0
Script = ℕ

pub record OutPoint : Type 0 where
  pub txid : Txid
  pub vout : ℕ

pub record TxIn : Type 0 where
  pub previous_output : OutPoint

pub record TxOut : Type 0 where
  pub value : ℕ
  pub script_pubkey : Script

pub record Transaction : Type 0 where
  pub version : ℤ
  pub lock_time : ℕ
  pub input : List TxIn
  pub output : List TxOut

-- `difficulty` is what `BigDecimal::from_f64` makes of the node's float: `none` if it is not finite.
pub record BlockHeader : Type 0 where
  pub hash : BlockHash
  pub height : ℕ
  pub previous_block_hash : Option BlockHash
  pub time : ℕ
  pub nonce : ℕ
  pub version : ℤ
  pub difficulty : Option ℤ

pub record BlockInfo : Type 0 where
  pub header : BlockHeader
  pub txdata : List Transaction

-- `Send = 0`, `Receive = 1`, `Reorg = 2`.
pub data Action : Type 0 where
  send receive reorg : Action

-- `action as i16`.
unfoldable pub to_i16 : Action → ℤ
to_i16 send = pos 0
to_i16 receive = pos 1
to_i16 reorg = pos 2

abbrev eq_ℤ : ℤ → ℤ → Bool
eq_ℤ a b = pos_part a == pos_part b && neg_part a == neg_part b

-- `TryFrom<i16> for Action`.
unfoldable pub action_try_from : ℤ → Option Action
unfolding to_i16
action_try_from v =
    if eq_ℤ v (to_i16 receive)
    then some receive
    else if eq_ℤ v (to_i16 send)
    then some send
    else if eq_ℤ v (to_i16 reorg)
    then some reorg
    else none

pub record P2trEvent : Type 0 where
  pub sequence_id : ℕ
  pub block_number : ℕ
  pub txid : Txid
  pub address : Address
  pub amount : ℤ
  pub action : Action
  pub is_coinbase : Bool

-- `BtcP2trEvent::new`.
abbrev pub new_event : ℕ → Txid → Address → ℤ → Action → Bool → P2trEvent
new_event block_number txid address amount action is_coinbase = record {
  sequence_id = 0;
  block_number = block_number;
  txid = txid;
  address = address;
  amount = amount;
  action = action;
  is_coinbase = is_coinbase;
}

-- `BtcP2trEvent::reorg`.
unfoldable pub reorg_event : P2trEvent → P2trEvent
reorg_event e = record e { action = reorg; amount = e.amount *ℤ negsuc 0 }

pub data AggregatorMsg : Type 0 where
  event : P2trEvent → AggregatorMsg
  reorg_from : ℕ → AggregatorMsg

pub record UtxoInfo : Type 0 where
  pub owner : Address
  pub txid : Txid
  pub vout : ℕ
  pub amount : ℤ
  pub block_number : ℕ
  pub spent_block : Option ℕ

-- `BtcUtxoInfo::get_out_point`.
abbrev pub get_out_point : UtxoInfo → OutPoint
get_out_point u = record { txid = u.txid; vout = u.vout }

abbrev pub same_out_point : OutPoint → OutPoint → Bool
same_out_point p q = p.txid == q.txid && p.vout == q.vout
