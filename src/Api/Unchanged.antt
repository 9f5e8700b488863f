-- ===== src/Api/Unchanged.antt =====
-- The handlers of a GET leave the tables as they are.
use btc_idx_service.Api.Reads
use btc_idx_service.Api.Service.{
  or_invalid, Web, show, Resource, on_params, block_at, transaction_at, balance_at, utxos_at,
  snapshots_at, health, info, latest_height, Site, Request, shown,
}
use btc_idx_service.Prelude.{◌≡◌, refl, none, some, Option, ℕ, ◌∙◌, ◌==◌, find, ap, List, map}
use btc_idx_service.Prelude.Run.{ok, err, panic, Outcome, resume, pure, Run, ◌>>=◌}
use btc_idx_service.Chain.{get_block, get_unspent_utxos_by_owner, get_latest_block_num}
use btc_idx_service.Api.Defs.{
  ApiError, balance_snapshots, params_invalid, get_balance_snapshots, on_database, TimeSpan,
  missing, Granularity, window,
}
use btc_idx_service.Chain.{BlockRow, get_transaction, fetch_one, decode_block, Chain}
use btc_idx_service.Sql.{Statement, SqlError}
use btc_idx_service.Types.{BlockHash, Txid, Address}
use btc_idx_service.Api.Reads.{on_ledger}
use btc_idx_service.Ledger.{Ledger, get_btc_balance}
use btc_idx_service.Api.Params.{Params, read_params}
use btc_idx_service.Prelude.Int.{ℤ}

-- Code that leaves its state as it is.
abbrev Same : {S E A : Type 0} → Run S E A → Type 0
Same {S = S} q = (s : S) → (q s).1 ≡ s

module _ {S E A B : Type 0} where
  Same-resume :
      (r : Outcome E A × S) (s : S) (f : A → Run S E B)
      → r.1 ≡ s
      → ((a : A) → Same (f a))
      → (resume r f).1 ≡ s
  Same-resume (ok a, s') s f e same = same a s' ∙ e
  Same-resume (err x, s') s f e same = e
  Same-resume (panic, s') s f e same = e

  Same-bind : (q : Run S E A) (f : A → Run S E B) → Same q → ((a : A) → Same (f a)) → Same (q >>= f)
  Same-bind q f h same s = Same-resume (q s) s f (h s) same

or_invalid-Same :
    {A B : Type 0} (a : Option A) (f : A → Reads.R B)
    → ((a : A) → Same (f a))
    → Same (or_invalid a f)
or_invalid-Same none f same d = refl
or_invalid-Same (some a) f same d = same a d

or_error-Same : {A : Type 0} (a : Option A) (e : ApiError) → Same (Reads.or_error a e)
or_error-Same none e d = refl
or_error-Same (some a) e d = refl

module _ {A : Type 0} where
  on_chain-Same : (q : Statement Chain A) → Same q → Same (Reads.on_chain q)
  on_chain-Same q h d = ap (λ c. record d { chain = c }) (h d.chain)

  on_ledger-Same : (q : Statement Ledger A) → Same q → Same (Reads.on_ledger q)
  on_ledger-Same q h d = ap (λ l. record d { ledger = l }) (h d.ledger)

  on_tables-Same : (q : Run Ledger ApiError A) → Same q → Same (Reads.on_tables q)
  on_tables-Same q h d = ap (λ l. record d { ledger = l }) (h d.ledger)

fetch_one-Same : {A : Type 0} (a : Option A) → Same (fetch_one a)
fetch_one-Same none c = refl
fetch_one-Same (some a) c = refl

decode_block-Same : (r : BlockRow) → Same (decode_block r)
decode_block-Same r c = go r.previous_hash
  where
    go :
        (h : Option BlockHash)
        → (elim h as (λ _. Outcome SqlError BlockRow × Chain) [
          | none ↦ (panic, c)
          | some hash ↦ (ok r, c)
        ]).1
          ≡ c
    go none = refl
    go (some h) = refl

block-Same : (hash : BlockHash) → Same (Reads.block hash)
unfolding Reads.block get_block
block-Same hash =
    Same-bind (Reads.on_chain (get_block hash)) (λ b. pure (Reads.block_header_data b))
      (on_chain-Same (get_block hash) λ c.
        Same-resume (fetch_one (find (λ b. b.hash == hash) c.blocks) c) c decode_block
          (fetch_one-Same (find (λ b. b.hash == hash) c.blocks) c) decode_block-Same)
      (λ b d. refl)

transaction-Same : (txid : Txid) → Same (Reads.transaction txid)
unfolding Reads.transaction get_transaction
transaction-Same txid =
    Same-bind (Reads.on_chain (get_transaction txid)) (λ t. pure (Reads.transaction_data t))
      (on_chain-Same (get_transaction txid)
        λ c. fetch_one-Same (find (λ t. t.txid == txid) c.transactions) c)
      (λ b d. refl)

balance-Same : (parse : ℕ → Option Address) (text : ℕ) → Same (Reads.p2tr_balance parse text)
unfolding Reads.p2tr_balance get_btc_balance
balance-Same parse text =
    Same-bind (Reads.address_of parse text) _ (or_error-Same (parse text) params_invalid) λ address.
      Same-bind {B = ℤ} (Reads.on_ledger (get_btc_balance address)) (λ b. Reads.or_error b missing)
        (on_ledger-Same (get_btc_balance address) λ l. refl) λ b. or_error-Same b missing

utxos-Same : (parse : ℕ → Option Address) (text : ℕ) → Same (Reads.p2tr_utxo parse text)
unfolding Reads.p2tr_utxo get_unspent_utxos_by_owner
utxos-Same parse text =
    Same-bind (Reads.address_of parse text) _ (or_error-Same (parse text) params_invalid) λ address.
      Same-bind {B = List Reads.Utxo} (Reads.on_chain (get_unspent_utxos_by_owner address))
        (λ u. pure (map Reads.utxo_of u))
        (on_chain-Same (get_unspent_utxos_by_owner address) λ c. refl) λ u d. refl

latest-Same : Same Reads.latest_block
unfolding Reads.latest_block get_latest_block_num
latest-Same = on_chain-Same get_latest_block_num λ c. refl

module _ {S E A B : Type 0} where
  Same-elim :
      (o : Option A) (q : Run S E B) (f : A → Run S E B)
      → Same q
      → ((a : A) → Same (f a))
      → Same (elim o as (λ _. Run S E B) [ none ↦ q | some a ↦ f a ])
  Same-elim none q f h k = h
  Same-elim (some a) q f h k = k a

module _ (web : Web) where
  total-Same : (address : Address) → Same (on_database (get_btc_balance address))
  unfolding get_btc_balance
  total-Same address l = refl

  snapshots-Same :
      (text : ℕ) (time_span : TimeSpan) (granularity : Granularity)
      → Same (balance_snapshots web.date_trunc web.series web.address text time_span granularity)
  unfolding balance_snapshots get_balance_snapshots
  snapshots-Same text time_span granularity =
      Same-elim (window time_span granularity) _ _ (λ l. refl)
        λ w.
          Same-elim (web.address text) _ _ (λ l. refl)
            λ address.
              Same-bind (on_database (get_btc_balance address)) _ (total-Same address)
                λ total l. refl

  show-Same : (r : Resource) (query : Params) (d : Reads.Database) → (show web r query d).1 ≡ d
  unfolding show
  show-Same health query d = refl
  show-Same info query d = refl
  show-Same latest_height query d = latest-Same d
  show-Same (block_at hash) query d = or_invalid-Same hash Reads.block block-Same d
  show-Same (transaction_at txid) query d =
      or_invalid-Same txid Reads.transaction transaction-Same d
  show-Same (balance_at address) query d = balance-Same web.address address d
  show-Same (utxos_at address) query d = utxos-Same web.address address d
  show-Same (snapshots_at address) query d = go (read_params query)
    where
      go : (r : Option (TimeSpan × Granularity)) → (on_params web address r d).1 ≡ d
      go none = refl
      go (some (s, g)) =
          on_tables-Same (balance_snapshots web.date_trunc web.series web.address address s g)
            (snapshots-Same address s g) d

  pub shown-Same : (r : Option Resource) (req : Request) (s : Site) → (shown web r req s).1 ≡ s
  shown-Same none req s = refl
  shown-Same (some r) req s = ap (λ d. record s { database = d }) (show-Same r req.query s.database)
