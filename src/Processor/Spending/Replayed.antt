-- ===== src/Processor/Spending/Replayed.antt =====
-- Blocks one after the other, some of which fail.
use btc_idx_service.Processor.Spending.{apply_transactions, Externals, UtxoSet}
use btc_idx_service.Processor.Spending.Blocks.{SpendsOutside, process-Applies, Applies}
use btc_idx_service.Prelude.{[], ◌∷◌, ◌≡◌, ◌∙◌, refl, List, All, ap}
use btc_idx_service.Prelude.Run.{ok, err, Holds-ok}
use btc_idx_service.Processor.State.{Externals, World, IsWalk, ProcessorError}
use btc_idx_service.Types.{BlockInfo}
use btc_idx_service.Processor.Defs.{process}
use btc_idx_service.Chain.Unspent.{unspent_at, UtxoSet, IsSpelled}
use btc_idx_service.Processor.Conservation.{process-Conserves}

module _ (x : Externals) where
  -- The blocks that were committed, the last one first, among those tried from `w` on.
  pub data Follows (w : World) : List BlockInfo → World → Type 0 where
    starts : Follows w [] w
    commits :
        {bs : List BlockInfo} {v : World} (block : BlockInfo) (v' : World)
        → Follows w bs v
        → process x block v ≡ (ok tt, v')
        → Follows w (block ∷ bs) v'
    fails :
        {bs : List BlockInfo} {v : World} (block : BlockInfo) (e : ProcessorError) (v' : World)
        → Follows w bs v
        → process x block v ≡ (err e, v')
        → Follows w bs v'

  -- The same blocks on the set of unspent outputs.
  abbrev pub replay : List BlockInfo → UtxoSet → UtxoSet
  replay [] f = f
  replay (block ∷ bs) f = apply_transactions x block.txdata (replay bs f)

module _ (x : Externals) (walked : IsWalk x) where
  abbrev Stands : List BlockInfo → World → World → Type 0
  Stands bs w v =
      (unspent_at v.chain.utxos ≡ replay x bs (unspent_at w.chain.utxos))
      × All IsSpelled v.chain.utxos

  failed_same :
      (block : BlockInfo) (v v' : World) (e : ProcessorError)
      → process x block v ≡ (err e, v')
      → v'.chain ≡ v.chain
  failed_same block v v' e f = rw f at (process-Conserves x walked 0 block v)

  Follows-Stands :
      (w : World) (bs : List BlockInfo) (v : World)
      → Follows x w bs v
      → All (SpendsOutside x) bs
      → All IsSpelled w.chain.utxos
      → Stands bs w v
  Follows-Stands w [] v starts outside spelled = (refl, spelled)
  Follows-Stands w bs _ (fails {v = v} block e v' r f) outside spelled =
      rw (failed_same block v v' e f) (Follows-Stands w bs v r outside spelled)
  Follows-Stands w _ _ (commits {bs = bs} {v = v} block v' r f) outside spelled =
      let (stands, kept) = Follows-Stands w bs v r outside.1 spelled in
      let applied =
        Holds-ok (λ _ u. Applies x block v u) (process x block v) tt v'
          (process-Applies x block v kept outside.0) f in
      (applied.0 ∙ ap (apply_transactions x block.txdata) stands, applied.1)

  -- Whatever blocks are tried one after the other, and whichever of them fail: the utxo table stands
  -- for the set of unspent outputs that the committed blocks leave, one after the other, of the set
  -- it stood for at the start, if no block spends an output of its own.
  pub Follows-replay :
      (w : World) (bs : List BlockInfo) (v : World)
      → All IsSpelled w.chain.utxos
      → All (SpendsOutside x) bs
      → Follows x w bs v
      → unspent_at v.chain.utxos ≡ replay x bs (unspent_at w.chain.utxos)
  Follows-replay w bs v spelled outside r = (Follows-Stands w bs v r outside spelled).0
