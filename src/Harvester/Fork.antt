-- ===== src/Harvester/Fork.antt =====
-- `get_fork_blocks` and `handle_reorg`: the blocks of a fork.
use btc_idx_service.Prelude.{
  none, some, [], true, false, zero, suc, inl, inr, ◌∷◌, ◌≡◌, ◌<◌, ◌==◌, refl, arith, List, Bool, ℕ,
  exists, Bool-cases, ==_iff, ◌∙◌, sym, ap, Option, subst,
}
use btc_idx_service.Processor.{Externals, is_processed, World}
use btc_idx_service.Harvester.State.{Harvester, boxed, on_processor, H, on_client}
use btc_idx_service.Chain.{Chain, has_block}
use btc_idx_service.Client.{Node, scan_block_by_hash}
use btc_idx_service.Types.{BlockHash, BlockInfo}
use btc_idx_service.Client.Heights.{IsSound, IsPlaced, scan_block_by_hash-IsPlaced}
use btc_idx_service.Harvester.Defs.{get_fork_blocks}
use btc_idx_service.Prelude.Run.{Holds, ◌>>=◌, pure}
use btc_idx_service.Processor.Rules.{Holds-exec}
use btc_idx_service.Harvester.Rules.{
  Settles, Settles-resume, on_processor-Settles, on_client-Settles,
}

-- The database has the block.
abbrev pub knows : Chain → BlockHash → Bool
knows c hash = exists (λ b. b.hash == hash) c.blocks

-- `bs` are the blocks from `block` back to a block that the database knows, or the genesis block, or
-- one with no parent; each is followed by its parent, and the known one is left out.
pub data IsFork (c : Chain) : BlockInfo → List BlockInfo → Type 0 where
  genesis : {block : BlockInfo} → block.header.height ≡ 0 → IsFork c block []
  known : {block : BlockInfo} → knows c block.header.hash ≡ true → IsFork c block []
  orphan :
      {block : BlockInfo}
      → knows c block.header.hash ≡ false
      → block.header.previous_block_hash ≡ none
      → IsFork c block (block ∷ [])
  child :
      {block parent : BlockInfo} {bs : List BlockInfo}
      → knows c block.header.hash ≡ false
      → block.header.previous_block_hash ≡ some parent.header.hash
      → IsFork c parent bs
      → IsFork c block (block ∷ bs)

-- The chain tables, the channel and the last processed block are as before.
pub record OnlyReads (h h' : Harvester) : Type 0 where
  pub chain : h'.world.chain ≡ h.world.chain
  pub sent : h'.world.sent ≡ h.world.sent
  pub last_block : h'.last_processed_block ≡ h.last_processed_block

OnlyReads-trans : (h h' h'' : Harvester) → OnlyReads h h' → OnlyReads h' h'' → OnlyReads h h''
OnlyReads-trans h h' h'' o o' = record {
  chain = o'.chain ∙ o.chain;
  sent = o'.sent ∙ o.sent;
  last_block = o'.last_block ∙ o.last_block;
}

is_processed_lem :
    (hash : BlockHash) (w : World)
    → Holds
        (λ b w'. (b ≡ knows w.chain hash) × (w'.chain ≡ w.chain) × (w'.sent ≡ w.sent))
        (is_processed hash w)
unfolding is_processed has_block
is_processed_lem hash w =
    Holds-exec (λ b c. (b ≡ knows w.chain hash) × (c ≡ w.chain)) _ (has_block hash) w (refl, refl)
      (λ b w' h s. (h.0, h.1, s))

module _ (x : Externals) (node : Node) (height_of : BlockHash → ℕ)
    (sound : IsSound node height_of) where
  abbrev Found : BlockInfo → Harvester → List BlockInfo → Harvester → Type 0
  Found block h bs h' = IsFork h.world.chain block bs × OnlyReads h h'

  -- What is done with a block that the database does not know, by its parent.
  with_parent-IsFork :
      (fuel : ℕ) (block : BlockInfo) (h h₁ : Harvester)
      → ((b : BlockInfo) (v : Harvester)
          → IsPlaced height_of b
          → b.header.height < fuel
          → Settles (Found b v) (get_fork_blocks x node fuel b v))
      → knows h.world.chain block.header.hash ≡ false
      → OnlyReads h h₁
      → IsPlaced height_of block
      → block.header.height < suc fuel
      → (o : Option BlockHash) → block.header.previous_block_hash ≡ o
      → Settles (Found block h) (
          (elim o as (λ _. H (List BlockInfo)) [
            | none ↦ pure (block ∷ [])
            | some parent_hash ↦ do
              parent ← on_client (scan_block_by_hash node parent_hash)
              rest ← get_fork_blocks x node fuel parent
              pure (block ∷ rest)
          ])
            h₁)
  with_parent-IsFork fuel block h h₁ find f o placed enough none n = (orphan f n, o)
  with_parent-IsFork fuel block h h₁ find f o placed enough (some p) n =
      Settles-resume
        (λ (parent : BlockInfo) h'.
          (parent.header.hash ≡ p) × IsPlaced height_of parent × OnlyReads h₁ h')
        (Found block h) (on_client (scan_block_by_hash node p) h₁) _
        (on_client-Settles
          (λ (parent : BlockInfo). (parent.header.hash ≡ p) × IsPlaced height_of parent) _
          (scan_block_by_hash node p) h₁
          (scan_block_by_hash-IsPlaced node height_of sound p h₁.requests)
          (λ parent k e. (e.0, e.1, record { chain = refl; sent = refl; last_block = refl })))
        (λ parent h₂ (same, at, o₂).
          Settles-resume (Found parent h₂) (Found block h) (get_fork_blocks x node fuel parent h₂) _
            (find parent h₂ at (lower placed.parent p n (at.height ∙ ap height_of same)))
            (λ bs h₃ (fork, o₃). (
              child f (n ∙ ap some (sym same))
                  (subst (λ c. IsFork c parent bs) (o₂.chain ∙ o.chain) fork),
              OnlyReads-trans h h₂ h₃ (OnlyReads-trans h h₁ h₂ o o₂) o₃,
            )))
    where
      lower :
          ((q : BlockHash)
            → block.header.previous_block_hash ≡ some q
            → suc (height_of q) ≡ block.header.height)
          → (q : BlockHash) → block.header.previous_block_hash ≡ some q
          → {m : ℕ} → m ≡ height_of q
          → m < fuel
      lower below q e at = let s = below q e in omega arith

  -- With more fuel than the height of the block, the blocks of the fork are found, or a call fails;
  -- the fuel does not run out. The chain tables and the channel stay as they are.
  pub get_fork_blocks-IsFork :
      (fuel : ℕ) (block : BlockInfo) (h : Harvester)
      → IsPlaced height_of block
      → block.header.height < fuel
      → Settles
          (λ bs h'. IsFork h.world.chain block bs × OnlyReads h h')
          (get_fork_blocks x node fuel block h)
  unfolding get_fork_blocks
  get_fork_blocks-IsFork zero block h placed enough = absurd (omega arith)
  get_fork_blocks-IsFork (suc fuel) block h placed enough =
      elim (Bool-cases (block.header.height == 0)) [
        | inl e ↦
            rw (e, get_fork_blocks)
              (genesis ((==_iff _ _).0 e), record { chain = refl; sent = refl; last_block = refl })
        | inr e ↦
            rw (e, get_fork_blocks)
              (Settles-resume (λ b h'. (b ≡ knows h.world.chain block.header.hash) × OnlyReads h h')
                (Found block h) (on_processor boxed (is_processed block.header.hash) h) _
                (on_processor-Settles _ _ boxed (is_processed block.header.hash) h
                  (is_processed_lem block.header.hash h.world)
                  (λ b w k. (k.0, record { chain = k.1; sent = k.2; last_block = refl })))
                (λ b h₁ (r, o). elim (Bool-cases b) [
                  | inl t ↦ rw t (known (sym r ∙ t), o)
                  | inr f ↦ rw f (
                      with_parent-IsFork fuel block h h₁ (get_fork_blocks-IsFork fuel) (sym r ∙ f) o
                        placed enough block.header.previous_block_hash refl)
                ]))
      ]
