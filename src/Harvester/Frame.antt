-- ===== src/Harvester/Frame.antt =====
-- What the search for a fork, its replacement and the acceptance of a block leave as it is.
use btc_idx_service.Prelude.Keeps.{Keeps, Keeps-bind, Keeps-raise, Keeps-pure, Keeps-panic}
use btc_idx_service.Prelude.{
  none, some, true, false, zero, suc, inl, inr, ◌==◌, List, Option, ℕ, Option-cases, Bool-cases,
  last,
}
use btc_idx_service.Processor.{Externals, is_processed, process_fork, process}
use btc_idx_service.Harvester.State.{Harvester, on_client, on_processor, H, boxed, client}
use btc_idx_service.Client.{Node, C, scan_block_by_hash}
use btc_idx_service.Types.{BlockHash, BlockInfo}
use btc_idx_service.Harvester.Defs.{handle_reorg, get_fork_blocks, accept}
use btc_idx_service.Prelude.Run.{pure, ◌>>◌}

-- A property of the harvester that the calls of the node and of the processor keep.
pub record IsFrame (x : Externals) (P : Harvester → Type 0) : Type 0 where
  pub calls : (h : Harvester) (k : ℕ) → P h → P (record h { requests = k })
  pub looks_up : (hash : BlockHash) → Keeps P (on_processor boxed (is_processed hash))
  pub forks : (bs : List BlockInfo) → Keeps P (on_processor boxed (process_fork x bs))
  pub processes : (block : BlockInfo) → Keeps P (on_processor client (process x block))

module _ (x : Externals) (node : Node) (P : Harvester → Type 0) (frame : IsFrame x P) where
  pub on_client-Keeps : {A : Type 0} (q : C A) → Keeps P (on_client q)
  on_client-Keeps q = record { at = λ h s. frame.calls h (q h.requests).1 s }

  get_fork_blocks-Keeps :
      (fuel : ℕ) (block : BlockInfo) → Keeps P (get_fork_blocks x node fuel block)
  unfolding get_fork_blocks
  get_fork_blocks-Keeps zero block = Keeps-raise _
  get_fork_blocks-Keeps (suc fuel) block = elim (Bool-cases (block.header.height == 0)) [
    | inl e ↦ rw (e, get_fork_blocks) (Keeps-pure _)
    | inr e ↦
        rw (e, get_fork_blocks)
          (Keeps-bind (on_processor boxed (is_processed block.header.hash)) _
            (frame.looks_up block.header.hash)
            (λ b. elim (Bool-cases b) [
              | inl t ↦ rw t (Keeps-pure _)
              | inr f ↦ rw f (elim (Option-cases block.header.previous_block_hash) [
                | inl n ↦ rw n (Keeps-pure _)
                | inr (p, n) ↦ rw n (
                    Keeps-bind (on_client (scan_block_by_hash node p)) _ (on_client-Keeps _)
                      (λ parent.
                        Keeps-bind (get_fork_blocks x node fuel parent) _
                          (get_fork_blocks-Keeps fuel parent) (λ _. Keeps-pure _)))
              ])
            ]))
  ]

  handle_reorg-Keeps : (block : BlockInfo) → Keeps P (handle_reorg x node block)
  unfolding handle_reorg
  handle_reorg-Keeps block =
      Keeps-bind (get_fork_blocks x node (suc block.header.height) block) _
        (get_fork_blocks-Keeps (suc block.header.height) block)
        (λ bs. elim (Option-cases (last bs)) [
          | inl e ↦ rw e Keeps-panic
          | inr (b, e) ↦ rw e (frame.forks bs)
        ])

  pub accept-Keeps : (prev block : BlockInfo) → Keeps P (accept x node prev block)
  unfolding accept
  accept-Keeps prev block = go block.header.previous_block_hash
    where
      go :
          (o : Option BlockHash)
          → Keeps P (elim o as (λ _. H (Unit {0})) [
            | none ↦ pure tt
            | some p ↦ elim (prev.header.hash == p) [
              | true ↦ on_processor client (process x block)
              | false ↦ handle_reorg x node block >> pure tt
            ]
          ])
      go none = Keeps-pure _
      go (some p) = elim (Bool-cases (prev.header.hash == p)) [
        | inl e ↦ rw e (frame.processes block)
        | inr e ↦ rw e (
            Keeps-bind (handle_reorg x node block) _ (handle_reorg-Keeps block) (λ _. Keeps-pure _))
      ]
