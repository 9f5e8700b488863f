-- ===== src/Processor/Fork.antt =====
-- What the processor tells the aggregator about a fork.
use btc_idx_service.Processor.Messages.{process_block-Sends, Sends, IsEventOf, returned}
use btc_idx_service.Prelude.{
  some, [], inl, inr, ◌∷◌, ◌≡◌, ◌++◌, refl, List, All, last, sym, append-nil, Bool-cases,
  append_assoc, none, Option,
}
use btc_idx_service.Types.{BlockInfo, AggregatorMsg, reorg_from, P2trEvent}
use btc_idx_service.Sql.{Statement}
use btc_idx_service.Processor.State.{Externals, World, exec, send_unwrap, M}
use btc_idx_service.Processor.Defs.{process_blocks, process_fork, process_block}
use btc_idx_service.Chain.{Chain, delete_blocks_since, unspend_utxos_spent_since_block}
use btc_idx_service.Prelude.Run.{Holds, Holds-resume, Holds-mono, panic, ◌>>◌, pure}
use btc_idx_service.Processor.Rules.{Commits-Holds, Holds-exec, Commits-in_transaction}

-- The messages of the blocks, one after the other.
abbrev pub AreSentFor : List BlockInfo → List AggregatorMsg → Type 0
AreSentFor [] ms = ms ≡ []
AreSentFor (block ∷ rest) ms =
    (ks : List AggregatorMsg) × (ls : List AggregatorMsg) × (ms ≡ ks ++ ls)
    × All (IsEventOf block.header.height) ks
    × AreSentFor rest ls

-- The reorganisation from the last of the blocks on, and then the messages of the blocks.
abbrev pub Announces : List BlockInfo → List AggregatorMsg → List AggregatorMsg → Type 0
Announces bs before after =
    (origin : BlockInfo) × (ms : List AggregatorMsg) × (last bs ≡ some origin)
    × (after ≡ before ++ (reorg_from origin.header.height ∷ ms))
    × AreSentFor bs ms

exec-same :
    {A : Type 0} (q : Statement Chain A) (w : World) → Holds (λ _ w'. w'.sent ≡ w.sent) (exec q w)
exec-same q w = Holds-exec (λ _ _. Unit) _ q w (returned (q w.chain)) (λ _ w' _ s. s)

send-appends :
    (m : AggregatorMsg) (w : World) → Holds (λ _ w'. w'.sent ≡ w.sent ++ m ∷ []) (send_unwrap m w)
send-appends m w = elim (Bool-cases w.receiving) [
  | inl open_end ↦ rw open_end refl
  | inr closed_end ↦ rw closed_end tt
]

module _ (x : Externals) where
  process_blocks-Sends :
      (bs : List BlockInfo) (w : World)
      → Holds
          (λ _ w'. (ms : List AggregatorMsg) × (w'.sent ≡ w.sent ++ ms) × AreSentFor bs ms)
          (process_blocks x bs w)
  unfolding process_blocks
  process_blocks-Sends [] w = ([], sym (append-nil w.sent), refl)
  process_blocks-Sends (block ∷ rest) w =
      Holds-resume (Sends block.header.height w) _ (process_block x block w)
        (λ _. process_blocks x rest) (process_block-Sends x block w)
        (λ _ w₁ (ks, e, h).
          Holds-mono
            (λ _ w'. (ms : List AggregatorMsg) × (w'.sent ≡ w₁.sent ++ ms) × AreSentFor rest ms) _
            (process_blocks x rest w₁) (process_blocks-Sends rest w₁)
            (λ _ w₂ (ls, f, k).
              (ks ++ ls, rw (f, e) (append_assoc w.sent ks ls), (ks, ls, refl, h, k))))

  abbrev replace : List BlockInfo → Option BlockInfo → M (List P2trEvent)
  replace bs o = elim o [
    | none ↦ λ w. (panic, w)
    | some origin ↦ do
      exec (delete_blocks_since origin.header.height)
      exec (unspend_utxos_spent_since_block origin.header.height)
      send_unwrap (reorg_from origin.header.height)
      process_blocks x bs
      pure []
  ]

  replace-Announces :
      (bs : List BlockInfo) (o : Option BlockInfo) (w : World)
      → last bs ≡ o
      → Holds (λ _ w'. Announces bs w.sent w'.sent) (replace bs o w)
  replace-Announces bs none w e = tt
  replace-Announces bs (some origin) w e =
      let n = origin.header.height in
      Holds-resume (λ _ w₁. w₁.sent ≡ w.sent) _ (exec (delete_blocks_since n) w) _
        (exec-same (delete_blocks_since n) w)
        (λ _ w₁ e₁.
          Holds-resume (λ _ w₂. w₂.sent ≡ w₁.sent) _ (exec (unspend_utxos_spent_since_block n) w₁) _
            (exec-same (unspend_utxos_spent_since_block n) w₁)
            (λ _ w₂ e₂.
              Holds-resume (λ _ w₃. w₃.sent ≡ w₂.sent ++ reorg_from n ∷ []) _
                (send_unwrap (reorg_from n) w₂) _ (send-appends (reorg_from n) w₂)
                (λ _ w₃ e₃.
                  Holds-resume
                    (λ _ w₄.
                      (ms : List AggregatorMsg) × (w₄.sent ≡ w₃.sent ++ ms) × AreSentFor bs ms)
                    _ (process_blocks x bs w₃) _ (process_blocks-Sends bs w₃)
                    (λ _ w₄ (ms, e₄, h). (
                      origin,
                      ms,
                      e,
                      rw (e₄, e₃, e₂, e₁) (append_assoc w.sent (reorg_from n ∷ []) ms),
                      h,
                    )))))

  -- A fork that is replaced is told to the aggregator as one reorganisation from the height of the
  -- last of the blocks on, before any event, and then block by block in the order of the list, which
  -- is the newest block first, each block by events of its own height.
  pub process_fork-Announces :
      (bs : List BlockInfo) (w : World)
      → Holds (λ _ w'. Announces bs w.sent w'.sent) (process_fork x bs w)
  unfolding process_fork
  process_fork-Announces bs w =
      Commits-Holds w (λ _ w'. Announces bs w.sent w'.sent) (process_fork x bs w)
        (Commits-in_transaction (λ _ _ sent. Announces bs w.sent sent) (replace bs (last bs)) w
          (λ v c s. rw (← s) (replace-Announces bs (last bs) v refl)))
