-- ===== src/Aggregator/Book.antt =====
-- The ledger as a book: what an address owns, whatever rows and hours this is spread over.
use btc_idx_service.Aggregator.Worth.{worth, IsArrangement, handle_event-Grows}
use btc_idx_service.Aggregator.Liveness.{handle_event-IsQuiet}
use btc_idx_service.Ledger.Totals.{amount_total, amount_total-perm, any_block}
use btc_idx_service.Prelude.{[], ◌∷◌, ◌≡◌, ◌==◌, ◌∙◌, refl, List, if◌then◌else◌, Perm, map, sym}
use btc_idx_service.Prelude.Run.{
  ok, err, panic, Outcome, Holds, Holds-mono, Holds-resume, Returns, Returns-Holds, Returns-resume,
}
use btc_idx_service.Prelude.Int.{pos, ℤ, ◌+ℤ◌, int_laws}
use btc_idx_service.Aggregator.State.{Aggregator}
use btc_idx_service.Types.{Address, P2trEvent, event}
use btc_idx_service.Aggregator.Defs.{start, handle_event, handle_message}
use btc_idx_service.Aggregator.Faults.{IsQuiet}

abbrev pub Book : Type 0
Book = Address → ℤ

-- An event is posted: its amount is added to its address.
abbrev pub post : P2trEvent → Book → Book
post e b a = b a +ℤ (if e.address == a then e.amount else pos 0)

abbrev pub post_all : List P2trEvent → Book → Book
post_all [] b = b
post_all (e ∷ es) b = post_all es (post e b)

-- The aggregator implements the book.
abbrev pub Refines : Aggregator → Book → Type 0
Refines g b = (a : Address) → worth a g.ledger ≡ b a

Holds-all :
    {S X A I : Type 0} (Q : I → A → S → Type 0) (r : Outcome X A × S)
    → ((i : I) → Holds (Q i) r)
    → Holds (λ a s. (i : I) → Q i a s) r
Holds-all Q (ok a, s) h = h
Holds-all Q (err e, s) h = tt
Holds-all Q (panic, s) h = tt

post_all-eq :
    (es : List P2trEvent) (b : Book) (a : Address)
    → post_all es b a ≡ b a +ℤ amount_total any_block a es
unfolding amount_total
post_all-eq [] b a = grind int_laws
post_all-eq (e ∷ es) b a = rw (post_all-eq es (post e b) a) (grind int_laws)

-- The order of the events does not matter to the book.
post_all-perm :
    (es ks : List P2trEvent) (b : Book) (a : Address)
    → Perm es ks
    → post_all es b a ≡ post_all ks b a
post_all-perm es ks b a d =
    rw (post_all-eq es b a, post_all-eq ks b a, amount_total-perm any_block a d) refl

module _ (arrange : List P2trEvent → List P2trEvent) (arranged : IsArrangement arrange) where
  handle_event-Refines :
      (e : P2trEvent) (g : Aggregator) (b : Book)
      → Refines g b
      → Holds (λ _ g'. Refines g' (post e b)) (handle_event arrange e g)
  handle_event-Refines e g b h =
      Holds-all (λ a _ g'. worth a g'.ledger ≡ post e b a) (handle_event arrange e g)
        (λ a.
          Holds-mono
            (λ _ g'.
              worth a g'.ledger ≡ worth a g.ledger +ℤ (if e.address == a then e.amount else pos 0))
            (λ _ g'. worth a g'.ledger ≡ post e b a) (handle_event arrange e g)
            (handle_event-Grows arrange arranged a e g) (λ _ g' k. rw (k, h a) refl))

  start_in_order-Refines :
      (es : List P2trEvent) (g : Aggregator) (b : Book)
      → Refines g b
      → Holds (λ _ g'. Refines g' (post_all es b)) (start arrange (map event es) g)
  unfolding start handle_message
  start_in_order-Refines [] g b h = h
  start_in_order-Refines (e ∷ es) g b h =
      Holds-resume (λ _ g'. Refines g' (post e b)) (λ _ g'. Refines g' (post_all (e ∷ es) b))
        (handle_event arrange e g) (λ _. start arrange (map event es))
        (handle_event-Refines e g b h) (λ _ g' k. start_in_order-Refines es g' (post e b) k)

  start_events-IsQuiet :
      (es : List P2trEvent) (g : Aggregator)
      → IsQuiet g
      → Returns (λ _ _. Unit {0}) (start arrange (map event es) g)
  unfolding start handle_message
  start_events-IsQuiet [] g q = tt
  start_events-IsQuiet (e ∷ es) g q =
      Returns-resume (λ _ g'. IsQuiet g') (λ _ _. Unit {0}) (handle_event arrange e g)
        (λ _. start arrange (map event es)) (handle_event-IsQuiet arrange e g q)
        (λ _ g' q'. start_events-IsQuiet es g' q')

  -- The aggregator refines the book: if its ledger stands for a book, then, without faults and with
  -- readable pending rows, it handles events in any order, returns, and its ledger stands for the book
  -- with these events posted, whether they are recorded or still pending.
  pub start-Refines :
      (es ks : List P2trEvent) (g : Aggregator) (b : Book)
      → Perm es ks
      → IsQuiet g
      → Refines g b
      → Returns (λ _ g'. Refines g' (post_all es b)) (start arrange (map event ks) g)
  start-Refines es ks g b d q h =
      Returns-Holds (λ _ g'. Refines g' (post_all es b)) (start arrange (map event ks) g)
        (start_events-IsQuiet ks g q)
        (Holds-mono (λ _ g'. Refines g' (post_all ks b)) (λ _ g'. Refines g' (post_all es b))
          (start arrange (map event ks) g) (start_in_order-Refines ks g b h)
          (λ _ g' k a. k a ∙ sym (post_all-perm es ks b a d)))
