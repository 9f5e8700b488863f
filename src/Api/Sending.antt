-- ===== src/Api/Sending.antt =====
-- What the handlers under protected do to the channel.

use btc_idx_service.Prelude.{
  [], ◌∷◌, ◌≡◌, ◌++◌, ◌⊎◌, inl, inr, refl, none, some, Bool, true, false, Bool-cases, ltb, ℕ,
}
use btc_idx_service.Prelude.Run.{ok, err, panic, Outcome}
use btc_idx_service.Harvester.{Command}
use btc_idx_service.Harvester
use btc_idx_service.Commands.{Channel, send_command}
use btc_idx_service.Api.Protected
use btc_idx_service.Api.Defs.{ApiError}

abbrev pub is_ok : {A : Type 0} → Outcome ApiError A → Bool
is_ok (ok a) = true
is_ok (err e) = false
is_ok panic = false

-- A handler has put one command on the channel and returned, or it has left the channel as it was.
abbrev pub Adds : Outcome ApiError (Unit {0}) × Channel → Channel → Type 0
Adds r ch =
    ((is_ok r.0 ≡ true) × (c : Command) × (r.1 ≡ record ch { queue = ch.queue ++ c ∷ [] }))
    ⊎ ((is_ok r.0 ≡ false) × (r.1 ≡ ch))

sent-Adds : (c : Command) (ch : Channel) → Adds (Protected.or_other (send_command c ch)) ch
sent-Adds c ch = elim (Bool-cases ch.receiving) [
  | inl e ↦ rw e (inl (refl, c, refl))
  | inr e ↦ rw e (inr (refl, refl))
]

scan_block-Adds : (from to : ℕ) (ch : Channel) → Adds (Protected.scan_block from to ch) ch
unfolding Protected.scan_block
scan_block-Adds from to ch = elim (Bool-cases (ltb to from)) [
  | inl e ↦ rw e (inr (refl, refl))
  | inr e ↦ rw e (sent-Adds (Harvester.scan_blocks from to) ch)
]

pub handle-Adds : (e : Protected.Endpoint) (ch : Channel) → Adds (Protected.handle e ch) ch
unfolding Protected.pause_harvester Protected.resume_harvester Protected.terminate_harvester
handle-Adds Protected.pausing ch = sent-Adds Harvester.pause ch
handle-Adds Protected.resuming ch = sent-Adds Harvester.auto_scan ch
handle-Adds Protected.terminating ch = sent-Adds Harvester.terminate ch
handle-Adds (Protected.scanning none to) ch = inr (refl, refl)
handle-Adds (Protected.scanning (some from) none) ch = inr (refl, refl)
handle-Adds (Protected.scanning (some from) (some to)) ch = scan_block-Adds from to ch

-- Where nobody receives commands, no handler of one returns.
sent_closed :
    (c : Command) (ch : Channel)
    → ch.receiving ≡ false
    → is_ok (Protected.or_other (send_command c ch)).0 ≡ false
sent_closed c ch closed = rw closed refl

scan_block_closed :
    (from to : ℕ) (ch : Channel)
    → ch.receiving ≡ false
    → is_ok (Protected.scan_block from to ch).0 ≡ false
unfolding Protected.scan_block
scan_block_closed from to ch closed = elim (Bool-cases (ltb to from)) [
  | inl e ↦ rw e refl
  | inr e ↦ rw e (sent_closed (Harvester.scan_blocks from to) ch closed)
]

pub handle_closed :
    (e : Protected.Endpoint) (ch : Channel)
    → ch.receiving ≡ false
    → is_ok (Protected.handle e ch).0 ≡ false
unfolding Protected.pause_harvester Protected.resume_harvester Protected.terminate_harvester
handle_closed Protected.pausing ch h = sent_closed Harvester.pause ch h
handle_closed Protected.resuming ch h = sent_closed Harvester.auto_scan ch h
handle_closed Protected.terminating ch h = sent_closed Harvester.terminate ch h
handle_closed (Protected.scanning none to) ch h = refl
handle_closed (Protected.scanning (some from) none) ch h = refl
handle_closed (Protected.scanning (some from) (some to)) ch h = scan_block_closed from to ch h
