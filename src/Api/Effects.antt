-- ===== src/Api/Effects.antt =====
-- What a request can change.
use btc_idx_service.Api.Protected
use btc_idx_service.Api.Service.{
  Web, respond, Site, Response, Request, service, Verb, shown, post, ok_text, get, resource,
  handled, other_verb, nothing,
}
use btc_idx_service.Prelude.{
  [], ◌∷◌, ◌≡◌, ◌++◌, ◌⊎◌, inl, inr, refl, none, some, Bool, true, false, Option, ◌∙◌, ◌==◌, ap,
}
use btc_idx_service.Prelude.Run.{ok, err, panic, Outcome}
use btc_idx_service.Harvester.{Command}
use btc_idx_service.Api.Defs.{ApiError}
use btc_idx_service.Api.Sending.{handle_closed, is_ok, handle-Adds}
use btc_idx_service.Api.Unchanged.{shown-Same}

-- A request is answered as a handler of a command answers that has sent it.
abbrev pub is_done : Response → Bool
is_done (some (n, ok_text)) = n == 200
is_done (some (n, body)) = false
is_done none = false

-- A command has been put on the channel, and nothing else changed.
abbrev pub Sends : Site → Site → Type 0
Sends s s' =
    (c : Command) × (s'
      ≡ record s { channel = record s.channel { queue = s.channel.queue ++ c ∷ [] } })

abbrev pub Effect : Verb → Site → Response × Site → Type 0
Effect get s r = r.1 ≡ s
Effect post s r = ((is_done r.0 ≡ true) × Sends s r.1) ⊎ ((is_done r.0 ≡ false) × (r.1 ≡ s))
Effect other_verb s r = r.1 ≡ s

module _ (web : Web) where
  is_done-respond : (o : Outcome ApiError (Unit {0})) → is_done (respond (λ _. ok_text) o) ≡ is_ok o
  is_done-respond (ok a) = refl
  is_done-respond (err e) = refl
  is_done-respond panic = refl

  handled-Effect :
      (e : Option Protected.Endpoint) (req : Request) (s : Site)
      → Effect post s (handled web e req s)
  handled-Effect none req s = inr (refl, refl)
  handled-Effect (some e) req s = elim (handle-Adds e s.channel) [
    | inl (done, c, sent) ↦ inl (
      is_done-respond (Protected.handle e s.channel).0 ∙ done,
      (c, ap (λ ch. record s { channel = ch }) sent),
    )
    | inr (failed, same) ↦ inr (
      is_done-respond (Protected.handle e s.channel).0 ∙ failed,
      ap (λ ch. record s { channel = ch }) same,
    )
  ]

  -- On every path, with every query and in every state, a GET changes neither the database nor the
  -- channel; a POST leaves the database as it is and puts exactly one command at the end of the
  -- channel where it is answered as done, with 200 and the text OK, and none otherwise; and a request of
  -- another method changes nothing.
  pub service-Effect : (req : Request) (s : Site) → Effect req.verb s (service web req s)
  unfolding service
  service-Effect req s = go req.verb
    where
      go :
          (v : Verb)
          → Effect v s (elim v as (λ _. Response × Site) [
            | get ↦ shown web (resource web req.path) req s
            | post ↦ handled web (Protected.route web.number req.path) req s
            | other_verb ↦ (some (web.unmatched req.verb req.path, nothing), s)
          ])
      go get = shown-Same web (resource web req.path) req s
      go post = handled-Effect (Protected.route web.number req.path) req s
      go other_verb = refl

  handled_closed :
      (e : Option Protected.Endpoint) (req : Request) (s : Site)
      → s.channel.receiving ≡ false
      → is_done (handled web e req s).0 ≡ false
  handled_closed none req s closed = refl
  handled_closed (some e) req s closed =
      is_done-respond (Protected.handle e s.channel).0 ∙ handle_closed e s.channel closed

  -- Where nobody receives commands, no POST is answered as done.
  pub post_to_closed :
      (req : Request) (s : Site)
      → req.verb ≡ post
      → s.channel.receiving ≡ false
      → is_done (service web req s).0 ≡ false
  unfolding service
  post_to_closed req s posts closed =
      rw posts
        (handled_closed (Protected.route web.number req.path) (record req { verb = post }) s closed)
