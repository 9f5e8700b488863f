-- ===== src/System/Shutdown.antt =====
-- How the task of the harvester ends after the signal to shut down.
use btc_idx_service.Commands
use btc_idx_service.System.Running.{
  Running, Step, Runs, asked, commanded, harvested, cut_short, handled, signalled, turned, cleaned,
  idle, next, site, goes_on, signal,
}
use btc_idx_service.Api.Service.{Site, Web, get, post, other_verb, Verb, Response, service}
use btc_idx_service.Api.Effects.{Effect, service-Effect}
use btc_idx_service.Harvester.{Command}
use btc_idx_service.Harvester
use btc_idx_service.Prelude.{
  [], ◌∷◌, ◌++◌, ◌≡◌, ◌⊎◌, inl, inr, List, ℕ, length, suc, ◌∙◌, ap, sym, append_assoc, append-nil,
  ◌+◌, refl, some, true, false, ◌≤◌, arith, subst, Bool-cases,
}
use btc_idx_service.Processor.{Externals}
use btc_idx_service.Types.{P2trEvent}
use btc_idx_service.Commands.{Channel}
use btc_idx_service.Prelude.Run.{Outcome}
use btc_idx_service.System.Stopped.{Effect-receiving, terminate-receiving}

-- The commands end with some others.
abbrev Extends : List Command → List Command → Type 0
Extends cs cs' = (more : List Command) × (cs' ≡ cs ++ more)

Effect-Extends :
    (v : Verb) (s : Site) (a : Response × Site)
    → Effect v s a
    → Extends s.channel.queue a.1.channel.queue
Effect-Extends get s a e =
    ([], ap (λ (t : Site). t.channel.queue) e ∙ sym (append-nil s.channel.queue))
Effect-Extends post s a (inl (_, (c, e))) = (c ∷ [], ap (λ (t : Site). t.channel.queue) e)
Effect-Extends post s a (inr (_, e)) =
    ([], ap (λ (t : Site). t.channel.queue) e ∙ sym (append-nil s.channel.queue))
Effect-Extends other_verb s a e =
    ([], ap (λ (t : Site). t.channel.queue) e ∙ sym (append-nil s.channel.queue))

-- The command to terminate waits behind `n` others.
abbrev Waits : ℕ → List Command → Type 0
Waits n cs =
    (before : List Command) × (after : List Command) × (cs ≡ before ++ Harvester.terminate ∷ after)
    × (length before ≡ n)

Waits-Extends : (n : ℕ) (cs cs' : List Command) → Extends cs cs' → Waits n cs → Waits n cs'
Waits-Extends n cs cs' (more, e) (before, after, f, g) = (
  before,
  after ++ more,
  e ∙ ap (λ ds. ds ++ more) f ∙ append_assoc before (Harvester.terminate ∷ after) more,
  g,
)

Waits-nothing : (n : ℕ) → Waits n [] → ⊥
Waits-nothing n ([], after, f, g) = cc
Waits-nothing n (b ∷ before, after, f, g) = cc

terminate-Extends : (ch : Channel) → Extends ch.queue (Commands.terminate ch).1.queue
terminate-Extends ch = elim (Bool-cases ch.receiving) [
  | inl e ↦ rw e (Harvester.terminate ∷ [], refl)
  | inr e ↦ rw e ([], sym (append-nil ch.queue))
]

-- What taking the first command leaves to wait for.
Waits-taken :
    (n : ℕ) (c : Command) (cs : List Command)
    → Waits n (c ∷ cs)
    → ((n ≡ 0) × (c ≡ Harvester.terminate)) ⊎ ((m : ℕ) × (n ≡ suc m) × Waits m cs)
Waits-taken n c cs ([], after, f, g) = inl (sym g, cc)
Waits-taken n c cs (b ∷ before, after, f, g) = inr (length before, sym g, (before, after, cc, refl))

module _ (x : Externals) (arrange : List P2trEvent → List P2trEvent) (web : Web) where
  abbrev commands_of : {r t : Running} → Step x arrange web r t → ℕ
  commands_of (asked req) = 0
  commands_of (commanded node c cs _ _) = 1
  commands_of (harvested node _ _) = 0
  commands_of (cut_short node faults c cs _ _) = 0
  commands_of (handled m ms _ _ _) = 0
  commands_of signalled = 0
  commands_of (turned _ _ _) = 0
  commands_of (cleaned m ms _ _ _) = 0

  -- How many commands the harvester takes.
  abbrev pub taken : {r t : Running} → Runs x arrange web r t → ℕ
  taken idle = 0
  taken (next runs step) = taken runs + commands_of step

  -- Of `limit` commands before the one to terminate `k` are taken, or the task has ended.
  abbrev Ends : ℕ → ℕ → Channel → Type 0
  Ends limit k ch =
      ((ch.receiving ≡ false) × (k ≤ limit + 1))
      ⊎ ((n : ℕ) × (ch.receiving ≡ true) × Waits n ch.queue × (n + k ≡ limit))

  -- The channel has got more commands.
  Ends-Extends :
      (limit k : ℕ) (ch ch' : Channel)
      → ch'.receiving ≡ ch.receiving
      → Extends ch.queue ch'.queue
      → Ends limit k ch
      → Ends limit (k + 0) ch'
  Ends-Extends limit k ch ch' e more (inl (ended, bound)) = inl (e ∙ ended, omega arith)
  Ends-Extends limit k ch ch' e more (inr (n, on, waits, sum)) =
      inr (n, e ∙ on, Waits-Extends n ch.queue ch'.queue more waits, omega arith)

  -- The harvester has taken a command.
  Ends-taken :
      (limit k : ℕ) (ch : Channel) (c : Command) (cs : List Command)
      (o : Outcome Harvester.Stop (Unit {0}) × Harvester.Harvester)
      → ch.receiving ≡ true
      → ch.queue ≡ c ∷ cs
      → Ends limit k ch
      → Ends limit (k + 1) (record { queue = cs; receiving = goes_on c o })
  Ends-taken limit k ch c cs o on q (inl (ended, bound)) = absurd (ground (arith, on, ended))
  Ends-taken limit k ch c cs o on q (inr (n, _, waits, sum)) =
      elim (Waits-taken n c cs (subst (Waits n) q waits)) [
        | inl (done, last) ↦ inl (ap (λ d. goes_on d o) last, omega arith)
        | inr (m, up, rest) ↦ elim (Bool-cases (goes_on c o)) [
          | inl e ↦ inr (m, e, rest, omega arith)
          | inr e ↦ inl (e, omega arith)
        ]
      ]

  Step-Ends :
      (limit k : ℕ) (r t : Running) (step : Step x arrange web r t)
      → Ends limit k r.channel
      → Ends limit (k + commands_of step) t.channel
  Step-Ends limit k r _ (asked req) h =
      let effect = service-Effect web req (site r) in
      Ends-Extends limit k r.channel (service web req (site r)).1.channel
        (Effect-receiving req.verb (site r) (service web req (site r)) effect)
        (Effect-Extends req.verb (site r) (service web req (site r)) effect) h
  Step-Ends limit k r _ (commanded node c cs on q) h =
      Ends-taken limit k r.channel c cs
        (Harvester.start x node (Harvester.received (some c) ∷ []) r.harvester) on q h
  Step-Ends limit k r _ (harvested node on q) h = elim h [
    | inl (ended, bound) ↦ absurd (ground (arith, on, ended))
    | inr (n, _, waits, sum) ↦ absurd (Waits-nothing n (subst (Waits n) q waits))
  ]
  Step-Ends limit k r _ (cut_short node faults c cs on q) h =
      Ends-Extends limit k r.channel (record { queue = c ∷ cs; receiving = true }) (sym on)
        ([], sym q ∙ sym (append-nil r.channel.queue)) h
  Step-Ends limit k r _ (handled m ms _ _ _) h =
      Ends-Extends limit k r.channel r.channel refl ([], sym (append-nil r.channel.queue)) h
  Step-Ends limit k r _ signalled h =
      Ends-Extends limit k r.channel (signal r).channel (terminate-receiving r.channel)
        (terminate-Extends r.channel) h
  Step-Ends limit k r _ (turned _ _ _) h =
      Ends-Extends limit k r.channel r.channel refl ([], sym (append-nil r.channel.queue)) h
  Step-Ends limit k r _ (cleaned m ms _ _ _) h =
      Ends-Extends limit k r.channel r.channel refl ([], sym (append-nil r.channel.queue)) h

  Runs-Ends :
      (limit : ℕ) (r t : Running) (runs : Runs x arrange web r t)
      → Ends limit 0 r.channel
      → Ends limit (taken runs) t.channel
  Runs-Ends limit r _ idle h = h
  Runs-Ends limit r t (next {t = u} runs step) h =
      Step-Ends limit (taken runs) u t step (Runs-Ends limit r u runs h)

  signal-Ends :
      (r : Running)
      → r.channel.receiving ≡ true
      → Ends (length r.channel.queue) 0 (signal r).channel
  signal-Ends r on =
      rw on (inr (length r.channel.queue, refl, (r.channel.queue, [], refl, refl), omega arith))

  -- After the signal to shut down, whatever requests, harvests, messages and further signals come: the
  -- harvester takes at most the commands that were waiting and one more, and until its task has ended
  -- there is a command for it to take.
  pub signal-ends_harvester :
      (r t : Running) (runs : Runs x arrange web (signal r) t)
      → r.channel.receiving ≡ true
      → (taken runs ≤ length r.channel.queue + 1)
        × ((t.channel.receiving ≡ false)
            ⊎ ((c : Command) × (cs : List Command) × (t.channel.queue ≡ c ∷ cs)))
  signal-ends_harvester r t runs on =
      elim (Runs-Ends (length r.channel.queue) (signal r) t runs (signal-Ends r on)) [
        | inl (ended, bound) ↦ (bound, inl ended)
        | inr (n, _, ([], after, e, _), sum) ↦ (omega arith, inr (Harvester.terminate, after, e))
        | inr (n, _, (c ∷ cs, after, e, _), sum) ↦
            (omega arith, inr (c, cs ++ Harvester.terminate ∷ after, e))
      ]
