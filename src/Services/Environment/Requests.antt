-- ===== src/Services/Environment/Requests.antt =====
-- Requests for the environment at a place: which cached region answers them, and how often a request
-- goes outside.
use reflect_pytest.Prelude.{
  ℕ, ◌+◌, ◌≤◌, ◌<◌, ◌≡◌, sym, ◌∙◌, ap, inl, inr, true, false, none, some, List, [], ◌∷◌, ◌++◌,
  get_elem?, All, arith, Bool-cases, Option-cases,
}
use mathlib.Core.Option.{some-injective}
use reflect_pytest.Float.{Float}
use reflect_pytest.Messages.{Msg, EnvironmentPayload, InternalEnvRequestPayload}
use reflect_pytest.World.{World, Platform, LogCall, Cmd, environment_mu}
use reflect_pytest.Services.Environment.{
  covers, find_covering, answer, on_internal_env_request, throttle_ns,
}
use reflect_pytest.Safety.Rules.{took, with_lock-InOrder}
use reflect_pytest.Safety.Log.{log_info-eq}

module _ {F : Type 0} ⦃fl : Float F⦄ where
  -- A pointer to a region that does not cover the request.
  abbrev pub PassedOver : List (EnvironmentPayload F) → InternalEnvRequestPayload F → ℕ → Type 0
  PassedOver heap req q =
      (e : EnvironmentPayload F) × (get_elem? heap q ≡ some e) × (covers e req ≡ false)

  -- The region found covers the request, and stands in the cache before every other one that does: a
  -- pointer of the cache leads to it, and those before that pointer lead to regions that do not
  -- cover the request.
  pub find_covering_first :
      (heap : List (EnvironmentPayload F)) (ps : List ℕ) (req : InternalEnvRequestPayload F) (p : ℕ)
      (e : EnvironmentPayload F)
      → find_covering heap ps req ≡ some (some (p, e))
      → (get_elem? heap p ≡ some e)
        × (covers e req ≡ true)
        × ((before : List ℕ) × (after : List ℕ) × (ps ≡ before ++ p ∷ after)
            × All (PassedOver heap req) before)
  unfolding find_covering
  find_covering_first heap [] req p e h = cc
  find_covering_first heap (q ∷ ps) req p e h = elim (Option-cases (get_elem? heap q)) [
    | inl dangling ↦ ground arith
    | inr (d, found) ↦ elim (Bool-cases (covers d req)) [
      | inl yes_it_does ↦
          let same : some (some (q, d)) ≡ some (some (p, e)) =
            rw (find_covering, found, yes_it_does) at h in
          let pair : (q, d) ≡ (p, e) = some-injective _ _ (some-injective _ _ same) in
          let ptr : q ≡ p = ap (λ x. x.0) pair in
          let region : d ≡ e = ap (λ x. x.1) pair in
          (
            rw (← ptr, ← region) found,
            rw (← region) yes_it_does,
            ([], ps, ap (λ x. x ∷ ps) ptr, tt),
          )
      | inr it_does_not ↦
          let rest : find_covering heap ps req ≡ some (some (p, e)) =
            rw (find_covering, found, it_does_not) at h in
          let (leads, covered, (before, after, split, passed)) =
            find_covering_first heap ps req p e rest in
          (
            leads,
            covered,
            (q ∷ before, after, ap (λ l. q ∷ l) split, ((d, found, it_does_not), passed)),
          )
    ]
  ]

module _ {F : Type 0} ⦃fl : Float F⦄ ⦃pl : Platform F⦄ (publish : Msg F → Cmd F) where
  -- A request that goes outside is the last one for half a second: it sets the time of the last
  -- request, and from any later state with that member, up to half a second on, a request that the cache does not
  -- cover changes nothing. Assumed: the first request was not covered either, and came more than half a second after
  -- the one before it.
  pub requests_spaced :
      (req : InternalEnvRequestPayload F) (w w' : World F)
      → find_covering w.heap w.environment.cache req ≡ some none
      → w.environment.last_request_time + throttle_ns < w.now
      → on_internal_env_request publish req [] w ≡ some w'
      → (w'.environment.last_request_time ≡ w.now)
        × ((next : InternalEnvRequestPayload F) (v : World F)
            → v.environment.last_request_time ≡ w'.environment.last_request_time
            → find_covering v.heap v.environment.cache next ≡ some none
            → v.now ≤ w.now + throttle_ns
            → on_internal_env_request publish next [] v ≡ some (took environment_mu [] v))
  unfolding on_internal_env_request answer
  requests_spaced req w w' miss late e =
      let ran = sym (with_lock-InOrder environment_mu _ [] w (inr tt)) ∙ e in
      let set_time : w'.environment.last_request_time ≡ w.now = ground (
        arith,
        ran,
        log_info-eq "env" (LogCall.internal_miss req.x req.y) (environment_mu ∷ [])
            (took environment_mu [] w) (omega arith, tt),
      ) in
      (
        set_time,
        λ next v same miss' soon.
            rw (with_lock-InOrder environment_mu _ [] v (inr tt), miss') (ground arith),
      )
