-- ===== src/Services/Environment.antt =====
-- src/services/environment_service.cpp: the cache of environment regions. Its entries are shared
-- pointers, so an update is seen by everybody who holds the pointer.
pub mod Cache
pub mod Requests
use reflect_pytest.Prelude.{
  ℕ, ◌+◌, Bool, ◌&&◌, ltb, ◌==◌, if◌then◌else◌, Option, none, some, List, [], ◌∷◌, ◌++◌, length,
  get_elem?, set,
}
use reflect_pytest.Float.{Float}
use reflect_pytest.Messages.{Msg, EnvironmentPayload, InternalEnvRequestPayload}
use reflect_pytest.World.{
  Platform, LogCall, Cmd, ◌>>◌, ◌>>=◌, done, modify, the, with_lock, environment_mu,
}
use reflect_pytest.Services.Log.{log_info}

module _ {F : Type 0} where
  -- std::find_if by the region; the outer `none` is a read through a dangling pointer.
  unfoldable pub find_region : List (EnvironmentPayload F) → List ℕ → ℕ → Option (Option ℕ)
  find_region heap [] region = some none
  find_region heap (p ∷ ps) region = elim (get_elem? heap p) [
    | none ↦ none
    | some e ↦ if e.region_id == region then some (some p) else find_region heap ps region
  ]

  -- What the update does where the search ended: `**it = env`, or a push of a new allocation.
  unfoldable pub store : EnvironmentPayload F → Option ℕ → Cmd F
  store env (some p) = modify (λ w. record w { heap = set w.heap p env })
  store env none = modify (λ w. record w {
    heap = w.heap ++ env ∷ [];
    environment = record w.environment { cache = w.environment.cache ++ length w.heap ∷ [] };
  })

module _ {F : Type 0} ⦃fl : Float F⦄ where
  -- The request lies within the bounds of the region.
  abbrev pub covers : EnvironmentPayload F → InternalEnvRequestPayload F → Bool
  covers e req =
      fl.le e.bounds.min_pt.x req.x
      && fl.le req.x e.bounds.max_pt.x
      && fl.le e.bounds.min_pt.y req.y
      && fl.le req.y e.bounds.max_pt.y

  -- The loop over the cache: the first entry that covers the request, with what it points to.
  unfoldable pub find_covering :
      List (EnvironmentPayload F)
      → List ℕ
      → InternalEnvRequestPayload F
      → Option (Option (ℕ × EnvironmentPayload F))
  find_covering heap [] req = some none
  find_covering heap (p ∷ ps) req = elim (get_elem? heap p) [
    | none ↦ none
    | some e ↦ if covers e req then some (some (p, e)) else find_covering heap ps req
  ]

-- milliseconds(500) in ticks of the clock.
abbrev pub throttle_ns : ℕ
throttle_ns = 500_000_000

module _ {F : Type 0} ⦃fl : Float F⦄ ⦃pl : Platform F⦄ (publish : Msg F → Cmd F) where
  abbrev info : LogCall F → Cmd F
  info = log_info "env"

  unfoldable pub on_environment : EnvironmentPayload F → Cmd F
  unfolding store
  on_environment env = with_lock environment_mu do
    found ← (λ w. find_region w.heap w.environment.cache env.region_id)
    store env found
    info (
        LogCall.environment_updated env.region_id env.ambient_temp_c env.incline_percent
          env.surface_friction)
    publish (Msg.environment_ack (record { region_id = env.region_id }))

  -- The end of the handler: a hit shares the pointer, a miss asks outside, at most twice a second.
  unfoldable pub answer : InternalEnvRequestPayload F → Option (ℕ × EnvironmentPayload F) → Cmd F
  answer req (some (p, e)) =
      info (LogCall.internal_pointer_hit e.region_id)
      >> publish (Msg.internal_env_data (record { ptr = p }))
  answer req none = do
    now ← the (λ w. w.now)
    last ← the (λ w. w.environment.last_request_time)
    -- now - last > 500 ms
    if ltb (last + throttle_ns) now
        then (do
          info (LogCall.internal_miss req.x req.y)
          publish (
              Msg.environment_request
                (record { target_location = record { x = req.x; y = req.y } }))
          modify (λ w. record w { environment = record w.environment { last_request_time = now } }))
        else done

  unfoldable pub on_internal_env_request : InternalEnvRequestPayload F → Cmd F
  unfolding answer
  on_internal_env_request req =
      with_lock environment_mu
        do hit ← (λ w. find_covering w.heap w.environment.cache req); answer req hit
