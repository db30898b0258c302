-- ===== src/Services/Log.antt =====
-- src/component_logger.cpp and src/services/log_service.cpp: the loggers write into the queue of the
-- log service, whose worker thread prints and publishes what it finds there.
use Prim.Native.String.{String}
use reflect_pytest.Prelude.{
  chars, ℕ, zero, suc, Bool, none, some, length, ◌==◌, ◌+◌, ◌%◌, ◌^◌, if◌then◌else◌, List, [], ◌∷◌,
  ◌++◌, take,
}
use reflect_pytest.Messages.{Severity, info, LogPayload, Msg}
use reflect_pytest.World.{
  World, Platform, LogCall, Cmd, ◌>>◌, ◌>>=◌, done, modify, the, locked, with_lock, log_mu,
}

module _ {F : Type 0} where
  -- LogService::log.
  unfoldable pub log : LogPayload → Cmd F
  log p =
      with_lock log_mu
        (modify λ w. record w { logs = record w.logs { queue = w.logs.queue ++ p ∷ [] } })

module _ {F : Type 0} ⦃pl : Platform F⦄ where
  -- The payload that log_valist fills: `vsnprintf` keeps 254 characters, `strncpy` 31.
  unfoldable pub log_payload : Severity → String → LogCall F → LogPayload
  log_payload severity name call = record {
    text = take 254 (pl.format call);
    severity = severity;
    component = take 31 (chars name);
  }

  -- ComponentLogger::log_valist: nothing happens before `init` has set the sink.
  unfoldable pub log_valist : Severity → String → LogCall F → Cmd F
  log_valist severity name call = do
    sink ← the (λ w. w.sink)
    if sink then log (log_payload severity name call) else done

  -- ComponentLogger::info, at the logger of the given name.
  unfoldable pub log_info : String → LogCall F → Cmd F
  unfolding log_valist
  log_info = log_valist info

module _ {F : Type 0} where
  -- The inner loop of worker_loop, over what the swap took out of the queue.
  unfoldable pub process : (Msg F → Cmd F) → List LogPayload → Cmd F
  process publish [] = done
  process publish (p ∷ ps) = do
    modify (λ w. record w { console = p ∷ w.console })
    publish (Msg.log p)
    process publish ps

  -- One round of worker_loop, when the wait has ended: with an empty queue it leaves the loop (the
  -- wait ends so only when `running_` is false), else it takes the whole queue and processes it.
  unfoldable pub worker_round : (Msg F → Cmd F) → Cmd F
  worker_round publish =
      locked log_mu (λ w. (w.logs.queue, record w { logs = record w.logs { queue = [] } }))
        (process publish)

-- Where worker_loop is after some rounds: it left the loop, it waits for the queue, a round failed, or
-- the rounds are used up.
pub data Worker (F : Type 0) : Type 0 where
  left_loop waits : World F → Worker F
  failed out_of_rounds : Worker F

module _ {F : Type 0} where
  -- worker_loop, while nothing else is logged and `running_` stays as it is.
  unfoldable pub worker_loop : (Msg F → Cmd F) → ℕ → Bool → World F → Worker F
  unfolding worker_round
  worker_loop publish zero running w = out_of_rounds
  worker_loop publish (suc rounds) running w =
      if length w.logs.queue == 0
      then (if running then waits w else left_loop w)
      else elim (worker_round publish [] w) [
        | none ↦ failed
        | some w' ↦ worker_loop publish rounds running w'
      ]

module _ {F : Type 0} ⦃pl : Platform F⦄ where
  -- One beat of the heartbeat thread of src/main.cpp.
  unfoldable pub beat : Cmd F
  beat = do
    modify (λ w. record w { heartbeats = (w.heartbeats + 1) % 2 ^ 32 })
    n ← the (λ w. w.heartbeats)
    log (log_payload {F = F} info "main" (LogCall.heartbeat n))
