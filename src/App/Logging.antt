-- ===== src/App/Logging.antt =====
-- The log worker on the wired bus: it prints and sends what was queued, in the order of the calls.
use reflect_pytest.Prelude.{
  sym, length, ◌==◌, Bool, true, false, Bool-cases, inl, inr, ℕ, suc, ◌≡◌, refl, ap, if◌then◌else◌,
  some, List, [], ◌∷◌, map, arith,
}
use reflect_pytest.Float.{Float}
use reflect_pytest.Messages.{Msg, MsgId, LogPayload}
use reflect_pytest.World.{
  World, Service, LogService, udp_bridge, Platform, peer_mu, log_mu, holds, locked,
}
use reflect_pytest.Services.Log.{process, worker_round, left_loop, waits, worker_loop}
use reflect_pytest.Bridge.{wire}
use reflect_pytest.Bus.{publish, wire_services, handle}
use reflect_pytest.App.Requests.{relay_lem}
use reflect_pytest.Bus.Wiring.{subscribers}

if_same {ℓ} : {A : Type ℓ} (b : Bool) (a : A) → a ≡ (if b then a else a)
if_same true a = refl
if_same false a = refl

no_length {ℓ} : {A : Type ℓ} (xs : List A) → (length xs == 0) ≡ true → xs ≡ []
no_length [] h = refl
no_length (x ∷ xs) h = absurd (ground arith)

-- The first element comes out deepest: a list pushed on another.
abbrev pub onto {ℓ} : {A : Type ℓ} → List A → List A → List A
onto [] acc = acc
onto (x ∷ xs) acc = onto xs (x ∷ acc)

module _ {F : Type 0} ⦃fl : Float F⦄ ⦃pl : Platform F⦄ (order : List Service) (fuel : ℕ) where
  -- What is left of the state by a round of the worker, over the queue that it took.
  pub record Flushed (ps : List LogPayload) (w w' : World F) : Type 0 where
    pub printed : w'.console ≡ onto ps w.console
    pub relayed : w'.sent ≡ (
        if w.bridge.peer_valid
        then onto (map (λ p. (w.bridge.peer, wire {F = F} (Msg.log p))) ps) w.sent
        else w.sent)
    pub bridge_kept : w'.bridge ≡ w.bridge
    pub queue_kept : w'.logs ≡ w.logs

  module _ (one : subscribers MsgId.log order ≡ udp_bridge ∷ []) where
    send_log :
        (p : LogPayload) (w : World F)
        → publish (wire_services order []) (suc fuel) (Msg.log p) [] w
          ≡ some (record w {
            published = Msg.log p ∷ w.published;
            acquired = (peer_mu, []) ∷ w.acquired;
            sent =
                if w.bridge.peer_valid
                then (w.bridge.peer, wire {F = F} (Msg.log p)) ∷ w.sent
                else w.sent;
          })
    unfolding handle
    send_log p w = relay_lem order fuel (Msg.log p) w one refl

    process-Flushed :
        (ps : List LogPayload) (w : World F)
        → (w' : World F) × (process (publish (wire_services order []) (suc fuel)) ps [] w ≡ some w')
          × Flushed ps w w'
    unfolding process
    process-Flushed [] w = (w, refl, ground arith)
    process-Flushed (p ∷ ps) w =
        let w1 : World F = record w {
          console = p ∷ w.console;
          published = Msg.log p ∷ w.published;
          acquired = (peer_mu, []) ∷ w.acquired;
          sent =
              if w.bridge.peer_valid
              then (w.bridge.peer, wire {F = F} (Msg.log p)) ∷ w.sent
              else w.sent;
        } in
        let (w', e, f) = process-Flushed ps w1 in (w', rw (send_log p) e, ground arith)

    -- When the worker thread wakes up it takes the whole queue and leaves it empty; every entry is
    -- printed, and sent to the UDP client if there is one, in the order in which they were logged.
    -- Assumed: the bridge is the one subscriber of the log messages.
    pub worker_round_fifo :
        (w : World F)
        → (w' : World F) × (worker_round (publish (wire_services order []) (suc fuel)) [] w
            ≡ some w')
          × (w'.logs.queue ≡ [])
          × (w'.console ≡ onto w.logs.queue w.console)
          × (w'.sent ≡ (
              if w.bridge.peer_valid
              then onto (map (λ p. (w.bridge.peer, wire {F = F} (Msg.log p))) w.logs.queue) w.sent
              else w.sent))
    unfolding worker_round locked holds
    worker_round_fifo w =
        let w1 : World F = record w {
          logs = record w.logs { queue = [] };
          acquired = (log_mu, []) ∷ w.acquired;
        } in
        let (w', e, f) = process-Flushed w.logs.queue w1 in
        (w', e, ap (λ (l : LogService). l.queue) f.queue_kept, f.printed, f.relayed)

    -- The worker thread stops: when `running_` is false it prints the whole queue, sends it to the
    -- UDP client if there is one, in order, and leaves the loop with an empty queue, after at most
    -- two tests of the loop's condition. While `running_` is true it does the same and waits. Assumed: the bridge is the one subscriber of the log messages, and nothing is logged meanwhile.
    pub worker_loop_ends :
        (rounds : ℕ) (running : Bool) (w : World F)
        → (w' : World F) × (worker_loop
              (publish (wire_services order []) (suc fuel))
              (suc (suc rounds))
              running
              w
            ≡ (if running then waits w' else left_loop w'))
          × (w'.logs.queue ≡ [])
          × (w'.console ≡ onto w.logs.queue w.console)
          × (w'.sent ≡ (
              if w.bridge.peer_valid
              then onto (map (λ p. (w.bridge.peer, wire {F = F} (Msg.log p))) w.logs.queue) w.sent
              else w.sent))
    unfolding worker_loop
    worker_loop_ends rounds running w = elim (Bool-cases (length w.logs.queue == 0)) [
      | inl none_left ↦
          let no_entry = no_length w.logs.queue none_left in
          (
            w,
            rw none_left refl,
            no_entry,
            ap (λ q. onto q w.console) (sym no_entry),
            rw no_entry (if_same w.bridge.peer_valid w.sent),
          )
      | inr some_left ↦
          let (w', e, emptied, printed, sent) = worker_round_fifo w in
          (w', rw (some_left, e, ap length emptied) refl, emptied, printed, sent)
    ]
