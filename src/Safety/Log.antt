-- ===== src/Safety/Log.antt =====
-- Logging returns, and touches the log queue and the history of mutexes only.
use Prim.Native.String.{String}
use reflect_pytest.Prelude.{ℕ, ◌≡◌, inr, if◌then◌else◌, List, [], ◌∷◌, ◌++◌, arith, some}
use reflect_pytest.Float.{Float}
use reflect_pytest.Messages.{Severity, info, LogPayload}
use reflect_pytest.World.{World, Lock, log_mu, Platform, LogCall}
use reflect_pytest.Services.Log.{log, log_payload, log_info}
use reflect_pytest.Safety.Rules.{Returns, Below, with_lock-InOrder, returns}
use reflect_pytest.Safety.Inv.{Inv}

module _ {F : Type 0} where
  -- The world with one more entry in the log queue.
  abbrev pub logged : LogPayload → List Lock → World F → World F
  logged p held w = record w {
    logs = record w.logs { queue = w.logs.queue ++ p ∷ [] };
    acquired = (log_mu, held) ∷ w.acquired;
  }

  pub log-eq :
      (p : LogPayload) (held : List Lock) (w : World F)
      → Below 8 held
      → log p held w ≡ some (logged p held w)
  unfolding log
  log-eq p held w b = with_lock-InOrder log_mu _ held w (inr b)

  pub logged-Inv :
      ⦃fl : Float F⦄ (n : ℕ) (p : LogPayload) (held : List Lock) (w : World F)
      → Below 8 held
      → Inv n w
      → Inv n (logged p held w)
  logged-Inv n p held w b i = ground arith

module _ {F : Type 0} ⦃pl : Platform F⦄ where
  -- The world after a call of a logger, which does nothing without a sink.
  abbrev pub after_log : Severity → String → LogCall F → List Lock → World F → World F
  after_log severity name call held w = record w {
    logs = if w.sink then (logged (log_payload severity name call) held w).logs else w.logs;
    acquired = if w.sink then (log_mu, held) ∷ w.acquired else w.acquired;
  }

  pub log_info-eq :
      (name : String) (call : LogCall F) (held : List Lock) (w : World F)
      → Below 8 held
      → log_info name call held w ≡ some (after_log info name call held w)
  unfolding log_info
  log_info-eq name call held w b = ground (arith, log-eq (log_payload info name call) held w b)

  pub after_log-Inv :
      ⦃fl : Float F⦄ (n : ℕ) (severity : Severity) (name : String) (call : LogCall F)
      (held : List Lock) (w : World F)
      → Below 8 held
      → Inv n w
      → Inv n (after_log severity name call held w)
  after_log-Inv n severity name call held w b i = ground arith

  pub log-Returns :
      ⦃fl : Float F⦄ (n : ℕ) (name : String) (call : LogCall F) (held : List Lock) (w : World F)
      → Below 8 held
      → Inv n w
      → Returns (Inv n) (log_info name call held w)
  log-Returns n name call held w b i =
      rw (log_info-eq name call held w b) (returns (after_log-Inv n info name call held w b i))

  -- What holds of the world with the entry holds after the call.
  pub log-after :
      {Q : World F → Type 0} (name : String) (call : LogCall F) (held : List Lock) (w : World F)
      → Below 8 held
      → Q (after_log info name call held w)
      → Returns Q (log_info name call held w)
  log-after name call held w b q = rw (log_info-eq name call held w b) (returns q)
