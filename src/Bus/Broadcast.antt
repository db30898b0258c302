-- ===== src/Bus/Broadcast.antt =====
-- The bus of src/message_bus.h as its clients see it: no table, each service is offered the message.
use reflect_pytest.Prelude.{
  ℕ, zero, suc, ◌≡◌, refl, if◌then◌else◌, none, List, [], ◌∷◌, Bool-cases, inl, inr,
}
use mathlib.Core.Path.{fun_ext}
use reflect_pytest.Float.{Float}
use reflect_pytest.Messages.{Msg, MsgId, msg_id}
use reflect_pytest.World.{Service, Platform, Cmd, ◌>>◌, done}
use reflect_pytest.Bridge.{subscribes, is_in_list}
use reflect_pytest.Bus.{each, handle, publish, wire_services}
use reflect_pytest.Bus.Wiring.{subscribers, handlers-wire_services}

module _ {F : Type 0} where
  -- Each service in turn: it handles the message if its list of subscriptions has the id.
  unfoldable pub offer : MsgId → (Service → Cmd F) → List Service → Cmd F
  offer i h [] = done
  offer i h (s ∷ ss) = (if is_in_list i (subscribes s) then h s else done) >> offer i h ss

  each-subscribers :
      (i : MsgId) (h : Service → Cmd F) (order : List Service)
      → each h (subscribers i order) ≡ offer i h order
  unfolding each offer subscribers
  each-subscribers i h [] = refl
  each-subscribers i h (s ∷ ss) = elim (Bool-cases (is_in_list i (subscribes s))) [
    | inl yes_it_does ↦ rw (yes_it_does, each-subscribers i h ss) refl
    | inr it_does_not ↦ rw (it_does_not, each-subscribers i h ss) refl
  ]

module _ {F : Type 0} ⦃fl : Float F⦄ ⦃pl : Platform F⦄ (order : List Service) where
  -- What a message bus promises: every component that subscribes to a message handles it before
  -- the publication returns, in the order of the components, and what a handler publishes is
  -- broadcast in turn.
  unfoldable pub broadcast : ℕ → Msg F → Cmd F
  broadcast zero m held w = none
  broadcast (suc fuel) m held w =
      offer (msg_id m) (λ s. handle (broadcast fuel) s m) order held
        (record w { published = m ∷ w.published })

  -- The bus with its table of handlers, after every service has subscribed in its constructor, does what a
  -- broadcast to the services does, in every state and with every set of mutexes held, faults included,
  -- if both bound the nesting of publications alike.
  pub publish_refines :
      (fuel : ℕ) (m : Msg F) → publish (wire_services order []) fuel m ≡ broadcast fuel m
  unfolding publish broadcast
  publish_refines zero m = refl
  publish_refines (suc fuel) m =
      let inner = fun_ext (publish_refines fuel) in
      fun_ext λ held. fun_ext λ w.
        rw
          (
            handlers-wire_services (msg_id m) order,
            each-subscribers (msg_id m) (λ s. handle (publish (wire_services order []) fuel) s m)
                order,
            inner,
          )
          refl
