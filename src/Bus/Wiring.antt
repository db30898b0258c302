-- ===== src/Bus/Wiring.antt =====
-- What the table of handlers holds once the services are constructed: for each message its
-- subscribers, once each, in the order of construction.

use reflect_pytest.Prelude.{
  ℕ, suc, ◌≡◌, sym, true, ◌==◌, if◌then◌else◌, List, [], ◌∷◌, ◌++◌, replicate, All, arith,
  Bool-cases, inl, inr,
}
use mathlib.Core.List.{append-nil, append_assoc}
use reflect_pytest.Messages.{MsgId, id_value}
use reflect_pytest.World.{
  Service, motor, kinematics, power, state, thermal, environment, autonomous, log, udp_bridge,
}
use reflect_pytest.Bridge.{subscribes, is_in_list}
use reflect_pytest.Bus.{Bus, subscribe, handlers, bind_all, wire_services}

-- The services of a list that subscribe to a message.
unfoldable pub subscribers : MsgId → List Service → List Service
subscribers i [] = []
subscribers i (s ∷ ss) =
    if is_in_list i (subscribes s) then s ∷ subscribers i ss else subscribers i ss

handlers-subscribe :
    (k key : ℕ) (s : Service) (bus : Bus)
    → handlers k (subscribe key s bus)
      ≡ (if key == k then handlers k bus ++ s ∷ [] else handlers k bus)
unfolding handlers subscribe
handlers-subscribe k key s [] = ground arith
handlers-subscribe k key s ((j, hs) ∷ bus) = ground (arith, handlers-subscribe k key s bus)

-- How often a list of ids holds a value.
occurrences : ℕ → List MsgId → ℕ
occurrences k [] = 0
occurrences k (i ∷ ids) = if id_value i == k then suc (occurrences k ids) else occurrences k ids

handlers-bind_all :
    (k : ℕ) (s : Service) (ids : List MsgId) (bus : Bus)
    → handlers k (bind_all s ids bus) ≡ handlers k bus ++ replicate (occurrences k ids) s
unfolding bind_all occurrences
handlers-bind_all k s [] bus = sym (append-nil (handlers k bus))
handlers-bind_all k s (i ∷ ids) bus = elim (Bool-cases (id_value i == k)) [
  | inl same ↦
      rw (handlers-bind_all k s ids (subscribe (id_value i) s bus), handlers-subscribe, same)
        (append_assoc (handlers k bus) (s ∷ []) (replicate (occurrences k ids) s))
  | inr other ↦
      rw (handlers-bind_all k s ids (subscribe (id_value i) s bus), handlers-subscribe, other)
]

-- A service subscribes to a message at most once.
occurs_once :
    (i : MsgId) (s : Service)
    → occurrences (id_value i) (subscribes s) ≡ (if is_in_list i (subscribes s) then 1 else 0)
unfolding occurrences is_in_list subscribes
occurs_once i motor = ground arith
occurs_once i kinematics = ground arith
occurs_once i power = ground arith
occurs_once i state = ground arith
occurs_once i thermal = ground arith
occurs_once i environment = ground arith
occurs_once i autonomous = ground arith
occurs_once i log = ground arith
occurs_once i udp_bridge = ground arith

handlers-wire :
    (i : MsgId) (order : List Service) (bus : Bus)
    → handlers (id_value i) (wire_services order bus)
      ≡ handlers (id_value i) bus ++ subscribers i order
unfolding wire_services subscribers
handlers-wire i [] bus = sym (append-nil (handlers (id_value i) bus))
handlers-wire i (s ∷ ss) bus = elim (Bool-cases (is_in_list i (subscribes s))) [
  | inl yes_it_does ↦
      rw
        (
          handlers-wire i ss (bind_all s (subscribes s) bus),
          handlers-bind_all (id_value i) s (subscribes s) bus,
          occurs_once i s,
          yes_it_does,
        )
        (append_assoc (handlers (id_value i) bus) (s ∷ []) (subscribers i ss))
  | inr it_does_not ↦ rw (
    handlers-wire i ss (bind_all s (subscribes s) bus),
    handlers-bind_all (id_value i) s (subscribes s) bus,
    occurs_once i s,
    it_does_not,
    append-nil (handlers (id_value i) bus),
  )
]

-- Whatever the order in which the services are constructed, the handlers called for a message are
-- its subscribers, once each, in that order.
pub handlers-wire_services :
    (i : MsgId) (order : List Service)
    → handlers (id_value i) (wire_services order []) ≡ subscribers i order
unfolding handlers
handlers-wire_services i order = handlers-wire i order []

pub subscribers_subscribe :
    (i : MsgId) (order : List Service)
    → All (λ s. is_in_list i (subscribes s) ≡ true) (subscribers i order)
unfolding subscribers
subscribers_subscribe i [] = tt
subscribers_subscribe i (s ∷ ss) = elim (Bool-cases (is_in_list i (subscribes s))) [
  | inl e ↦ rw e (e, subscribers_subscribe i ss)
  | inr e ↦ rw e (subscribers_subscribe i ss)
]
