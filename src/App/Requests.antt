-- ===== src/App/Requests.antt =====
-- A UDP client asks for data of a service, and gets it: the path through the bridge (src/udp_bridge.*),
-- the bus, the service and back.
use reflect_pytest.Prelude.{
  ℕ, zero, suc, ◌+◌, ◌≤◌, ◌≡◌, refl, ◌∙◌, ap, true, if◌then◌else◌, some, List, [], ◌∷◌, length,
  take, arith,
}
use reflect_pytest.Float.{Float}
use reflect_pytest.Messages.{Msg, MsgId, msg_id}
use reflect_pytest.World.{
  World, Lock, Service, state, thermal, udp_bridge, Peer, Platform, IsAbi, Cmd, bind, peer_mu,
  state_mu, thermal_mu, copy, ThermalService, holds, with_lock, locked,
}
use reflect_pytest.Services.State.{on_state_request}
use reflect_pytest.Services.Thermal.{on_thermal_request}
use reflect_pytest.Bridge.{
  wire, forward_to_udp, publishes, is_in_list, datagram, rx_round, max_dgram,
}
use reflect_pytest.Bridge.Wire.{inject-wire}
use reflect_pytest.Bus.{publish, wire_services, each, handle}
use reflect_pytest.Bus.Wiring.{subscribers, handlers-wire_services}

take-all {ℓ} : {A : Type ℓ} (n : ℕ) (xs : List A) → length xs ≤ n → take n xs ≡ xs
take-all zero [] h = refl
take-all zero (x ∷ xs) h = absurd (omega arith)
take-all (suc n) [] h = refl
take-all (suc n) (x ∷ xs) h = ap (λ ys. x ∷ ys) (take-all n xs (omega arith))

module _ {F : Type 0} ⦃fl : Float F⦄ ⦃pl : Platform F⦄ (order : List Service) (fuel : ℕ) where
  -- A message that only the bridge subscribes to goes to the client, if there is one.
  pub relay_lem :
      (m : Msg F) (w : World F)
      → subscribers (msg_id m) order ≡ udp_bridge ∷ []
      → handle (publish (wire_services order []) fuel) udp_bridge m ≡ forward_to_udp m
      → publish (wire_services order []) (suc fuel) m [] w
        ≡ some (record w {
          published = m ∷ w.published;
          acquired = (peer_mu, []) ∷ w.acquired;
          sent = if w.bridge.peer_valid then (w.bridge.peer, wire m) ∷ w.sent else w.sent;
        })
  unfolding publish each forward_to_udp with_lock holds
  relay_lem m w one relayed =
      rw (handlers-wire_services (msg_id m) order, one, relayed) (ground arith)

  -- The bridge with the sender of the last datagram as its peer.
  abbrev from_peer : Peer → World F → World F
  from_peer sender w = record w {
    bridge = record { peer = sender; peer_valid = true };
    acquired = (peer_mu, []) ∷ w.acquired;
  }

  fits_lem : (m : Msg F) → length (pl.to_bytes m) + 2 ≤ max_dgram → length (wire m) ≤ max_dgram
  unfolding wire
  fits_lem m h = omega arith

  abbrev pub report : ThermalService F → Msg F
  report t =
      Msg.thermal_data (record { motor_temp_c = t.motor_temp_c; battery_temp_c = t.battery_temp_c })

  abbrev pub temperatures : World F → Msg F
  temperatures w = report w.thermal

  module _ (abi : IsAbi F) where
    receive_lem :
        (m : Msg F) (sender : Peer) (w : World F)
        → is_in_list (msg_id m) (publishes udp_bridge) ≡ true
        → pl.of_bytes (msg_id m) (pl.to_bytes m) ≡ m
        → pl.size_of (msg_id m) + 2 ≤ max_dgram
        → (p : Msg F → Cmd F)
        → rx_round p (datagram sender (wire m)) [] w ≡ p m [] (from_peer sender w)
    unfolding rx_round with_lock holds
    receive_lem m sender w listed back fits p =
        let size = abi.length-to_bytes m in
        let whole = take-all max_dgram (wire m) (fits_lem m (omega arith)) in
        rw whole (inject-wire abi p m [] (from_peer sender w) listed back)

    -- The state in which a handler has read what it answers, and that in which it has answered.
    abbrev asked_by : Lock → Msg F → Peer → World F → World F
    asked_by l request sender w = record (from_peer sender w) {
      published = request ∷ w.published;
      acquired = (l, []) ∷ (peer_mu, []) ∷ w.acquired;
    }

    abbrev answered_to : Lock → Msg F → Msg F → Peer → World F → World F
    answered_to l request answer sender w =
        let asking = asked_by l request sender w in
        record asking {
          published = answer ∷ asking.published;
          acquired = (peer_mu, []) ∷ asking.acquired;
          sent = (sender, wire answer) ∷ w.sent;
        }

    -- A service that answers a request with what it reads under its mutex.
    request_lem :
        {A : Type 0} (request answer : Msg F) (s : Service) (l : Lock) (read : World F → A)
        (reply : A → Msg F) (sender : Peer) (w : World F)
        → (is_in_list (msg_id request) (publishes udp_bridge) ≡ true)
          × (pl.of_bytes (msg_id request) (pl.to_bytes request) ≡ request)
          × (pl.size_of (msg_id request) + 2 ≤ max_dgram)
        → (subscribers (msg_id request) order ≡ s ∷ [])
          × (subscribers (msg_id answer) order ≡ udp_bridge ∷ [])
        → (handle (publish (wire_services order []) (suc fuel)) s request
            ≡ locked l (copy read) (λ a. publish (wire_services order []) (suc fuel) (reply a)))
          × (handle (publish (wire_services order []) fuel) udp_bridge answer
              ≡ forward_to_udp answer)
        → reply (read (asked_by l request sender w)) ≡ answer
        → rx_round
            (publish (wire_services order []) (suc (suc fuel)))
            (datagram sender (wire request))
            []
            w
          ≡ some (answered_to l request answer sender w)
    unfolding publish each locked holds
    request_lem request answer s l read reply sender w (listed, back, fits) (asked, answered)
          (handled, relayed) same =
        receive_lem request sender w listed back fits
          (publish (wire_services order []) (suc (suc fuel)))
        ∙ rw (handlers-wire_services (msg_id request) order, asked, handled, same)
            (ap (λ o. bind o (λ v. some v))
              (relay_lem answer (asked_by l request sender w) answered relayed))

    -- Whatever the state, a client that sends a request for the state is answered with one datagram, the
    -- lifecycle state, which goes to the sender of the request, whoever was the client before; and
    -- the state service is left as it was. Assumed: the state service is the one subscriber of the
    -- request and the bridge that of the answer, memcpy reads the request back as it was
    -- written, its bytes fit the buffer of the bridge, and the platform is an IsAbi.
    pub state_request_answered :
        (reserved : ℕ) (sender : Peer) (w : World F)
        → subscribers MsgId.state_request order ≡ state ∷ []
        → subscribers MsgId.state_data order ≡ udp_bridge ∷ []
        → pl.of_bytes MsgId.state_request (pl.to_bytes (Msg.state_request reserved))
          ≡ Msg.state_request reserved
        → pl.size_of MsgId.state_request + 2 ≤ max_dgram
        → (w' : World F) × (rx_round
              (publish (wire_services order []) (suc (suc fuel)))
              (datagram sender (wire {F = F} (Msg.state_request reserved)))
              []
              w
            ≡ some w')
          × (w'.sent ≡ (sender, wire {F = F} (Msg.state_data w.state.state)) ∷ w.sent)
          × (w'.bridge ≡ record { peer = sender; peer_valid = true })
          × (w'.state ≡ w.state)
    unfolding is_in_list publishes handle on_state_request
    state_request_answered reserved sender w asked answered back fits =
        let request : Msg F = Msg.state_request reserved in
        let answer : Msg F = Msg.state_data w.state.state in
        (
          answered_to state_mu request answer sender w,
          request_lem request answer state state_mu (λ v. v.state) (λ s. Msg.state_data s.state)
              sender w (refl, back, fits) (asked, answered) (refl, refl) refl,
          refl,
          refl,
          refl,
        )

    -- Whatever the state, a client that sends a request for the temperatures is answered with one datagram, those
    -- of the motor and the battery, which goes to the sender of the request, whoever was the client before; and
    -- the thermal service is left as it was. Assumed: the thermal service is the one subscriber of the
    -- request and the bridge that of the answer, memcpy reads the request back as it was
    -- written, its bytes fit the buffer of the bridge, and the platform is an IsAbi.
    pub thermal_request_answered :
        (reserved : ℕ) (sender : Peer) (w : World F)
        → subscribers MsgId.thermal_request order ≡ thermal ∷ []
        → subscribers MsgId.thermal_data order ≡ udp_bridge ∷ []
        → pl.of_bytes MsgId.thermal_request (pl.to_bytes (Msg.thermal_request reserved))
          ≡ Msg.thermal_request reserved
        → pl.size_of MsgId.thermal_request + 2 ≤ max_dgram
        → (w' : World F) × (rx_round
              (publish (wire_services order []) (suc (suc fuel)))
              (datagram sender (wire {F = F} (Msg.thermal_request reserved)))
              []
              w
            ≡ some w')
          × (w'.sent ≡ (sender, wire (temperatures w)) ∷ w.sent)
          × (w'.bridge ≡ record { peer = sender; peer_valid = true })
          × (w'.thermal ≡ w.thermal)
    unfolding is_in_list publishes handle on_thermal_request
    thermal_request_answered reserved sender w asked answered back fits =
        let request : Msg F = Msg.thermal_request reserved in
        (
          answered_to thermal_mu request (temperatures w) sender w,
          request_lem request (temperatures w) thermal thermal_mu (λ v. v.thermal) report sender w
              (refl, back, fits) (asked, answered) (refl, refl) refl,
          refl,
          refl,
          refl,
        )
