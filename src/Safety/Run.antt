-- ===== src/Safety/Run.antt =====
-- Every run of the application, from its start and over any interleaving of its threads' rounds,
-- goes on for ever without a fault.
use reflect_pytest.Prelude.{
  ℕ, ◌+◌, ◌*◌, ◌≤◌, ◌<◌, ◌≡◌, refl, sym, ◌∙◌, subst, true, Option, none, some, List, [], ◌∷◌,
  length, take, drop, All, arith, inr,
}
use mathlib.Core.Option.{some-injective}
use reflect_pytest.Float.{Float}
use reflect_pytest.Messages.{Msg, MsgId, id_value, msg_id, IsFormed, AutoDriveCommandPayload}
use reflect_pytest.World.{
  World, Service, udp_bridge, Platform, IsAbi, Cmd, initial_world, peer_mu, state_mu,
}
use reflect_pytest.Services.State.{clock_round}
use reflect_pytest.Bridge.{
  publishes, is_in_list, matching, publish_as, try_publish_raw, inject, rx_round, RxEvent,
  interrupted, select_failed, woken, recv_failed, datagram, max_dgram,
}
use reflect_pytest.Bridge.Wire.{matching-some, id_raw}
use reflect_pytest.Bus.{wire_services}
use reflect_pytest.App.{Event, clock, receive, log_worker, heartbeat, elapse, depth, on_event, run}
use reflect_pytest.Safety.Rules.{
  Returns, returns, Returns-some, Returns-bind, Returns-lock, Returns-locked, InOrder,
}
use reflect_pytest.Safety.Inv.{
  Inv, Sound, height, MayHold, IsSafe, SpeedFits, RegionFits, IsTerminated,
}
use reflect_pytest.Safety.Plant.{worker_round-Returns, beat-Returns}
use reflect_pytest.Safety.Publish.{publish-Sound, Sound-le}

module _ (F : Type 0) ⦃fl : Float F⦄ ⦃pl : Platform F⦄ where
  -- What the code relies on in a command and in a region that arrive.
  abbrev pub CommandFits : AutoDriveCommandPayload F → Type 0
  CommandFits p = (p.num_nodes ≤ 8) × SpeedFits p × IsTerminated p.route_name

  abbrev pub PayloadFits : Msg F → Type 0
  PayloadFits (Msg.auto_drive_command p) = CommandFits p
  PayloadFits (Msg.environment_data p) = RegionFits p
  PayloadFits _ = Unit

  -- A datagram with the id of a command or a region carries such a one: a command names no more nodes than its array holds, its name has a NUL, and its speed fits; a
  -- region has a limit of at most 10000 RPM.
  abbrev pub RoutesFit : Event → Type 0
  RoutesFit (receive (datagram sender bytes)) =
      let buffer = take max_dgram bytes in
      (i : MsgId) → id_raw buffer ≡ id_value i → PayloadFits (pl.of_bytes i (drop 2 buffer))
  RoutesFit _ = Unit

module _ {F : Type 0} ⦃fl : Float F⦄ ⦃pl : Platform F⦄ where
  -- What the bridge may publish is safe to publish with no mutex held.
  from_bridge :
      (n : ℕ) (m : Msg F)
      → is_in_list (msg_id m) (publishes udp_bridge) ≡ true
      → IsFormed m
      → PayloadFits F m
      → (height m ≤ depth) × MayHold m [] × IsSafe n m
  unfolding is_in_list publishes
  from_bridge n (Msg.state_request p) e f r = (omega arith, tt, tt)
  from_bridge n (Msg.motor_sequence p) e f r = (omega arith, tt, f)
  from_bridge n (Msg.kinematics_request p) e f r = (omega arith, tt, tt)
  from_bridge n (Msg.power_request p) e f r = (omega arith, tt, tt)
  from_bridge n (Msg.thermal_request p) e f r = (omega arith, tt, tt)
  from_bridge n (Msg.auto_drive_command p) e f r = (omega arith, tt, (f, r.0, r.1, r.2))
  from_bridge n (Msg.environment_data p) e f r = (omega arith, tt, r)
  from_bridge n m e f r = cc

module _ {F : Type 0} ⦃fl : Float F⦄ ⦃pl : Platform F⦄ (abi : IsAbi F) (send : Msg F → Cmd F)
    (sound : Sound send depth) where
  publish_as-Returns :
      (n : ℕ) (bytes : List ℕ) (o : Option MsgId) (w : World F)
      → ((i : MsgId) → o ≡ some i → is_in_list i (publishes udp_bridge) ≡ true)
      → ((i : MsgId) → o ≡ some i → PayloadFits F (pl.of_bytes i bytes))
      → Inv n w
      → Returns (Inv n) (publish_as send bytes o [] w)
  unfolding publish_as
  publish_as-Returns n bytes none w l r i = returns i
  publish_as-Returns n bytes (some j) w l r i =
      let m = pl.of_bytes j bytes in
      let kind = abi.msg_id-of_bytes j bytes in
      let listed = subst (λ k. is_in_list k (publishes udp_bridge) ≡ true) (sym kind) (l j refl) in
      let (h, held, safe) = from_bridge n m listed (abi.of_bytes-IsFormed j bytes) (r j refl) in
      sound.returns_from n m [] w h held safe i

  inject-Returns :
      (n : ℕ) (bytes : List ℕ) (w : World F)
      → ((i : MsgId) → id_raw bytes ≡ id_value i → PayloadFits F (pl.of_bytes i (drop 2 bytes)))
      → Inv n w
      → Returns (Inv n) (inject send bytes [] w)
  unfolding inject try_publish_raw
  inject-Returns n [] w r i = returns i
  inject-Returns n (lo ∷ []) w r i = returns i
  inject-Returns n (lo ∷ hi ∷ bytes) w r i =
      let ids = publishes udp_bridge in
      let raw = lo + 256 * hi in
      publish_as-Returns n bytes (matching pl.size_of ids raw (length bytes)) w
        (λ j e. (matching-some pl.size_of ids raw (length bytes) j e).2)
        (λ j e. r j (matching-some pl.size_of ids raw (length bytes) j e).0) i

  rx_round-Returns :
      (n : ℕ) (e : RxEvent) (w : World F)
      → RoutesFit F (receive e)
      → Inv n w
      → Returns (Inv n) (rx_round send e [] w)
  unfolding rx_round
  rx_round-Returns n (datagram sender bytes) w r i =
      Returns-bind {R = Inv n} (Returns-lock peer_mu _ [] w (inr tt) (returns (ground arith)))
        λ w' i'. inject-Returns n (take max_dgram bytes) w' r i'
  rx_round-Returns n interrupted w r i = returns i
  rx_round-Returns n select_failed w r i = returns i
  rx_round-Returns n woken w r i = returns i
  rx_round-Returns n recv_failed w r i = returns i

  clock_round-Returns : (n : ℕ) (w : World F) → Inv n w → Returns (Inv n) (clock_round send [] w)
  unfolding clock_round
  clock_round-Returns n w i =
      Returns-locked state_mu _ _ [] w tt
        (sound.returns_from n _ _ _ (omega arith) tt tt (ground arith))

module _ {F : Type 0} ⦃fl : Float F⦄ where
  pub initial_world-Inv : (t : ℕ) → Inv {F = F} 0 (initial_world t)
  unfolding initial_world
  initial_world-Inv t = ground arith

module _ {F : Type 0} ⦃fl : Float F⦄ ⦃pl : Platform F⦄ (abi : IsAbi F) (order : List Service) where
  pub on_event-Returns :
      (n : ℕ) (e : Event) (w : World F)
      → RoutesFit F e
      → Inv n w
      → Returns (Inv n) (on_event (wire_services order []) e [] w)
  unfolding on_event
  on_event-Returns n clock w r i = clock_round-Returns abi _ (publish-Sound order depth) n w i
  on_event-Returns n (receive e) w r i =
      rx_round-Returns abi _ (publish-Sound order depth) n e w r i
  on_event-Returns n log_worker w r i =
      worker_round-Returns _ (Sound-le 1 (publish-Sound order depth) (omega arith)) n w i
  on_event-Returns n heartbeat w r i = beat-Returns n w i
  on_event-Returns n (elapse ns) w r i = returns (ground arith)

  run-Returns :
      (n : ℕ) (es : List Event) (w : World F)
      → All (RoutesFit F) es
      → Inv n w
      → Returns (Inv n) (run (wire_services order []) es w)
  unfolding run
  run-Returns n [] w r i = returns i
  run-Returns n (e ∷ es) w (r, rs) i =
      Returns-bind (on_event-Returns n e w r i) λ w' i'. run-Returns n es w' rs i'

  -- Whatever the order in which the services are constructed and however the rounds of the threads
  -- are interleaved, the run goes through to its end: no thread takes a mutex that it holds and that
  -- is not recursive, no array is read outside its bounds, no speed is converted out of range, no null pointer is followed, every handler
  -- gets the payload type that it casts to, and no message nests deeper than eight publishes.
  -- Assumed: a command that arrives names at most eight nodes, has a NUL in its name, and its target speed
  -- fits an int16_t in every region of at most 10000 RPM; a region that arrives is such a region; and the platform is an IsAbi.
  pub run_total :
      (t : ℕ) (es : List Event)
      → All (RoutesFit F) es
      → (w : World F) × (run (wire_services order []) es (initial_world t) ≡ some w)
  run_total t es r =
      let (w, e, i) =
        Returns-some (Inv 0) (run-Returns 0 es (initial_world t) r (initial_world-Inv t)) in
      (w, e)

  run-Inv :
      (t : ℕ) (es : List Event) (w : World F)
      → All (RoutesFit F) es
      → run (wire_services order []) es (initial_world t) ≡ some w
      → Inv 0 w
  run-Inv t es w r e =
      let (w', e', i) =
        Returns-some (Inv 0) (run-Returns 0 es (initial_world t) r (initial_world-Inv t)) in
      subst (Inv 0) (some-injective _ _ (sym e' ∙ e)) i

  -- In every run, each time a thread takes a mutex, either it holds that mutex already and the mutex
  -- is recursive, or all the mutexes that it holds have a lower rank. Assumed: a command that arrives
  -- names at most eight nodes, has a NUL in its name, and its target speed fits an int16_t in every region of at most
  -- 10000 RPM; a region that arrives is such a region; and the platform is an IsAbi.
  pub run-InOrder :
      (t : ℕ) (es : List Event) (w : World F)
      → All (RoutesFit F) es
      → run (wire_services order []) es (initial_world t) ≡ some w
      → All InOrder w.acquired
  run-InOrder t es w r e = (run-Inv t es w r e).locks_ordered

  -- In every run the telemetry of the autonomous service stays within its arrays: the regions that
  -- it tracks are as many as it has written, four at most; and while a route is active the current
  -- node is one of the route's at most eight. Assumed: a command that arrives names at most eight
  -- nodes, has a NUL in its name, and its target speed fits an int16_t in every region of at most 10000 RPM; a region
  -- that arrives is such a region; and the platform is an IsAbi.
  pub run_telemetry :
      (t : ℕ) (es : List Event) (w : World F)
      → All (RoutesFit F) es
      → run (wire_services order []) es (initial_world t) ≡ some w
      → let a = w.autonomous in
        (a.status.num_environments_used ≡ length a.used_envs)
        × (length a.used_envs ≤ 4)
        × (a.route_active ≡ true → (a.current_node_idx < a.cmd.num_nodes) × (a.cmd.num_nodes ≤ 8))
  run_telemetry t es w r e =
      let i = run-Inv t es w r e in
      (i.environments_counted, i.environments_used, λ h. (i.on_route h, i.route_used))
