-- ===== src/Bridge.antt =====
-- src/component.h and src/udp_bridge.*: the lists of messages that each component subscribes to and
-- publishes, the publish that is checked at run time, and the relay between bus and UDP socket.
pub mod Wire
pub mod Sockets
pub mod Receiver
use reflect_pytest.Prelude.{
  ℕ, zero, suc, ◌+◌, ◌*◌, ◌-◌, ◌/◌, ◌%◌, ltb, ◌==◌, Bool, true, false, ◌&&◌, ◌||◌, if◌then◌else◌,
  Option, none, some, List, [], ◌∷◌, ◌++◌, length, take, drop,
}
use reflect_pytest.Messages.{Msg, MsgId, id_value, id_eq, msg_id}
use reflect_pytest.World.{
  World, UdpBridge, Service, motor, kinematics, power, state, thermal, environment, autonomous, log,
  udp_bridge, Peer, Platform, Cmd, ◌>>◌, ◌>>=◌, done, modify, the, with_lock, peer_mu,
}

-- Component::Subscribes.
unfoldable pub subscribes : Service → List MsgId
subscribes motor = MsgId.motor_sequence ∷ MsgId.physics_tick ∷ []
subscribes kinematics = MsgId.physics_tick ∷ MsgId.kinematics_request ∷ MsgId.motor_status ∷ []
subscribes power = MsgId.physics_tick ∷ MsgId.power_request ∷ MsgId.motor_status ∷ []
subscribes state = MsgId.state_request ∷ MsgId.motor_status ∷ []
subscribes thermal = MsgId.physics_tick ∷ MsgId.environment_data ∷ MsgId.thermal_request ∷ []
subscribes environment = MsgId.environment_data ∷ MsgId.internal_env_request ∷ []
subscribes autonomous =
    MsgId.auto_drive_command ∷ MsgId.kinematics_data ∷ MsgId.physics_tick ∷ MsgId.power_data
    ∷ MsgId.internal_env_data ∷ []
subscribes log = []
subscribes udp_bridge =
    MsgId.log ∷ MsgId.state_data ∷ MsgId.kinematics_data ∷ MsgId.power_data ∷ MsgId.thermal_data
    ∷ MsgId.environment_ack ∷ MsgId.auto_drive_status ∷ MsgId.environment_request ∷ []

-- Component::Publishes.
unfoldable pub publishes : Service → List MsgId
publishes motor = MsgId.motor_status ∷ []
publishes kinematics = MsgId.kinematics_data ∷ []
publishes power = MsgId.power_data ∷ []
publishes state = MsgId.state_data ∷ MsgId.physics_tick ∷ []
publishes thermal = MsgId.thermal_data ∷ []
publishes environment =
    MsgId.environment_ack ∷ MsgId.environment_request ∷ MsgId.internal_env_data ∷ []
publishes autonomous =
    MsgId.motor_sequence ∷ MsgId.auto_drive_status ∷ MsgId.kinematics_request ∷ MsgId.power_request
    ∷ MsgId.internal_env_request ∷ []
publishes log = MsgId.log ∷ []
publishes udp_bridge =
    MsgId.state_request ∷ MsgId.motor_sequence ∷ MsgId.kinematics_request ∷ MsgId.power_request
    ∷ MsgId.thermal_request ∷ MsgId.auto_drive_command ∷ MsgId.environment_data ∷ []

-- MsgContains: is_in_list_v<Target, List>.
unfoldable pub is_in_list : MsgId → List MsgId → Bool
unfolding id_value
is_in_list target [] = false
is_in_list target (first ∷ rest) = id_eq target first || is_in_list target rest

-- The test of try_publish_raw: the first id of the list with the raw value and the size.
unfoldable pub matching : (MsgId → ℕ) → List MsgId → ℕ → ℕ → Option MsgId
unfolding id_value
matching size_of [] raw size = none
matching size_of (i ∷ ids) raw size =
    if raw == id_value i && size == size_of i then some i else matching size_of ids raw size

module _ {F : Type 0} ⦃pl : Platform F⦄ where
  -- The two bytes of the id, as memcpy writes them on a little-endian machine, and the payload.
  unfoldable pub wire : Msg F → List ℕ
  unfolding id_value
  wire m = id_value (msg_id m) % 256 ∷ id_value (msg_id m) / 256 ∷ pl.to_bytes m

  -- forward_to_udp: nothing is sent before a first datagram has come in.
  unfoldable pub forward_to_udp : Msg F → Cmd F
  unfolding wire
  forward_to_udp m = with_lock peer_mu do
    b ← the (λ w. w.bridge)
    if b.peer_valid then modify (λ w. record w { sent = (b.peer, wire m) ∷ w.sent }) else done

-- What a round of rx_loop meets: `select` interrupted or failed, a byte in the wake pipe, a failed
-- `recvfrom`, or a datagram with its sender.
pub data RxEvent : Type 0 where
  interrupted select_failed woken recv_failed : RxEvent
  datagram : Peer → List ℕ → RxEvent

-- The loop goes on after the round.
unfoldable pub rx_continues : RxEvent → Bool
rx_continues select_failed = false
rx_continues woken = false
rx_continues _ = true

-- kMaxDgram.
abbrev pub max_dgram : ℕ
max_dgram = 4096

module _ {F : Type 0} ⦃pl : Platform F⦄ (publish : Msg F → Cmd F) where
  -- The payload is filled by memcpy, and published.
  unfoldable pub publish_as : List ℕ → Option MsgId → Cmd F
  publish_as bytes none = done
  publish_as bytes (some i) = publish (pl.of_bytes i bytes)

  -- try_publish_raw over the list, with the bytes of the payload.
  unfoldable pub try_publish_raw : List MsgId → ℕ → List ℕ → Cmd F
  unfolding matching publish_as
  try_publish_raw ids raw bytes = publish_as bytes (matching pl.size_of ids raw (length bytes))

  -- The datagram of `n` bytes in the buffer: fewer than two bytes carry no message.
  unfoldable pub inject : List ℕ → Cmd F
  unfolding try_publish_raw publishes
  inject (lo ∷ hi ∷ bytes) = try_publish_raw (publishes udp_bridge) (lo + 256 * hi) bytes
  inject _ = done

  -- One round of rx_loop.
  unfoldable pub rx_round : RxEvent → Cmd F
  unfolding inject
  rx_round (datagram sender bytes) = do
    with_lock peer_mu
        (modify λ w. record w { bridge = record { peer = sender; peer_valid = true } })
    inject (take max_dgram bytes)
  rx_round _ = done

  -- rx_loop, over the events that it meets.
  unfoldable pub rx_loop : List RxEvent → Cmd F
  unfolding rx_round rx_continues
  rx_loop [] = done
  rx_loop (e ∷ es) = rx_round e >> (if rx_continues e then rx_loop es else done)
