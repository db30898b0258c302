-- ===== src/World/Machine.antt =====
-- What the compiler and the C library give: the text that `vsnprintf` makes of a log call, and the
-- memory layout of the payload structs, which `std::memcpy` copies to and from the wire.
use reflect_pytest.Prelude.{ℕ, ℤ, List, ◌≡◌, length}
use reflect_pytest.Messages.{SystemState, Msg, MsgId, msg_id, IsFormed}

-- The calls of the loggers, one constructor for each format string, with its arguments.
pub data LogCall (F : Type 0) : Type 0 where
  received_motor_sequence : ℕ → LogCall F
  motor_sequence_stopped : ℕ → LogCall F
  advancing_to_step : ℕ → ℤ → LogCall F
  motor_sequence_complete : ℕ → LogCall F
  state_transition : SystemState → LogCall F
  position_and_speed : F → F → LogCall F
  battery_levels : F → F → ℕ → LogCall F
  temperatures : F → F → LogCall F
  environment_updated : ℕ → F → F → F → LogCall F
  internal_pointer_hit : ℕ → LogCall F
  internal_miss : F → F → LogCall F
  received_auto_drive_command : List ℕ → ℕ → LogCall F
  tracking_environment : ℕ → F → LogCall F
  reached_node : ℕ → LogCall F
  route_complete : LogCall F
  steep_incline : F → F → LogCall F
  heartbeat : ℕ → LogCall F

pub record Platform (F : Type 0) : Type 0 where
  pub format : LogCall F → List ℕ  -- the whole text, before it is cut to the buffer
  pub size_of : MsgId → ℕ  -- sizeof of the payload
  pub to_bytes : Msg F → List ℕ  -- the bytes of the payload
  pub of_bytes : MsgId → List ℕ → Msg F  -- a payload filled by memcpy from `size_of` bytes

-- The layout of trivially copyable structs: a payload has the size of its type, and what `memcpy`
-- fills is a payload of the type asked for, whose arrays have their declared lengths.
pub record IsAbi (F : Type 0) ⦃pl : Platform F⦄ : Type 0 where
  pub length-to_bytes : (m : Msg F) → length (pl.to_bytes m) ≡ pl.size_of (msg_id m)
  pub msg_id-of_bytes : (i : MsgId) (bs : List ℕ) → msg_id (pl.of_bytes i bs) ≡ i
  pub of_bytes-IsFormed : (i : MsgId) (bs : List ℕ) → IsFormed (pl.of_bytes i bs)
