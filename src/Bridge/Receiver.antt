-- ===== src/Bridge/Receiver.antt =====
-- The end of the receiver thread of src/udp_bridge.cpp.
use reflect_pytest.Prelude.{All, ◌≡◌, refl, ◌⊎◌, inl, inr, List, [], ◌∷◌, ◌++◌}
use reflect_pytest.Messages.{Msg}
use reflect_pytest.World.{Platform, Cmd, ◌>>◌, done}
use reflect_pytest.Bridge.{
  RxEvent, woken, select_failed, interrupted, recv_failed, datagram, rx_continues, rx_round,
  rx_loop,
}

-- The events after which `select` is called again.
abbrev pub GoesOn : RxEvent → Type 0
GoesOn interrupted = Unit
GoesOn recv_failed = Unit
GoesOn (datagram sender bytes) = Unit
GoesOn woken = ⊥
GoesOn select_failed = ⊥

module _ {F : Type 0} ⦃pl : Platform F⦄ (publish : Msg F → Cmd F) where
  -- A round for each event.
  unfoldable pub rounds : List RxEvent → Cmd F
  rounds [] = done
  rounds (e ∷ es) = rx_round publish e >> rounds es

  -- The receiver thread runs one round for each event before the first byte in the wake pipe, which the destructor
  -- writes, or the first failed `select`, in order, and returns at that one. An interrupted `select` and a failed `recvfrom` do
  -- not end it, and what comes later is not received.
  pub rx_loop_ends :
      (es later : List RxEvent) (stop : RxEvent)
      → All GoesOn es
      → (stop ≡ woken) ⊎ (stop ≡ select_failed)
      → rx_loop publish (es ++ stop ∷ later) ≡ rounds es
  unfolding rx_loop rounds rx_continues rx_round
  rx_loop_ends [] later stop going (inl wakes) = rw wakes refl
  rx_loop_ends [] later stop going (inr fails) = rw fails refl
  rx_loop_ends (interrupted ∷ es) later stop (on, going) stops =
      rw (rx_loop_ends es later stop going stops) refl
  rx_loop_ends (recv_failed ∷ es) later stop (on, going) stops =
      rw (rx_loop_ends es later stop going stops) refl
  rx_loop_ends (datagram sender bytes ∷ es) later stop (on, going) stops =
      rw (rx_loop_ends es later stop going stops) refl
  rx_loop_ends (woken ∷ es) later stop (on, going) stops = absurd on
  rx_loop_ends (select_failed ∷ es) later stop (on, going) stops = absurd on
