-- ===== src/Bridge/Sockets.antt =====
-- src/udp_bridge.cpp: the constructor and the destructor of the bridge, with the descriptors of the
-- process that they open and close.
use reflect_pytest.Prelude.{
  ℕ, ◌≡◌, ◌≢◌, ◌==◌, Bool, true, false, if◌then◌else◌, Option, none, some, List, [], ◌∷◌, arith,
}
use reflect_pytest.World.{udp_bridge}
use reflect_pytest.Bridge.{subscribes}
use reflect_pytest.Bus.{Bus, bind_all}

-- What `socket`, `bind` and `pipe` answer: a descriptor or -1, success or -1, two descriptors or -1.
pub record Answers : Type 0 where
  pub socket : Option ℕ
  pub bind_succeeds : Bool
  pub pipe : Option (ℕ × ℕ)

-- The open descriptors of the process, and the bus that the constructor is given.
pub record Host : Type 0 where
  pub open_fds : List ℕ
  pub bus : Bus

-- udp_fd_, wake_[0] and wake_[1]; or the exceptions.
pub data Constructed : Type 0 where
  bridge : ℕ → ℕ → ℕ → Constructed
  socket_failed bind_failed pipe_failed : Constructed

-- close of a descriptor; one that is not open changes nothing.
unfoldable pub close : ℕ → List ℕ → List ℕ
close fd [] = []
close fd (n ∷ fds) = if n == fd then fds else n ∷ close fd fds

abbrev pub close_fd : ℕ → Host → Host
unfolding close
close_fd fd h = record h { open_fds = close fd h.open_fds }

-- The end of the constructor, from the call of `pipe` on.
unfoldable pub open_pipe : ℕ → Option (ℕ × ℕ) → Host → Constructed × Host
unfolding close bind_all subscribes
open_pipe udp_fd none h = (pipe_failed, close_fd udp_fd h)
open_pipe udp_fd (some (r, w)) h = (
  bridge udp_fd r w,
  record { open_fds = r ∷ w ∷ h.open_fds; bus = bind_all udp_bridge (subscribes udp_bridge) h.bus },
)

-- The constructor, from the call of `bind` on.
unfoldable pub open_bound : ℕ → Answers → Host → Constructed × Host
unfolding close open_pipe
open_bound udp_fd a h =
    if a.bind_succeeds then open_pipe udp_fd a.pipe h else (bind_failed, close_fd udp_fd h)

unfoldable pub construct : Answers → Host → Constructed × Host
unfolding open_bound
construct a h = elim a.socket [
  | none ↦ (socket_failed, h)
  | some udp_fd ↦ open_bound udp_fd a (record h { open_fds = udp_fd ∷ h.open_fds })
]

-- ~UdpBridge, after the join. An object whose constructor threw has no destructor call.
unfoldable pub destroy : Constructed → Host → Host
unfolding close
destroy (bridge udp_fd r w) h = close_fd w (close_fd r (close_fd udp_fd h))
destroy _ h = h

-- The bridge is there exactly if the three calls succeeded.
abbrev pub all_succeed : Answers → Bool
all_succeed a = elim a.socket [
  | none ↦ false
  | some u ↦ (if a.bind_succeeds then elim a.pipe [ none ↦ false | some p ↦ true ] else false)
]

abbrev pub is_constructed : Constructed → Bool
is_constructed (bridge u r w) = true
is_constructed _ = false

-- The descriptors that the calls return are different.
abbrev pub AreDistinct : Constructed → Type 0
AreDistinct (bridge u r w) = (r ≢ u) × (w ≢ u) × (r ≢ w)
AreDistinct _ = Unit

-- The bridge is constructed if and only if `socket`, `bind` and `pipe` succeed. If it is not, the
-- constructor throws with the open descriptors and the bus as they were before. If it is, the
-- bus has its handlers, and its destructor leaves the descriptors that were open before it was
-- constructed. Assumed: the descriptors of the socket and of the pipe are different.
pub construct_cases :
    (a : Answers) (h : Host)
    → AreDistinct (construct a h).0
    → let (made, h') = construct a h in
      (is_constructed made ≡ all_succeed a)
      × (is_constructed made ≡ false → h' ≡ h)
      × (is_constructed made ≡ true → h'.bus ≡ bind_all udp_bridge (subscribes udp_bridge) h.bus)
      × ((destroy made h').open_fds ≡ h.open_fds)
unfolding construct open_bound open_pipe destroy close
construct_cases a h d = ground arith
