-- ===== src/World/Commands.antt =====
-- A command: a piece of a handler, run with the mutexes that its thread holds. `none` is a fault: a
-- mutex taken twice that is not recursive, a read outside an array, a bad `any_cast`, or a chain of
-- messages longer than the fuel of `publish`.
use reflect_pytest.Prelude.{
  ℕ, Bool, true, false, not, ◌&&◌, ◌||◌, Option, none, some, List, [], ◌∷◌, ◌==◌, if◌then◌else◌,
}
use reflect_pytest.World.Members.{
  World, Lock, motor_mu, kinematics_mu, power_mu, state_mu, thermal_mu, environment_mu,
  autonomous_mu, log_mu, peer_mu,
}

abbrev pub Cmd : Type 0 → Type 0
Cmd F = List Lock → World F → Option (World F)

module _ {F : Type 0} where
  abbrev pub bind : Option (World F) → (World F → Option (World F)) → Option (World F)
  bind none f = none
  bind (some w) f = f w

  abbrev pub bind_read : {A : Type 0} → Option A → (A → Option (World F)) → Option (World F)
  bind_read none f = none
  bind_read (some a) f = f a

  infixl 5 ◌>>◌ ◌>>=◌
  abbrev pub ◌>>◌ : Cmd F → Cmd F → Cmd F
  ◌>>◌ c d held w = bind (c held w) (d held)

  -- A read of the world, which may fault, then the rest.
  abbrev pub ◌>>=◌ : {A : Type 0} → (World F → Option A) → (A → Cmd F) → Cmd F
  ◌>>=◌ r k held w = bind_read (r w) (λ a. k a held w)

  abbrev pub done : Cmd F
  done held w = some w

  abbrev pub modify : (World F → World F) → Cmd F
  modify f held w = some (f w)

  abbrev pub the : {A : Type 0} → (World F → A) → World F → Option A
  the f w = some (f w)

  abbrev pub when : Bool → Cmd F → Cmd F
  when b c = if b then c else done

-- A number for each mutex, in the order in which a thread may come to hold them.
abbrev pub rank : Lock → ℕ
rank autonomous_mu = 0
rank environment_mu = 1
rank motor_mu = 2
rank state_mu = 3
rank kinematics_mu = 4
rank power_mu = 5
rank thermal_mu = 6
rank peer_mu = 7
rank log_mu = 8

-- The services that declare std::recursive_mutex.
abbrev pub is_recursive : Lock → Bool
is_recursive autonomous_mu = true
is_recursive environment_mu = true
is_recursive _ = false

unfoldable pub holds : Lock → List Lock → Bool
holds l [] = false
holds l (k ∷ ks) = rank k == rank l || holds l ks

-- std::lock_guard: a thread that takes a mutex again blocks for ever, unless it is recursive. The
-- guard releases the mutex at the end of its scope, so what follows runs with `held` again.
unfoldable pub with_lock : {F : Type 0} → Lock → Cmd F → Cmd F
with_lock l body held w =
    if holds l held && not (is_recursive l)
    then none
    else body (l ∷ held) (record w { acquired = (l, held) ∷ w.acquired })

-- A scope that takes a mutex, copies `a` out of the members and perhaps changes them; what follows
-- runs after the release.
unfoldable pub locked : {F A : Type 0} → Lock → (World F → A × World F) → (A → Cmd F) → Cmd F
locked l f k held w =
    if holds l held && not (is_recursive l)
    then none
    else let (a, w') = f (record w { acquired = (l, held) ∷ w.acquired }) in k a held w'

-- A scope that only copies.
abbrev pub copy : {F A : Type 0} → (World F → A) → World F → A × World F
copy f w = (f w, w)
