-- ===== src/Docs/Flow/Ids.antt =====
-- The identifiers of the components in the diagram are different.
use reflect_pytest.Prelude.{
  text_eq, text_eq→eq, ◌≡◌, refl, sym, ◌∙◌, ap, ◌==◌, Bool, true, if◌then◌else◌, [], ◌∷◌, arith,
  Bool-cases, inl, inr,
}
use reflect_pytest.World.{
  Service, motor, kinematics, power, state, thermal, environment, autonomous, log, udp_bridge,
}
use reflect_pytest.Docs.Text.{Bytes}
use reflect_pytest.Docs.Flow.{component_id, Arrow, arrow_eq, is_bridge}

pub arrow_eq→eq : (a b : Arrow) → arrow_eq a b ≡ true → a ≡ b
arrow_eq→eq (a, b) (c, d) h = elim (Bool-cases (text_eq a c)) [
  | inl same ↦ rw (text_eq→eq a c same, text_eq→eq b d (ground arith)) refl
  | inr other ↦ absurd (ground arith)
]

-- The components have one identifier.
abbrev pub service_eq : Service → Service → Bool
service_eq a b = text_eq (component_id a) (component_id b)

-- The identifiers differ in the first character.
abbrev service_of : Bytes → Service
service_of [] = motor
service_of (c ∷ s) =
    if c == b'M'
    then motor
    else if c == b'K'
    then kinematics
    else if c == b'P'
    then power
    else if c == b'S'
    then state
    else if c == b'T'
    then thermal
    else if c == b'E'
    then environment
    else if c == b'A'
    then autonomous
    else if c == b'L'
    then log
    else udp_bridge

service_of-component_id : (s : Service) → service_of (component_id s) ≡ s
unfolding component_id
service_of-component_id motor = refl
service_of-component_id kinematics = refl
service_of-component_id power = refl
service_of-component_id state = refl
service_of-component_id thermal = refl
service_of-component_id environment = refl
service_of-component_id autonomous = refl
service_of-component_id log = refl
service_of-component_id udp_bridge = refl

pub service_eq→eq : (a b : Service) → service_eq a b ≡ true → a ≡ b
service_eq→eq a b h =
    sym (service_of-component_id a)
    ∙ ap service_of (text_eq→eq (component_id a) (component_id b) h)
    ∙ service_of-component_id b

pub service_eq_bridge : (a : Service) → service_eq a udp_bridge ≡ is_bridge a
unfolding component_id
service_eq_bridge motor = refl
service_eq_bridge kinematics = refl
service_eq_bridge power = refl
service_eq_bridge state = refl
service_eq_bridge thermal = refl
service_eq_bridge environment = refl
service_eq_bridge autonomous = refl
service_eq_bridge log = refl
service_eq_bridge udp_bridge = refl

pub is_bridge→eq : (a : Service) → is_bridge a ≡ true → a ≡ udp_bridge
is_bridge→eq a h = service_eq→eq a udp_bridge (service_eq_bridge a ∙ h)
