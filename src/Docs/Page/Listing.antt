-- ===== src/Docs/Page/Listing.antt =====
-- The components that the section of a message lists.
use reflect_pytest.Prelude.{
  or_true, text_eq, ◌≡◌, refl, Bool, true, false, not, ◌&&◌, ◌||◌, if◌then◌else◌, List, [], ◌∷◌,
  ◌++◌, arith, chars, Bool-cases, inl, inr,
}
use mathlib.Core.List.{append-nil, append_assoc}
use reflect_pytest.Messages.{MsgId}
use reflect_pytest.World.{
  Service, motor, kinematics, power, state, thermal, environment, autonomous, log, udp_bridge,
}
use reflect_pytest.Docs.Text.{Bytes}
use reflect_pytest.Docs.Flow.{
  component_name, component_subscribes, component_publishes, is_bridge, any_component,
}
use reflect_pytest.Docs.Page.{
  print_components, print_publishers, print_subscribers, components_line, component_lines,
}

-- The services that pass a test, in the order of the tuple.
unfoldable pub services : (Service → Bool) → List Service → List Service
services test [] = []
services test (c ∷ cs) =
    let rest = services test cs in if test c && not (is_bridge c) then c ∷ rest else rest

abbrev pub quoted : Service → Bytes
quoted c = chars "`" ++ (chars (component_name c) ++ chars "`")

-- The names between backquotes, with commas between them; `first` says that none is before them.
unfoldable pub listing : Bool → List Service → Bytes
listing first [] = []
listing first (c ∷ cs) = (if first then [] else chars ", ") ++ (quoted c ++ listing false cs)

abbrev pub named_in : Bytes → List Service → Bytes
named_in heading [] = []
named_in heading (c ∷ cs) = heading ++ (listing true (c ∷ cs) ++ chars "<br>\n")

is_bridge_lem : (c : Service) → text_eq (chars (component_name c)) (chars "UdpBridge") ≡ is_bridge c
is_bridge_lem motor = refl
is_bridge_lem kinematics = refl
is_bridge_lem power = refl
is_bridge_lem state = refl
is_bridge_lem thermal = refl
is_bridge_lem environment = refl
is_bridge_lem autonomous = refl
is_bridge_lem log = refl
is_bridge_lem udp_bridge = refl

abbrev some_service : List Service → Bool
some_service [] = false
some_service (c ∷ cs) = true

print_components_lem :
    (test : Service → Bool) (cs : List Service) (first : Bool) (out : Bytes)
    → print_components test cs first out
      ≡ (out ++ listing first (services test cs), not first || some_service (services test cs))
unfolding print_components services listing
print_components_lem test [] first out = rw (append-nil out) (ground arith)
print_components_lem test (c ∷ cs) first out = elim (Bool-cases (test c && not (is_bridge c))) [
  | inl shown ↦
      rw (is_bridge_lem c, shown)
        (rw
          (
            print_components_lem test cs false _,
            append_assoc out ((if first then [] else chars ", ") ++ quoted c)
                (listing false (services test cs)),
            append_assoc (if first then [] else chars ", ") (quoted c)
                (listing false (services test cs)),
            or_true (not first),
          )
          refl)
  | inr hidden ↦ rw (is_bridge_lem c, hidden) (print_components_lem test cs first out)
]

any_service :
    (test : Service → Bool) (cs : List Service)
    → any_component (λ c. test c && not (is_bridge c)) cs ≡ some_service (services test cs)
unfolding any_component services
any_service test [] = refl
any_service test (c ∷ cs) = elim (Bool-cases (test c && not (is_bridge c))) [
  | inl shown ↦ rw shown refl
  | inr hidden ↦ rw hidden (any_service test cs)
]

components_line_lem :
    (heading : Bytes) (test : Service → Bool) (cs : List Service)
    → components_line
        (any_component (λ c. test c && not (is_bridge c)) cs)
        heading
        (print_components test cs true [])
      ≡ named_in heading (services test cs)
unfolding components_line
components_line_lem heading test cs =
    rw (any_service test cs, print_components_lem test cs true []) (by_list (services test cs))
  where
    by_list :
        (ss : List Service)
        → components_line (some_service ss) heading (listing true ss, some_service ss)
          ≡ named_in heading ss
    by_list [] = refl
    by_list (s ∷ ss) = refl

-- The lines of a section that list components: the names of the publishing services other than the
-- bridge, in the order of the tuple, and those of the subscribing ones. A line without services is
-- left out, so none says "_None_".
pub listed_components :
    (cs : List Service) (id : MsgId)
    → component_lines cs id
      ≡ named_in (chars "**Publishes:** ") (services (λ c. component_publishes c id) cs)
        ++ named_in (chars "**Subscribes:** ") (services (λ c. component_subscribes c id) cs)
unfolding component_lines print_publishers print_subscribers services
listed_components cs id =
    rw
      (
        components_line_lem (chars "**Publishes:** ") (λ c. component_publishes c id) cs,
        components_line_lem (chars "**Subscribes:** ") (λ c. component_subscribes c id) cs,
      )
      refl
