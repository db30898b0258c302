-- ===== src/Services/Environment/Cache.antt =====
-- The cache of regions as a map: what an update stores is found again, other regions keep their
-- data, no region is stored twice, and who holds a pointer sees the update.
use reflect_pytest.Prelude.{
  ℕ, zero, suc, ◌<◌, ◌≡◌, ◌≢◌, refl, ap, inl, inr, Option, none, some, List, [], ◌∷◌, ◌++◌, length,
  set, get_elem?, All, arith, ◌==◌, Bool-cases, if◌then◌else◌,
}
use reflect_pytest.Messages.{EnvironmentPayload}
use reflect_pytest.World.{World, Lock}
use reflect_pytest.Services.Environment.{find_region, store}

module _ {F : Type 0} where
  get_elem?-set_self :
      (heap : List (EnvironmentPayload F)) (p : ℕ) (e : EnvironmentPayload F)
      → p < length heap
      → get_elem? (set heap p e) p ≡ some e
  get_elem?-set_self [] p e h = elim h [ ]
  get_elem?-set_self (x ∷ heap) zero e h = refl
  get_elem?-set_self (x ∷ heap) (suc p) e h = get_elem?-set_self heap p e (omega arith)

  get_elem?-set_ne :
      (heap : List (EnvironmentPayload F)) (p q : ℕ) (e : EnvironmentPayload F)
      → p ≢ q
      → get_elem? (set heap p e) q ≡ get_elem? heap q
  get_elem?-set_ne [] p q e h = refl
  get_elem?-set_ne (x ∷ heap) zero zero e h = absurd (h refl)
  get_elem?-set_ne (x ∷ heap) zero (suc q) e h = refl
  get_elem?-set_ne (x ∷ heap) (suc p) zero e h = refl
  get_elem?-set_ne (x ∷ heap) (suc p) (suc q) e h =
      get_elem?-set_ne heap p q e λ same. h (ap suc same)

  get_elem?-push :
      (heap : List (EnvironmentPayload F)) (e : EnvironmentPayload F)
      → get_elem? (heap ++ e ∷ []) (length heap) ≡ some e
  get_elem?-push [] e = refl
  get_elem?-push (x ∷ heap) e = get_elem?-push heap e

  get_elem?-append :
      (heap : List (EnvironmentPayload F)) (e : EnvironmentPayload F) (p : ℕ)
      → p < length heap
      → get_elem? (heap ++ e ∷ []) p ≡ get_elem? heap p
  get_elem?-append [] e p h = elim h [ ]
  get_elem?-append (x ∷ heap) e zero h = refl
  get_elem?-append (x ∷ heap) e (suc p) h = get_elem?-append heap e p (omega arith)

  -- What the cache says of a region: the data that its pointer leads to.
  unfoldable pub region_data :
      List (EnvironmentPayload F) → List ℕ → ℕ → Option (EnvironmentPayload F)
  region_data heap [] region = none
  region_data heap (p ∷ ps) region = elim (get_elem? heap p) [
    | none ↦ none
    | some e ↦ if e.region_id == region then some e else region_data heap ps region
  ]

  -- The region of an entry.
  unfoldable pub region_of : List (EnvironmentPayload F) → ℕ → Option ℕ
  region_of heap p = elim (get_elem? heap p) [ none ↦ none | some e ↦ some e.region_id ]

  -- The search ends at an entry of the cache that holds the region.
  find_region-hit :
      (heap : List (EnvironmentPayload F)) (ps : List ℕ) (region p : ℕ)
      → find_region heap ps region ≡ some (some p)
      → region_of heap p ≡ some region
  unfolding find_region region_of
  find_region-hit heap [] region p h = cc
  find_region-hit heap (q ∷ ps) region p h = ground (arith, find_region-hit heap ps region p)

  find_region-lt :
      (heap : List (EnvironmentPayload F)) (ps : List ℕ) (region p : ℕ)
      → All (λ q. q < length heap) ps
      → find_region heap ps region ≡ some (some p)
      → p < length heap
  unfolding find_region
  find_region-lt heap [] region p v h = cc
  find_region-lt heap (q ∷ ps) region p (v, vs) h =
      ground (arith, find_region-lt heap ps region p vs)

  data_other :
      (heap : List (EnvironmentPayload F)) (ps : List ℕ) (p : ℕ) (e : EnvironmentPayload F) (r : ℕ)
      → region_of heap p ≡ some e.region_id
      → p < length heap
      → e.region_id ≢ r
      → region_data (set heap p e) ps r ≡ region_data heap ps r
  unfolding region_data region_of
  data_other heap [] p e r h lt ne = refl
  data_other heap (q ∷ ps) p e r h lt ne =
      let rest = data_other heap ps p e r h lt ne in
      elim (Bool-cases (p == q)) [
        | inl same ↦ ground (arith, get_elem?-set_self heap p e lt)
        | inr other ↦ ground (arith, get_elem?-set_ne heap p q e)
      ]

  data_self :
      (heap : List (EnvironmentPayload F)) (ps : List ℕ) (p : ℕ) (e : EnvironmentPayload F)
      → find_region heap ps e.region_id ≡ some (some p)
      → p < length heap
      → region_data (set heap p e) ps e.region_id ≡ some e
  unfolding region_data find_region
  data_self heap [] p e h lt = cc
  data_self heap (q ∷ ps) p e h lt = elim (Bool-cases (p == q)) [
    | inl same ↦ ground (arith, get_elem?-set_self heap p e lt)
    | inr other ↦ ground (arith, get_elem?-set_ne heap p q e, data_self heap ps p e)
  ]

  data_push :
      (heap : List (EnvironmentPayload F)) (ps : List ℕ) (e : EnvironmentPayload F) (r : ℕ)
      → All (λ p. p < length heap) ps
      → find_region heap ps e.region_id ≡ some none
      → region_data (heap ++ e ∷ []) (ps ++ length heap ∷ []) r
        ≡ (if e.region_id == r then some e else region_data heap ps r)
  unfolding region_data find_region
  data_push heap [] e r v h = ground (arith, get_elem?-push heap e)
  data_push heap (q ∷ ps) e r (v, vs) h =
      ground (arith, get_elem?-append heap e q v, data_push heap ps e r vs)

  -- An update of the cache is an update of a map: afterwards the region of the update has the new
  -- data, and every other region what it had. Assumed: the search for the region has ended as it
  -- does, and the pointers of the cache lead to allocations.
  pub store_region :
      (env : EnvironmentPayload F) (found : Option ℕ) (held : List Lock) (w w' : World F) (r : ℕ)
      → All (λ p. p < length w.heap) w.environment.cache
      → find_region w.heap w.environment.cache env.region_id ≡ some found
      → store env found held w ≡ some w'
      → region_data w'.heap w'.environment.cache r
        ≡ (if env.region_id == r then some env else region_data w.heap w.environment.cache r)
  unfolding store
  store_region env (some p) held w w' r v h e =
      let lt = find_region-lt w.heap w.environment.cache env.region_id p v h in
      let region = find_region-hit w.heap w.environment.cache env.region_id p h in
      let self = data_self w.heap w.environment.cache p env h lt in
      elim (Bool-cases (env.region_id == r)) [
        | inl same ↦ ground arith
        | inr other ↦
            ground (arith, data_other w.heap w.environment.cache p env r region lt (ground arith))
      ]
  store_region env none held w w' r v h e =
      ground (arith, data_push w.heap w.environment.cache env r v h)
