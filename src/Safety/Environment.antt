-- ===== src/Safety/Environment.antt =====
-- The handlers of the environment service return and keep the invariant: every pointer in the cache
-- leads to an allocation.
use Prim.Native.Nat.{max}
use reflect_pytest.Prelude.{
  ℕ, suc, ◌+◌, ◌≤◌, ◌<◌, ◌≡◌, refl, sym, subst, inl, inr, true, Option, none, some, List, [], ◌∷◌,
  ◌++◌, length, All, All-map, All-append, All-set, get_elem?-some, length-set, length-append, arith,
  ltb, ◌==◌, Bool-cases,
}
use reflect_pytest.Float.{Float}
use reflect_pytest.Messages.{Msg, EnvironmentPayload, InternalEnvRequestPayload}
use reflect_pytest.World.{World, Lock, holds, environment_mu, autonomous_mu, Platform, Cmd}
use reflect_pytest.Services.Environment.{
  find_region, find_covering, covers, store, answer, on_environment, on_internal_env_request,
  throttle_ns,
}
use reflect_pytest.Safety.Rules.{
  Returns, returns, Returns-bind, Returns-read, Returns-lock, Returns-map, Below, Below-mono, took,
}
use reflect_pytest.Safety.Inv.{Inv, Sound, ValidPtr, RegionFits}
use reflect_pytest.Safety.Log.{log-Returns}

pub Inv-mono : {F : Type 0} ⦃fl : Float F⦄ (m n : ℕ) (w : World F) → m ≤ n → Inv n w → Inv m w
Inv-mono m n w h i = ground arith

module _ {F : Type 0} ⦃fl : Float F⦄ where
  -- The search ends without a fault, at nothing or at an allocation.
  pub find_region-Returns :
      (heap : List (EnvironmentPayload F)) (cache : List ℕ) (region : ℕ)
      → All (λ p. p < length heap) cache
      → (o : Option ℕ) × (find_region heap cache region ≡ some o) × ValidPtr (length heap) o
  unfolding find_region
  find_region-Returns heap [] region v = (none, refl, tt)
  find_region-Returns heap (p ∷ ps) region (v, vs) =
      let (e, at) = get_elem?-some heap p v in
      let rest = find_region-Returns heap ps region vs in
      elim (Bool-cases (e.region_id == region)) [
        | inl found ↦ (some p, ground arith, v)
        | inr next ↦ (rest.0, ground arith, rest.2)
      ]

  lt-grown :
      (p : ℕ) (heap : List (EnvironmentPayload F)) (env : EnvironmentPayload F)
      → p < length heap
      → p < length (heap ++ env ∷ [])
  lt-grown p heap env h = omega (arith, length-append heap (env ∷ []))

  ValidPtr-grown :
      (o : Option ℕ) (heap : List (EnvironmentPayload F)) (env : EnvironmentPayload F)
      → ValidPtr (length heap) o
      → ValidPtr (length (heap ++ env ∷ [])) o
  ValidPtr-grown none heap env v = tt
  ValidPtr-grown (some p) heap env v = lt-grown p heap env v

  store-Returns :
      (n : ℕ) (env : EnvironmentPayload F) (found : Option ℕ) (held : List Lock) (w : World F)
      → RegionFits env
      → ValidPtr (length w.heap) found
      → Inv n w
      → Returns (Inv n) (store env found held w)
  unfolding store
  store-Returns n env (some p) held w f v i =
      let regions = All-set RegionFits w.heap p env f i.regions_fit in
      let size = length-set w.heap p env in
      let cache =
        subst (λ (k : ℕ). All (λ p. p < k) w.environment.cache) (sym size) i.cache_valid in
      let ptr =
        subst (λ (k : ℕ). ValidPtr k w.autonomous.current_env_ptr) (sym size) i.env_ptr_valid in
      returns (ground arith)
  store-Returns n env none held w f v i =
      let regions = All-append RegionFits w.heap (env ∷ []) i.regions_fit (f, tt) in
      let size : length (w.heap ++ env ∷ []) ≡ length w.heap + 1 =
        length-append w.heap (env ∷ []) in
      let grown = λ (p : ℕ) (h : p < length w.heap). lt-grown p w.heap env h in
      let cache =
        All-append (λ p. p < length (w.heap ++ env ∷ [])) w.environment.cache (length w.heap ∷ [])
          (All-map (λ p. p < length w.heap) (λ p. p < length (w.heap ++ env ∷ []))
            w.environment.cache grown i.cache_valid)
          (omega arith, tt) in
      let ptr = ValidPtr-grown w.autonomous.current_env_ptr w.heap env i.env_ptr_valid in
      returns (ground arith)

module _ {F : Type 0} ⦃fl : Float F⦄ where
  pub find_covering-Returns :
      (heap : List (EnvironmentPayload F)) (cache : List ℕ) (req : InternalEnvRequestPayload F)
      → All (λ p. p < length heap) cache
      → (o : Option (ℕ × EnvironmentPayload F)) × (find_covering heap cache req ≡ some o)
        × ((p : ℕ) (e : EnvironmentPayload F) → o ≡ some (p, e) → p < length heap)
  unfolding find_covering
  find_covering-Returns heap [] req v = (none, refl, λ p e h. cc)
  find_covering-Returns heap (p ∷ ps) req (v, vs) =
      let (e, at) = get_elem?-some heap p v in
      let rest = find_covering-Returns heap ps req vs in
      elim (Bool-cases (covers e req)) [
        | inl found ↦ (some (p, e), ground arith, λ q d h. ground arith)
        | inr next ↦ (rest.0, ground arith, rest.2)
      ]

module _ {F : Type 0} ⦃fl : Float F⦄ ⦃pl : Platform F⦄ (publish : Msg F → Cmd F) where
  pub on_environment-Returns :
      (sound : Sound publish 1) (n : ℕ) (env : EnvironmentPayload F) (held : List Lock)
      (w : World F)
      → Below 1 held
      → RegionFits env
      → Inv n w
      → Returns (Inv n) (on_environment publish env held w)
  unfolding on_environment
  on_environment-Returns sound n env held w b f i =
      let high : Below 7 (environment_mu ∷ held) = (omega arith, Below-mono held (omega arith) b) in
      let (o, e, v) = find_region-Returns w.heap w.environment.cache env.region_id i.cache_valid in
      Returns-lock environment_mu _ held _ (inr b) (
        Returns-read _ e (
          Returns-bind (store-Returns n env o _ (took environment_mu held w) f v (ground arith))
            λ w1 i1.
              Returns-bind
                (log-Returns n _ _ _ w1 (Below-mono (environment_mu ∷ held) (omega arith) high) i1)
                λ w2 i2. sound.returns_from n _ _ w2 (omega arith) high tt i2))

  answer-Returns :
      (sound : Sound publish 3) (n : ℕ) (req : InternalEnvRequestPayload F)
      (o : Option (ℕ × EnvironmentPayload F)) (held : List Lock) (w : World F)
      → Below 2 held
      → holds autonomous_mu held ≡ true
      → ((p : ℕ) (e : EnvironmentPayload F) → o ≡ some (p, e) → p < length w.heap)
      → Inv n w
      → Returns (Inv n) (answer publish req o held w)
  unfolding answer
  answer-Returns sound n req (some (p, e)) held w b a v i =
      let high : Below 8 held = Below-mono held (omega arith) b in
      let m = max n (suc p) in
      let valid = v p e refl in
      let j : Inv m w = ground arith in
      Returns-map
        (Returns-bind (log-Returns m _ _ _ w high j)
          λ w' i'. sound.returns_from m _ _ w' (omega arith) (b, a) (omega arith) i')
        λ w' i'. Inv-mono n m w' (omega arith) i'
  answer-Returns sound n req none held w b a v i =
      let high : Below 7 held = Below-mono held (omega arith) b in
      elim (Bool-cases (ltb (w.environment.last_request_time + throttle_ns) w.now)) [
        | inl on ↦ rw on (
            Returns-bind (log-Returns n _ _ _ w (Below-mono held (omega arith) b) i) λ w1 i1.
              Returns-bind (sound.returns_from n _ _ w1 (omega arith) high tt i1)
                λ w2 i2. returns (ground arith))
        | inr off ↦ rw off (returns i)
      ]

  pub on_internal_env_request-Returns :
      (sound : Sound publish 3) (n : ℕ) (req : InternalEnvRequestPayload F) (held : List Lock)
      (w : World F)
      → Below 1 held
      → holds autonomous_mu held ≡ true
      → Inv n w
      → Returns (Inv n) (on_internal_env_request publish req held w)
  unfolding on_internal_env_request holds
  on_internal_env_request-Returns sound n req held w b a i =
      let inner : Below 2 (environment_mu ∷ held) =
        (omega arith, Below-mono held (omega arith) b) in
      let (o, e, v) = find_covering-Returns w.heap w.environment.cache req i.cache_valid in
      Returns-lock environment_mu _ held _ (inr b) (
        Returns-read _ e (
          answer-Returns sound n req o (environment_mu ∷ held) (took environment_mu held w) inner a
            v (ground arith)))
