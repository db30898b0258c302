-- ===== src/Safety/Rules.antt =====
-- Total correctness of commands: a command returns a world with a property, and the rules by which
-- the commands of World/Commands.antt do.
use reflect_pytest.Prelude.{
  ℕ, ◌≤◌, ◌<◌, ◌≡◌, refl, ◌⊎◌, inl, inr, true, false, Option, some, List, [], ◌∷◌, All, arith,
  All-map,
}
use reflect_pytest.World.{
  World, Lock, Cmd, bind, bind_read, rank, is_recursive, holds, with_lock, locked, autonomous_mu,
}

pub data Returns {F : Type 0} (Q : World F → Type 0) : Option (World F) → Type 0 where
  returns : {w : World F} → Q w → Returns Q (some w)

-- What was returned.
pub Returns-some :
    {F : Type 0} (Q : World F → Type 0) {o : Option (World F)}
    → Returns Q o
    → (w : World F) × (o ≡ some w) × Q w
Returns-some Q (returns {w = w} q) = (w, refl, q)

pub Returns-map :
    {F : Type 0} {Q R : World F → Type 0} {o : Option (World F)}
    → Returns Q o
    → ((w : World F) → Q w → R w)
    → Returns R o
Returns-map (returns {w = w} q) f = returns (f w q)

pub Returns-bind :
    {F : Type 0} {R Q : World F → Type 0} {o : Option (World F)} {f : World F → Option (World F)}
    → Returns R o
    → ((w : World F) → R w → Returns Q (f w))
    → Returns Q (bind o f)
Returns-bind (returns {w = w} r) k = k w r

-- A read that returns, then the rest.
pub Returns-read :
    {F A : Type 0} {Q : World F → Type 0} {o : Option A} {a : A} (f : A → Option (World F))
    → o ≡ some a
    → Returns Q (f a)
    → Returns Q (bind_read o f)
Returns-read {Q = Q} f e r = rw e r

-- A command whose result is known, then the rest.
pub Returns-step :
    {F : Type 0} {Q : World F → Type 0} {o : Option (World F)} {w : World F}
    (f : World F → Option (World F))
    → o ≡ some w
    → Returns Q (f w)
    → Returns Q (bind o f)
Returns-step f e r = rw e r

-- All mutexes held have a rank below `n`.
abbrev pub Below : ℕ → List Lock → Type 0
Below n held = All (λ k. rank k < n) held

-- A thread that takes a mutex holds it already, and it is recursive, or holds only lower ones.
abbrev pub InOrder : Lock × List Lock → Type 0
InOrder (l, held) = ((is_recursive l ≡ true) × (holds l held ≡ true)) ⊎ Below (rank l) held

pub Below-mono : {m n : ℕ} (held : List Lock) → m ≤ n → Below m held → Below n held
Below-mono {m} {n} held h = All-map (λ k. rank k < m) (λ k. rank k < n) held (λ k b. omega arith)

-- Holding lower mutexes only, a thread does not hold this one.
pub holds-Below : (l : Lock) (held : List Lock) → Below (rank l) held → holds l held ≡ false
unfolding holds
holds-Below l [] b = refl
holds-Below l (k ∷ ks) b = ground (arith, holds-Below l ks b.1)

-- A thread that holds at most the first mutex may take it.
pub InOrder-first : (held : List Lock) → Below 1 held → InOrder (autonomous_mu, held)
unfolding holds
InOrder-first [] b = inr tt
InOrder-first (k ∷ ks) b = inl (refl, ground arith)

-- The world in which a mutex has just been taken.
abbrev pub took : {F : Type 0} → Lock → List Lock → World F → World F
took l held w = record w { acquired = (l, held) ∷ w.acquired }

-- A mutex that may be taken is taken.
pub with_lock-InOrder :
    {F : Type 0} (l : Lock) (body : Cmd F) (held : List Lock) (w : World F)
    → InOrder (l, held)
    → with_lock l body held w ≡ body (l ∷ held) (took l held w)
unfolding with_lock
with_lock-InOrder l body held w (inl (r, h)) = ground arith
with_lock-InOrder l body held w (inr b) = rw (holds-Below l held b)

pub Returns-lock :
    {F : Type 0} {Q : World F → Type 0} (l : Lock) (body : Cmd F) (held : List Lock) (w : World F)
    → InOrder (l, held)
    → Returns Q (body (l ∷ held) (took l held w))
    → Returns Q (with_lock l body held w)
Returns-lock {Q = Q} l body held w o r = rw (with_lock-InOrder l body held w o) r

pub Returns-locked :
    {F A : Type 0} {Q : World F → Type 0} (l : Lock) (f : World F → A × World F) (k : A → Cmd F)
    (held : List Lock) (w : World F)
    → Below (rank l) held
    → (let (a, w') = f (took l held w) in Returns Q (k a held w'))
    → Returns Q (locked l f k held w)
unfolding locked
Returns-locked l f k held w b r = rw (holds-Below l held b) r
