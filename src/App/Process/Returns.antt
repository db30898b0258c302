-- ===== src/App/Process/Returns.antt =====
-- src/main.cpp and the destructors of the services: a signal ends the process, as each thread that was told to
-- stop gets its turn.
use reflect_pytest.Prelude.{
  ℕ, zero, suc, ◌+◌, ◌*◌, ◌≡◌, refl, sym, ◌∙◌, ap, subst, true, false, List, [], ◌∷◌, length, arith,
  Bool-cases, inl, inr, text_eq_refl,
}
use reflect_pytest.World.{Service}
use reflect_pytest.Docs.Flow.{component_id}
use reflect_pytest.Docs.Flow.Edges.{in_tuple}
use reflect_pytest.App.Process.{
  Pc, waiting, joining, destroying, in_join, ended, Process, destroy_next, join_thread, move_from,
  main_step, without, thread_leaves, heartbeat_leaves,
}

-- Each of the services' threads gets a turn, in which it leaves if it was told to.
unfoldable pub thread_turns : List Service → Process → Process
thread_turns [] p = p
thread_turns (s ∷ ss) p = thread_turns ss (thread_leaves s p)

abbrev pub turn : Process → Process
turn p = heartbeat_leaves (thread_turns p.built p)

-- Rounds in which every thread gets a turn, and then the main thread.
unfoldable pub rounds : ℕ → Process → Process
rounds zero p = p
rounds (suc n) p = rounds n (main_step (turn p))

abbrev Ends : ℕ → Process → Type 0
Ends n p = (rounds n p).pc ≡ ended

-- What a turn leaves as it is.
record Kept (p q : Process) : Type 0 where
  same_pc : q.pc ≡ p.pc
  same_built : q.built ≡ p.built
  same_running : q.running ≡ p.running

thread_leaves-Kept : (s : Service) (p : Process) → Kept p (thread_leaves s p)
unfolding thread_leaves
thread_leaves-Kept s p = elim (Bool-cases (in_tuple s p.stopping)) [
  | inl told ↦ rw told (record { same_pc = refl; same_built = refl; same_running = refl })
  | inr still ↦ rw still (record { same_pc = refl; same_built = refl; same_running = refl })
]

thread_turns-Kept : (ss : List Service) (p : Process) → Kept p (thread_turns ss p)
unfolding thread_turns
thread_turns-Kept [] p = record { same_pc = refl; same_built = refl; same_running = refl }
thread_turns-Kept (s ∷ ss) p =
    let first = thread_leaves-Kept s p in
    let rest = thread_turns-Kept ss (thread_leaves s p) in
    record {
      same_pc = rest.same_pc ∙ first.same_pc;
      same_built = rest.same_built ∙ first.same_built;
      same_running = rest.same_running ∙ first.same_running;
    }

turn-pc : (p : Process) → (turn p).pc ≡ p.pc
unfolding heartbeat_leaves
turn-pc p = let k = thread_turns-Kept p.built p in let e = k.same_pc in ground arith

turn-built : (p : Process) → (turn p).built ≡ p.built
unfolding heartbeat_leaves
turn-built p = let k = thread_turns-Kept p.built p in let e = k.same_built in ground arith

turn-running : (p : Process) → (turn p).running ≡ p.running
unfolding heartbeat_leaves
turn-running p = let k = thread_turns-Kept p.built p in let e = k.same_running in ground arith

turn-heartbeat : (p : Process) → p.running ≡ false → (turn p).heartbeat ≡ false
unfolding heartbeat_leaves
turn-heartbeat p off = let k = thread_turns-Kept p.built p in let e = k.same_running in ground arith

without_self : (s : Service) (ts : List Service) → in_tuple s (without s ts) ≡ false
unfolding without in_tuple
without_self s [] = refl
without_self s (t ∷ ts) = ground (arith, without_self s ts)

without_other :
    (s t : Service) (ts : List Service) → in_tuple s ts ≡ false → in_tuple s (without t ts) ≡ false
unfolding without in_tuple
without_other s t [] h = refl
without_other s t (u ∷ us) h = ground (arith, without_other s t us)

stays_away :
    (s : Service) (ss : List Service) (p : Process)
    → in_tuple s p.threads ≡ false
    → in_tuple s (thread_turns ss p).threads ≡ false
unfolding thread_turns thread_leaves
stays_away s [] p h = h
stays_away s (t ∷ ss) p h =
    stays_away s ss (thread_leaves t p) (elim (Bool-cases (in_tuple t p.stopping)) [
      | inl told ↦ rw told (without_other s t p.threads h)
      | inr still ↦ rw still h
    ])

told_leaves :
    (s : Service) (ss : List Service) (p : Process)
    → in_tuple s p.stopping ≡ true
    → in_tuple s (thread_turns (s ∷ ss) p).threads ≡ false
unfolding thread_turns thread_leaves
told_leaves s ss p told = stays_away s ss (thread_leaves s p) (rw told (without_self s p.threads))

-- A service that is destroyed next, and was told to stop, has no thread after the turn.
turn-threads :
    (s : Service) (ss : List Service) (p : Process)
    → p.built ≡ s ∷ ss
    → in_tuple s p.stopping ≡ true
    → in_tuple s (turn p).threads ≡ false
unfolding heartbeat_leaves
turn-threads s ss p b told =
    let left : in_tuple s (thread_turns p.built p).threads ≡ false =
      subst (λ bs. in_tuple s (thread_turns bs p).threads ≡ false) (sym b)
        (told_leaves s ss p told) in
    ground arith

next : (pc : Pc) (p : Process) (n : ℕ) → p.pc ≡ pc → Ends n (move_from pc (turn p)) → Ends (suc n) p
unfolding rounds main_step
next pc p n e h = subst (λ c. Ends n (move_from c (turn p))) (sym (turn-pc p ∙ e)) h

Ends-more : (n : ℕ) (p : Process) → Ends n p → Ends (suc n) p
unfolding rounds move_from
Ends-more zero p e = next ended p 0 e (turn-pc p ∙ e)
Ends-more (suc n) p e = Ends-more n (main_step (turn p)) e

told : (s : Service) (ts : List Service) → in_tuple s (s ∷ ts) ≡ true
unfolding in_tuple
told s ts = rw (text_eq_refl (component_id s)) refl

destroyed :
    (bs : List Service) (p : Process) (n : ℕ)
    → p.pc ≡ destroying
    → p.built ≡ bs
    → n ≡ suc (2 * length bs)
    → Ends n p
unfolding rounds move_from destroy_next join_thread
destroyed [] p n e b count = rw count (
    next destroying p 0 e
      (subst (λ bs. Ends 0 (destroy_next bs (turn p))) (sym (turn-built p ∙ b)) refl))
destroyed (s ∷ ss) p n e b count =
    let q = turn p in
    let r = record q { pc = in_join; stopping = s ∷ q.stopping } in
    let m = suc (2 * length ss) in
    let built = turn-built p ∙ b in
    let joined : Ends (suc m) r = next in_join r m refl (
      subst (λ bs. Ends m (join_thread bs (turn r))) (sym (turn-built r ∙ built))
        (rw (turn-threads s ss r built (told s q.stopping)) (destroyed ss _ m refl refl refl))) in
    let counted : n ≡ suc (suc m) = omega arith in
    rw counted (
      next destroying p (suc m) e (
        subst (λ bs. Ends (suc m) (destroy_next bs q)) (sym built)
          (elim (Bool-cases (in_tuple s q.threads)) [
            | inl runs ↦ rw runs joined
            | inr gone ↦
                rw gone (
                  Ends-more m (record q { built = ss })
                    (destroyed ss _ m (turn-pc p ∙ e) refl refl))
          ])))

from_joining :
    (p : Process) (n : ℕ)
    → p.pc ≡ joining
    → p.running ≡ false
    → n ≡ suc (suc (2 * length p.built))
    → Ends n p
unfolding move_from
from_joining p n e off count = rw count (
    next joining p (suc (2 * length p.built)) e (
      rw (turn-heartbeat p off)
        (destroyed p.built _ (suc (2 * length p.built)) refl (turn-built p) refl)))

-- Once a signal has come and the main thread is in g_running.wait, main returns: it has done so after three rounds
-- and two for each service, where in a round every thread that was told to stop leaves its loop,
-- and then the main thread makes a move. A join waits until the thread has left.
pub main_returns :
    (p : Process)
    → p.pc ≡ waiting
    → p.running ≡ false
    → (rounds (3 + 2 * length p.built) p).pc ≡ ended
unfolding move_from
main_returns p e off =
    let n = suc (suc (2 * length p.built)) in
    let counted : 3 + 2 * length p.built ≡ suc n = omega arith in
    rw counted (
      next waiting p n e (
        rw (turn-running p ∙ off)
          (from_joining _ n refl refl (ap (λ bs. suc (suc (2 * length bs))) (sym (turn-built p))))))
