-- ===== src/App/Process/Threads.antt =====
-- src/app_components.h and src/main.cpp: no thread runs before all services have subscribed, nor after
-- its own service.
use reflect_pytest.Prelude.{
  ◌≡◌, refl, sym, ◌∙◌, ap, text_eq_refl, subst, true, false, ◌||◌, Bool, if◌then◌else◌, List, [],
  ◌∷◌, arith, Bool-cases, inl, inr,
}
use reflect_pytest.World.{Service}
use reflect_pytest.Bus.{wire_services}
use reflect_pytest.App.{app_services}
use reflect_pytest.Docs.Flow.Ids.{service_eq, service_eq→eq}
use reflect_pytest.Docs.Flow.{component_id}
use reflect_pytest.Docs.Flow.Edges.{in_tuple}
use reflect_pytest.App.Process.{
  Pc, constructing, starting, spawning, waiting, joining, destroying, in_join, ended, Process,
  thread_leaves, heartbeat_leaves, without, leaves, beats_last, call_start_if_exists, has_start,
  join_thread, destroy_next, move_from, main_step, shutdown, Reach, begins, moves, interrupted,
}

abbrev pub Within : List Service → List Service → Type 0
Within ss ts = (s : Service) → in_tuple s ss ≡ true → in_tuple s ts ≡ true

different : (s t : Service) → service_eq s t ≡ false → service_eq t s ≡ false
different s t h = elim (Bool-cases (service_eq t s)) [
  | inl same ↦
      cc (sym h ∙ ap (service_eq s) (service_eq→eq t s same) ∙ text_eq_refl (component_id s))
  | inr other ↦ other
]

started-Within :
    (s : Service) (ts ss : List Service)
    → in_tuple s ss ≡ true
    → Within ts ss
    → Within (call_start_if_exists s ts) ss
unfolding call_start_if_exists in_tuple
started-Within s ts ss exists w = elim (Bool-cases (has_start s)) [
  | inl starts ↦ rw starts (λ t h. elim (Bool-cases (service_eq t s)) [
    | inl same ↦ rw (service_eq→eq t s same) exists
    | inr other ↦ w t (rw other at h)
  ])
  | inr starts_none ↦ rw starts_none w
]

left-Within : (s : Service) (ts ss : List Service) → Within ts ss → Within (without s ts) ss
unfolding without in_tuple
left-Within s [] ss w = w
left-Within s (u ∷ us) ss w = elim (Bool-cases (service_eq s u)) [
  | inl same ↦ rw same (left-Within s us ss (λ t h. w t (ground (arith, h))))
  | inr other ↦ rw other (λ t h. elim (Bool-cases (service_eq t u)) [
    | inl this ↦ w t (rw this refl)
    | inr later ↦ left-Within s us ss (λ v i. w v (ground (arith, i))) t (rw later at h)
  ])
]

-- A service whose thread has ended may go.
joined-Within :
    (s : Service) (ts ss : List Service) → in_tuple s ts ≡ false → Within ts (s ∷ ss) → Within ts ss
unfolding in_tuple
joined-Within s ts ss gone w t h = elim (Bool-cases (service_eq t s)) [
  | inl same ↦
      (let here : in_tuple s ts ≡ true =
          subst (λ u. in_tuple u ts ≡ true) (service_eq→eq t s same) h in
        absurd (ground arith))
  | inr other ↦ (let both = w t h in rw other at both)
]

no_threads : (ts ss : List Service) → ss ≡ [] → Within ts ss → ts ≡ []
unfolding in_tuple
no_threads [] ss e w = refl
no_threads (t ∷ ts) ss e w =
    let in_none : in_tuple t [] ≡ true =
      subst (λ us. in_tuple t us ≡ true) e (w t (rw (text_eq_refl (component_id t)) refl)) in
    absurd (ground arith)

none_of : (ts : List Service) (s : Service) → ts ≡ [] → in_tuple s ts ≡ true → ⊥
unfolding in_tuple
none_of [] s e h = ground arith
none_of (t ∷ ts) s e h = ground arith

-- The threads that run, the heartbeat, and the end.
abbrev pub IsThreadSafe : List Service → Pc → Process → Type 0
IsThreadSafe order pc p =
    ((s : Service)
      → in_tuple s p.threads ≡ true
      → (p.bus ≡ wire_services order []) × (in_tuple s p.built ≡ true))
    × (p.heartbeat ≡ true → (p.bus ≡ wire_services order []) × Within order p.built)
    × (pc ≡ ended → (p.threads ≡ []) × (p.heartbeat ≡ false))

module _ (order : List Service) where
  -- All services have subscribed, and those with a thread exist.
  abbrev Living : Process → Type 0
  Living p = (p.bus ≡ wire_services order []) × Within p.threads p.built

  -- What holds where the main thread is.
  abbrev Stage : Pc → Process → Type 0
  Stage (constructing ss) p =
      (p.threads ≡ [])
      × (p.heartbeat ≡ false)
      × (wire_services ss p.bus ≡ wire_services order [])
      × ((s : Service) → in_tuple s order ≡ true → (in_tuple s ss || in_tuple s p.built) ≡ true)
  Stage (starting ss) p =
      (p.heartbeat ≡ false) × Living p × Within order p.built × Within ss p.built
  Stage spawning p = (p.heartbeat ≡ false) × Living p × Within order p.built
  Stage waiting p = Living p × Within order p.built
  Stage joining p = Living p × Within order p.built
  Stage destroying p = (p.heartbeat ≡ false) × Living p
  Stage in_join p = (p.heartbeat ≡ false) × Living p
  Stage ended p = (p.heartbeat ≡ false) × Living p × (p.built ≡ [])

  destroy_next-Stage :
      (bs : List Service) (p : Process)
      → p.pc ≡ destroying
      → p.built ≡ bs
      → Stage destroying p
      → Stage (destroy_next bs p).pc (destroy_next bs p)
  unfolding destroy_next
  destroy_next-Stage [] p e none_left (no_beat, l) = (no_beat, l, none_left)
  destroy_next-Stage (s ∷ ss) p e built (no_beat, (wired, alive)) =
      elim (Bool-cases (in_tuple s p.threads)) [
        | inl runs ↦ rw runs (no_beat, (wired, alive))
        | inr gone ↦
            rw (gone, e) (no_beat, (wired, joined-Within s p.threads ss gone (rw built at alive)))
      ]

  join_thread-Stage :
      (bs : List Service) (p : Process)
      → p.pc ≡ in_join
      → p.built ≡ bs
      → Stage in_join p
      → Stage (join_thread bs p).pc (join_thread bs p)
  unfolding join_thread
  join_thread-Stage [] p e b h = rw e h
  join_thread-Stage (s ∷ ss) p e built (no_beat, (wired, alive)) =
      elim (Bool-cases (in_tuple s p.threads)) [
        | inl runs ↦ rw (runs, e) (no_beat, (wired, alive))
        | inr gone ↦
            rw gone (no_beat, (wired, joined-Within s p.threads ss gone (rw built at alive)))
      ]

  joining-Stage :
      (p : Process) (beats : Bool)
      → p.heartbeat ≡ beats
      → p.pc ≡ joining
      → Living p
      → Within order p.built
      → let q = if beats then p else record p { pc = destroying } in Stage q.pc q
  joining-Stage p true h e l all = rw e (l, all)
  joining-Stage p false h e l all = (h, l)

  move_from-Stage :
      (pc : Pc) (p : Process)
      → Within app_services order
      → p.pc ≡ pc
      → Stage pc p
      → Stage (move_from pc p).pc (move_from pc p)
  unfolding move_from wire_services in_tuple destroy_next
  move_from-Stage (constructing (s ∷ ss)) p a e (no_threads, no_beat, wired, all) =
      (no_threads, no_beat, wired, λ t h. ground (arith, all t h))
  move_from-Stage (constructing []) p a e (no_threads, no_beat, wired, all) =
      (no_beat, (wired, rw no_threads (λ t h. absurd (ground arith))), all, λ t h. all t (a t h))
  move_from-Stage (starting (s ∷ ss)) p a e (no_beat, (wired, alive), all, rest) = (
    no_beat,
    (
      wired,
      started-Within s p.threads p.built (rest s (rw (text_eq_refl (component_id s)) refl)) alive,
    ),
    all,
    λ t h. rest t (ground (arith, h)),
  )
  move_from-Stage (starting []) p a e (no_beat, l, all, rest) = (no_beat, l, all)
  move_from-Stage spawning p a e (no_beat, l, all) = (l, all)
  move_from-Stage waiting p a e (l, all) = elim (Bool-cases p.running) [
    | inl on ↦ rw (on, e) (l, all)
    | inr off ↦ rw off (l, all)
  ]
  move_from-Stage joining p a e (l, all) = joining-Stage p p.heartbeat refl e l all
  move_from-Stage destroying p a e (no_beat, l) = destroy_next-Stage p.built p e refl (no_beat, l)
  move_from-Stage in_join p a e h = join_thread-Stage p.built p e refl h
  move_from-Stage ended p a e h = rw e h

  shutdown-Stage : (pc : Pc) (p : Process) → Stage pc p → Stage pc (shutdown p)
  unfolding shutdown
  shutdown-Stage (constructing ss) p h = h
  shutdown-Stage (starting ss) p h = h
  shutdown-Stage spawning p h = h
  shutdown-Stage waiting p h = h
  shutdown-Stage joining p h = h
  shutdown-Stage destroying p h = h
  shutdown-Stage in_join p h = h
  shutdown-Stage ended p h = h

  left-Living :
      (s : Service) (p : Process) → Living p → Living (record p { threads = without s p.threads })
  left-Living s p (wired, alive) = (wired, left-Within s p.threads p.built alive)

  thread_leaves-Stage :
      (s : Service) (pc : Pc) (p : Process) → Stage pc p → Stage pc (thread_leaves s p)
  unfolding thread_leaves without
  thread_leaves-Stage s pc p h = elim (Bool-cases (in_tuple s p.stopping)) [
    | inl told ↦ rw told (gone pc h)
    | inr still ↦ rw still h
  ]
    where
      gone : (pc : Pc) → Stage pc p → Stage pc (record p { threads = without s p.threads })
      gone (constructing ss) (none_runs, no_beat, wired, all) =
          (rw none_runs refl, no_beat, wired, all)
      gone (starting ss) (no_beat, l, all, rest) = (no_beat, left-Living s p l, all, rest)
      gone spawning (no_beat, l, all) = (no_beat, left-Living s p l, all)
      gone waiting (l, all) = (left-Living s p l, all)
      gone joining (l, all) = (left-Living s p l, all)
      gone destroying (no_beat, l) = (no_beat, left-Living s p l)
      gone in_join (no_beat, l) = (no_beat, left-Living s p l)
      gone ended (no_beat, l, empty) = (no_beat, left-Living s p l, empty)

  heartbeat_leaves-Stage : (pc : Pc) (p : Process) → Stage pc p → Stage pc (heartbeat_leaves p)
  unfolding heartbeat_leaves
  heartbeat_leaves-Stage pc p h = left_if p.running
    where
      quiet : (pc : Pc) → Stage pc p → Stage pc (record p { heartbeat = false })
      quiet (constructing ss) (none_runs, no_beat, wired, all) = (none_runs, refl, wired, all)
      quiet (starting ss) (no_beat, l, all, rest) = (refl, l, all, rest)
      quiet spawning (no_beat, l, all) = (refl, l, all)
      quiet waiting h = h
      quiet joining h = h
      quiet destroying (no_beat, l) = (refl, l)
      quiet in_join (no_beat, l) = (refl, l)
      quiet ended (no_beat, l, empty) = (refl, l, empty)

      left_if : (on : Bool) → Stage pc (if on then p else record p { heartbeat = false })
      left_if true = h
      left_if false = quiet pc h

  -- The threads do not move the main thread.
  thread_leaves-pc :
      (s : Service) (p : Process)
      → Stage p.pc (thread_leaves s p)
      → Stage (thread_leaves s p).pc (thread_leaves s p)
  unfolding thread_leaves
  thread_leaves-pc s p h = elim (Bool-cases (in_tuple s p.stopping)) [
    | inl told ↦ rw told (rw told at h)
    | inr still ↦ rw still (rw still at h)
  ]

  heartbeat_leaves-pc :
      (p : Process)
      → Stage p.pc (heartbeat_leaves p)
      → Stage (heartbeat_leaves p).pc (heartbeat_leaves p)
  unfolding heartbeat_leaves
  heartbeat_leaves-pc p h = same p.running h
    where
      same :
          (on : Bool)
          → Stage p.pc (if on then p else record p { heartbeat = false })
          → let q = if on then p else record p { heartbeat = false } in Stage q.pc q
      same true h = h
      same false h = h

  Reach-Stage : (p : Process) → Within app_services order → Reach order p → Stage p.pc p
  unfolding main_step shutdown
  Reach-Stage p a begins = (refl, refl, refl, λ s h. rw h refl)
  Reach-Stage _ a (moves p r) = move_from-Stage p.pc p a refl (Reach-Stage p a r)
  Reach-Stage _ a (interrupted p r) = shutdown-Stage p.pc p (Reach-Stage p a r)
  Reach-Stage _ a (leaves s p r) =
      thread_leaves-pc s p (thread_leaves-Stage s p.pc p (Reach-Stage p a r))
  Reach-Stage _ a (beats_last p r) =
      heartbeat_leaves-pc p (heartbeat_leaves-Stage p.pc p (Reach-Stage p a r))

  -- What holds of the process, whatever stage it is in.
  safe : (pc : Pc) (p : Process) → Stage pc p → IsThreadSafe order pc p
  safe (constructing ss) p (none_runs, no_beat, _, _) = (
    λ s h. absurd (none_of p.threads s none_runs h),
    λ h. absurd (ground arith),
    λ h. absurd (ground arith),
  )
  safe (starting ss) p (no_beat, (wired, alive), all, _) =
      (λ s h. (wired, alive s h), λ h. (wired, all), λ h. absurd (ground arith))
  safe spawning p (no_beat, (wired, alive), all) =
      (λ s h. (wired, alive s h), λ h. (wired, all), λ h. absurd (ground arith))
  safe waiting p ((wired, alive), all) =
      (λ s h. (wired, alive s h), λ h. (wired, all), λ h. absurd (ground arith))
  safe joining p ((wired, alive), all) =
      (λ s h. (wired, alive s h), λ h. (wired, all), λ h. absurd (ground arith))
  safe destroying p (no_beat, (wired, alive)) =
      (λ s h. (wired, alive s h), λ h. absurd (ground arith), λ h. absurd (ground arith))
  safe in_join p (no_beat, (wired, alive)) =
      (λ s h. (wired, alive s h), λ h. absurd (ground arith), λ h. absurd (ground arith))
  safe ended p (no_beat, (wired, alive), empty) = (
    λ s h. (wired, alive s h),
    λ h. absurd (ground arith),
    λ h. (no_threads p.threads p.built empty alive, no_beat),
  )

  -- In every state that the process can reach, with signals at any time, the threads ending at any time after they
  -- were told to, and the services constructed in any order that has all of them: a service's thread runs only after all services have subscribed,
  -- when the table of handlers no longer changes, and only while the service exists. The heartbeat runs only then, too,
  -- and only while all services exist. When main has returned, no thread runs.
  pub process_safe :
      (p : Process) → Within app_services order → Reach order p → IsThreadSafe order p.pc p
  process_safe p a r = safe p.pc p (Reach-Stage p a r)
