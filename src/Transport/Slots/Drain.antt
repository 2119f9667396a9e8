-- ===== src/Transport/Slots/Drain.antt =====
-- The slots come back: every pool can empty itself, without a new call.
use himmelcloak.Prelude.{
  ℕ, suc, ◌+◌, List, [], ◌∷◌, Memᴰ, false, ◌≡◌, ◌⊎◌, inl, inr, refl, ap, arith,
}
use mathlib.Core.Path.{subst}
use himmelcloak.Transport.Slots.{
  max_blocking_requests, PendingJob, Caller, waiting, awaiting, gone, Worker, unborn, queued,
  running, exited, Transfer, permits, leave, Move, expire, exit, quit, here, there, Steps,
  none_left, then, Reachable,
}
use himmelcloak.Transport.Slots.Balance.{
  running_slots, held, all_held, IsOrderly, AllOrderly, Reachable-AllOrderly, Reachable-held,
}

module _ {R : Type 0} where
  pub data Moves (n : ℕ) (t : Transfer R) : ℕ → Transfer R → Type 0 where
    unmoved : Moves n t n t
    moved :
        {n' n'' : ℕ} {t' t'' : Transfer R}
        → Moves n t n' t'
        → Move n' t' n'' t''
        → Moves n t n'' t''

  Steps-here :
      {n : ℕ} {t : Transfer R} {n' : ℕ} {t' : Transfer R} (ts : List (Transfer R))
      → Moves n t n' t'
      → Steps n (t ∷ ts) n' (t' ∷ ts)
  Steps-here ts unmoved = none_left
  Steps-here ts (moved moves move) = then (Steps-here ts moves) (here move)

  Steps-there :
      {n : ℕ} {ts : List (Transfer R)} {n' : ℕ} {ts' : List (Transfer R)} (t : Transfer R)
      → Steps n ts n' ts'
      → Steps n (t ∷ ts) n' (t ∷ ts')
  Steps-there t none_left = none_left
  Steps-there t (then steps step) = then (Steps-there t steps) (there step)

  Steps-trans :
      {n : ℕ} {ts : List (Transfer R)} {m : ℕ} {us : List (Transfer R)} {k : ℕ}
      {vs : List (Transfer R)}
      → Steps n ts m us
      → Steps m us k vs
      → Steps n ts k vs
  Steps-trans first none_left = first
  Steps-trans first (then steps step) = then (Steps-trans first steps) step

  -- A call whose future has ended and whose worker does not run.
  pub record IsIdle (t : Transfer R) : Type 0 where
    pub ended : t.caller ≡ gone
    pub still : running_slots t.worker ≡ 0

  Caller-cases :
      (c : Caller R) → ((request : R) × (c ≡ waiting request)) ⊎ (c ≡ awaiting) ⊎ (c ≡ gone)
  Caller-cases (waiting request) = inl (request, refl)
  Caller-cases awaiting = inr (inl refl)
  Caller-cases gone = inr (inr refl)

  Worker-cases : (w : Worker R) → ((request : R) × (w ≡ running request)) ⊎ (running_slots w ≡ 0)
  unfolding running_slots
  Worker-cases unborn = inr refl
  Worker-cases queued = inr refl
  Worker-cases (running request) = inl (request, refl)
  Worker-cases exited = inr refl

  -- Its caller gives up.
  part :
      (n : ℕ) (t : Transfer R) → (n' : ℕ) × (t' : Transfer R) × Moves n t n' t' × (t'.caller ≡ gone)
  unfolding leave
  part n t = elim (Caller-cases t.caller) [
    | inl (request, e) ↦ (n, record t { caller = gone }, moved unmoved (expire request e), refl)
    | inr (inl e) ↦ (n + (leave false t).0, (leave false t).1, moved unmoved (quit false e), refl)
    | inr (inr e) ↦ (n, t, unmoved, e)
  ]

  -- And libcurl returns.
  rest : (n : ℕ) (t : Transfer R) → (n' : ℕ) × (t' : Transfer R) × Moves n t n' t' × IsIdle t'
  unfolding running_slots
  rest n t =
      let (n', t', moves, e) = part n t in
      elim (Worker-cases t'.worker) [
        | inl (request, r) ↦ (
          suc n',
          record t' { worker = exited },
          moved moves (exit request r),
          record { ended = e; still = refl },
        )
        | inr r ↦ (n', t', moves, record { ended = e; still = r })
      ]

  pub data AllIdle : List (Transfer R) → Type 0 where
    no_call : AllIdle []
    one_more : {t : Transfer R} {ts : List (Transfer R)} → IsIdle t → AllIdle ts → AllIdle (t ∷ ts)

  drain :
      (n : ℕ) (ts : List (Transfer R))
      → (n' : ℕ) × (ts' : List (Transfer R)) × Steps n ts n' ts' × AllIdle ts'
  drain n [] = (n, [], none_left, no_call)
  drain n (t ∷ ts) =
      let (n1, t', moves, i) = rest n t in
      let (n2, ts', steps, is) = drain n1 ts in
      (n2, t' ∷ ts', Steps-trans (Steps-here ts moves) (Steps-there t' steps), one_more i is)

  held-idle : {t : Transfer R} → IsOrderly t → IsIdle t → held t ≡ 0
  unfolding held permits
  held-idle {t = t} o i =
      let p : permits t.job.permit ≡ 0 =
        ap (λ (j : PendingJob R). permits j.permit) (o.idle_gone i.ended) in
      omega (arith, p, i.still)

  all_held-idle : (ts : List (Transfer R)) → AllOrderly ts → AllIdle ts → all_held ts ≡ 0
  unfolding all_held
  all_held-idle _ o no_call = refl
  all_held-idle _ o (one_more {t = t} {ts = ts} i is) =
      omega
        (arith, held-idle (o t (Memᴰ.head refl)) i, all_held-idle ts (λ u m. o u (Memᴰ.tail m)) is)

  -- From every reachable state there are steps after which every caller has gone, no transfer runs and all
  -- 32 slots are free: no order of timeouts, cancellations and stalled workers loses a slot for good.
  pub Reachable-drains :
      {n : ℕ} {ts : List (Transfer R)}
      → Reachable n ts
      → (ts' : List (Transfer R)) × Steps n ts max_blocking_requests ts' × AllIdle ts'
  Reachable-drains {n = n} {ts = ts} h =
      let (n', ts', steps, is) = drain n ts in
      let h' = Steps-trans h steps in
      let all : n' ≡ max_blocking_requests =
        omega (arith, Reachable-held h', all_held-idle ts' (Reachable-AllOrderly h') is) in
      (ts', subst (λ k. Steps n ts k ts') all steps, is)
