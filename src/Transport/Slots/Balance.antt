-- ===== src/Transport/Slots/Balance.antt =====
-- No slot is lost or doubled, and an abandoned request is never sent.
use himmelcloak.Prelude.{
  ℕ, ◌+◌, ◌≤◌, List, [], ◌∷◌, Memᴰ, none, some, Bool, true, false, ◌≡◌, refl, sym, ◌∙◌, ap, arith,
}
use mathlib.Core.Path.{subst}
use himmelcloak.Transport.Slots.{
  max_blocking_requests, PendingJob, waiting, gone, Worker, unborn, queued, running, exited,
  Transfer, empty_job, permits, call, serve, begin, abort, leave, Move, acquire, expire, work, exit,
  quit, Step, arrive, here, there, none_left, then, Reachable,
}

module _ {R : Type 0} where
  unfoldable pub running_slots : Worker R → ℕ
  running_slots unborn = 0
  running_slots queued = 0
  running_slots (running request) = 1
  running_slots exited = 0

  -- The transfers that libcurl is running.
  pub all_running : List (Transfer R) → ℕ
  all_running [] = 0
  all_running (t ∷ ts) = running_slots t.worker + all_running ts

  -- The permits a call holds: the job's, and the running worker's.
  unfoldable pub held : Transfer R → ℕ
  held t = permits t.job.permit + running_slots t.worker

  unfoldable pub all_held : List (Transfer R) → ℕ
  all_held [] = 0
  all_held (t ∷ ts) = held t + all_held ts

  running-held : (ts : List (Transfer R)) → all_running ts ≤ all_held ts
  unfolding all_running all_held held
  running-held [] = omega arith
  running-held (t ∷ ts) = ground (arith, running-held ts)

  -- A call whose future does not await its worker has nothing in its job.
  pub record IsOrderly (t : Transfer R) : Type 0 where
    pub idle_gone : t.caller ≡ gone → t.job ≡ empty_job
    pub idle_waiting : (request : R) → t.caller ≡ waiting request → t.job ≡ empty_job
    -- and a worker only exists once the permit does
    pub unborn_waiting : (request : R) → t.caller ≡ waiting request → t.worker ≡ unborn

  serve-permits :
      (p : Bool) (request : _)
      → (serve p request).0 + running_slots (serve {R = R} p request).1 ≡ permits p
  unfolding serve running_slots permits
  serve-permits true (some request) = refl
  serve-permits true none = refl
  serve-permits false none = refl
  serve-permits false (some request) = refl

  running-abort :
      (stalled : Bool) (w : Worker R) → running_slots (abort stalled w) ≡ running_slots w
  unfolding abort running_slots
  running-abort stalled unborn = refl
  running-abort true queued = refl
  running-abort false queued = refl
  running-abort stalled (running request) = refl
  running-abort stalled exited = refl

  held-waiting :
      {t : Transfer R} (request : R) → IsOrderly t → t.caller ≡ waiting request → held t ≡ 0
  unfolding held permits running_slots
  held-waiting {t = t} request o e =
      let p : permits t.job.permit ≡ 0 =
        ap (λ (j : PendingJob R). permits j.permit) (o.idle_waiting request e) in
      let w : running_slots t.worker ≡ 0 = ap running_slots (o.unborn_waiting request e) in
      omega (arith, p, w)

  Move-held :
      {n : ℕ} {t : Transfer R} {n' : ℕ} {t' : Transfer R}
      → IsOrderly t
      → Move n t n' t'
      → n + held t ≡ n' + held t'
  unfolding held permits running_slots begin leave
  Move-held o (acquire request e f) = omega (arith, held-waiting request o e)
  Move-held o (expire request e) = refl
  Move-held {t = t} o (work e) =
      let w : running_slots t.worker ≡ 0 = ap running_slots e in
      omega (arith, serve-permits t.job.permit t.job.request)
  Move-held {t = t} o (exit request e) =
      let w : running_slots t.worker ≡ 1 = ap running_slots e in omega arith
  Move-held {t = t} o (quit stalled e) = omega (arith, running-abort stalled t.worker)

  Move-IsOrderly :
      {n : ℕ} {t : Transfer R} {n' : ℕ} {t' : Transfer R}
      → IsOrderly t
      → Move n t n' t'
      → IsOrderly t'
  unfolding begin leave
  Move-IsOrderly o (acquire request e f) = record {
    idle_gone = λ h. ground arith;
    idle_waiting = λ r h. ground arith;
    unborn_waiting = λ r h. ground arith;
  }
  Move-IsOrderly o (expire request e) = record {
    idle_gone = λ h. o.idle_waiting request e;
    idle_waiting = λ r h. ground arith;
    unborn_waiting = λ r h. ground arith;
  }
  Move-IsOrderly o (work e) = record {
    idle_gone = λ h. refl;
    idle_waiting = λ r h. refl;
    unborn_waiting = λ r h. ground (arith, e, o.unborn_waiting r h);
  }
  Move-IsOrderly o (exit request e) = record {
    idle_gone = o.idle_gone;
    idle_waiting = o.idle_waiting;
    unborn_waiting = λ r h. ground (arith, e, o.unborn_waiting r h);
  }
  Move-IsOrderly o (quit stalled e) = record {
    idle_gone = λ h. refl;
    idle_waiting = λ r h. refl;
    unborn_waiting = λ r h. ground arith;
  }

  call-IsOrderly : (request : R) → IsOrderly (call request)
  call-IsOrderly request = record {
    idle_gone = λ h. refl;
    idle_waiting = λ r h. refl;
    unborn_waiting = λ r h. refl;
  }

  abbrev pub AllOrderly : List (Transfer R) → Type 0
  AllOrderly ts = (t : Transfer R) → Memᴰ t ts → IsOrderly t

  Step-AllOrderly :
      {n : ℕ} {ts : List (Transfer R)} {n' : ℕ} {ts' : List (Transfer R)}
      → AllOrderly ts
      → Step n ts n' ts'
      → AllOrderly ts'
  Step-AllOrderly o (arrive request) t (Memᴰ.head e) =
      subst IsOrderly (sym e) (call-IsOrderly request)
  Step-AllOrderly o (arrive request) t (Memᴰ.tail m) = o t m
  Step-AllOrderly o (here move) t (Memᴰ.head e) =
      subst IsOrderly (sym e) (Move-IsOrderly (o _ (Memᴰ.head refl)) move)
  Step-AllOrderly o (here move) t (Memᴰ.tail m) = o t (Memᴰ.tail m)
  Step-AllOrderly o (there step) t (Memᴰ.head e) = o t (Memᴰ.head e)
  Step-AllOrderly o (there step) t (Memᴰ.tail m) =
      Step-AllOrderly (λ u k. o u (Memᴰ.tail k)) step t m

  Step-held :
      {n : ℕ} {ts : List (Transfer R)} {n' : ℕ} {ts' : List (Transfer R)}
      → AllOrderly ts
      → Step n ts n' ts'
      → n + all_held ts ≡ n' + all_held ts'
  unfolding all_held held permits running_slots
  Step-held o (arrive request) = omega arith
  Step-held o (here move) = omega (arith, Move-held (o _ (Memᴰ.head refl)) move)
  Step-held o (there step) = omega (arith, Step-held (λ u k. o u (Memᴰ.tail k)) step)

  pub Reachable-AllOrderly : {n : ℕ} {ts : List (Transfer R)} → Reachable n ts → AllOrderly ts
  Reachable-AllOrderly none_left t m = elim m [ ]
  Reachable-AllOrderly (then steps step) t m = Step-AllOrderly (Reachable-AllOrderly steps) step t m

  pub Reachable-held :
      {n : ℕ} {ts : List (Transfer R)} → Reachable n ts → n + all_held ts ≡ max_blocking_requests
  unfolding all_held
  Reachable-held none_left = refl
  Reachable-held (then steps step) =
      sym (Step-held (Reachable-AllOrderly steps) step) ∙ Reachable-held steps

  begin_empty :
      (t : Transfer R)
      → t.job ≡ empty_job
      → begin t ≡ (0, record t { worker = exited; job = empty_job })
  unfolding begin serve permits
  begin_empty t e = ap (λ (j : PendingJob R). begin (record t { job = j })) e

  -- A request whose caller has gone is never sent: a worker that begins after its future was dropped or timed out only
  -- exits, and it gives no slot back a second time.
  pub Reachable-unsent :
      {n : ℕ} {ts : List (Transfer R)} {t : Transfer R}
      → Reachable n ts
      → Memᴰ t ts
      → t.caller ≡ gone
      → begin t ≡ (0, record t { worker = exited; job = empty_job })
  Reachable-unsent {t = t} h m e = begin_empty t ((Reachable-AllOrderly h t m).idle_gone e)

  -- However calls of `send` interleave, the free slots and the held ones are always the 32 of the semaphore, and
  -- libcurl never runs more than 32 transfers.
  pub Reachable-Balanced :
      {n : ℕ} {ts : List (Transfer R)}
      → Reachable n ts
      → (n + all_held ts ≡ max_blocking_requests) × (all_running ts ≤ max_blocking_requests)
  Reachable-Balanced {ts = ts} h =
      (Reachable-held h, omega (arith, Reachable-held h, running-held ts))
