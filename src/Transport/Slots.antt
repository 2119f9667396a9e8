-- ===== src/Transport/Slots.antt =====
-- The slots that bound the blocking transfers, and the life of one call of `send` (src/transport.rs):
-- `PendingJob`, `PendingTransfer`, the semaphore of `CurlTransport` and the worker of `send`. The calls
-- run interleaved, a step of one at a time; the runtime's clock and queue only choose which step is next.
pub mod Balance
pub mod Drain
use himmelcloak.Prelude.{
  ℕ, zero, suc, ◌+◌, List, [], ◌∷◌, Option, none, some, Bool, true, false, ◌≡◌,
}

-- `MAX_BLOCKING_REQUESTS`: the permits of the semaphore at first
abbrev pub max_blocking_requests : ℕ
max_blocking_requests = 32

-- The permits that dropping an `Option<OwnedSemaphorePermit>` gives back.
unfoldable pub permits : Bool → ℕ
permits true = 1
permits false = 0

module _ (R : Type 0) where
  -- What the future of `send` and its worker share, each `take`n at most once.
  pub record PendingJob : Type 0 where
    pub permit : Bool
    pub request : Option R

  -- The future of `send`: before it has a permit it owns the request, `gone` once it returned or was
  -- dropped.
  pub data Caller : Type 0 where
    waiting : R → Caller
    awaiting gone : Caller

  -- The closure of `spawn_blocking`; a running one owns its request and its permit.
  pub data Worker : Type 0 where
    unborn queued : Worker
    running : R → Worker
    exited : Worker

  pub record Transfer : Type 0 where
    pub caller : Caller
    pub worker : Worker
    pub job : PendingJob

module _ {R : Type 0} where
  -- Both `take`s have run, or neither value was stored yet.
  abbrev pub empty_job : PendingJob R
  empty_job = record { permit = false; request = none }

  -- `send` before its permit
  abbrev pub call : R → Transfer R
  call request = record { caller = waiting request; worker = unborn; job = empty_job }

  -- `send` once `acquire_owned` gave it a permit: the job is stored and the worker spawned.
  abbrev pub spawn : R → Transfer R
  spawn request = record {
    caller = awaiting;
    worker = queued;
    job = record { permit = true; request = some request };
  }

  -- `permit.zip(request)`: the permits that are freed at once, and what becomes of the worker.
  unfoldable pub serve : Bool → Option R → ℕ × Worker R
  unfolding permits
  serve true (some request) = (0, running request)
  serve permit none = (permits permit, exited)
  serve false (some request) = (0, exited)

  -- The worker begins: it takes the permit and the request out of the job.
  unfoldable pub begin : Transfer R → ℕ × Transfer R
  unfolding serve
  begin t =
      let (freed, worker) = serve t.job.permit t.job.request in
      (freed, record t { worker = worker; job = empty_job })

  -- What an abort does: a queued worker leaves the queue unless that queue is stalled, a running one
  -- is not interrupted.
  unfoldable pub abort : Bool → Worker R → Worker R
  abort stalled unborn = unborn
  abort true queued = queued
  abort false queued = exited
  abort stalled (running request) = running request
  abort stalled exited = exited

  -- `Drop for PendingTransfer`: the future ends, and takes what its worker has not taken.
  unfoldable pub leave : Bool → Transfer R → ℕ × Transfer R
  unfolding permits abort
  leave stalled t = (
    permits t.job.permit,
    record { caller = gone; worker = abort stalled t.worker; job = empty_job },
  )

  -- One step of one call, with the free permits before and after it.
  pub data Move (free : ℕ) (t : Transfer R) : ℕ → Transfer R → Type 0 where
    -- a permit is free
    acquire :
        (request : R) {left : ℕ}
        → t.caller ≡ waiting request
        → free ≡ suc left
        → Move free t left (spawn request)
    -- the deadline passed while it waited, or its caller dropped it
    expire :
        (request : R) → t.caller ≡ waiting request → Move free t free (record t { caller = gone })
    work : t.worker ≡ queued → Move free t (free + (begin t).0) (begin t).1
    -- `send_blocking` returned, and the closure drops its permit
    exit :
        (request : R)
        → t.worker ≡ running request
        → Move free t (suc free) (record t { worker = exited })
    -- the worker's result came, the deadline passed, or the caller dropped the future
    quit :
        (stalled : Bool)
        → t.caller ≡ awaiting
        → Move free t (free + (leave stalled t).0) (leave stalled t).1

  -- A call of `send` begins, or one that began makes a step.
  pub data Step (free : ℕ) : List (Transfer R) → ℕ → List (Transfer R) → Type 0 where
    arrive : (request : R) {ts : List (Transfer R)} → Step free ts free (call request ∷ ts)
    here :
        {t t' : Transfer R} {ts : List (Transfer R)} {free' : ℕ}
        → Move free t free' t'
        → Step free (t ∷ ts) free' (t' ∷ ts)
    there :
        {t : Transfer R} {ts ts' : List (Transfer R)} {free' : ℕ}
        → Step free ts free' ts'
        → Step free (t ∷ ts) free' (t ∷ ts')

  pub data Steps (free : ℕ) (ts : List (Transfer R)) : ℕ → List (Transfer R) → Type 0 where
    none_left : Steps free ts free ts
    then :
        {free' free'' : ℕ} {ts' ts'' : List (Transfer R)}
        → Steps free ts free' ts'
        → Step free' ts' free'' ts''
        → Steps free ts free'' ts''

  -- From a semaphore with all its permits and no call.
  abbrev pub Reachable : ℕ → List (Transfer R) → Type 0
  Reachable free ts = Steps max_blocking_requests [] free ts
