-- ===== src/ThreadPool/Shutdown.antt =====
-- What `threadPoolDestory` of src/thread_pool.c waits for: the workers leave, in boundedly many steps.
use linux_file_manager.Prelude.{
  Bool, List, [], ap, arith, false, inl, inr, length, refl, suc, true, ℕ, ◌*◌, ◌++◌, ◌+◌, ◌<◌, ◌∙◌,
  ◌∷◌, ◌≡◌, ◌≤◌, ◌⊎◌,
}
use linux_file_manager.ThreadPool.Steps.{Step-Inv}
use linux_file_manager.ThreadPool.{
  Task, Threadpool, begin_task, end_task, leaves, threadexit, worker_take, worker_woken,
}
use linux_file_manager.ThreadPool.System.{
  Phase, Step, System, Worker, at_head, exit, exiting, fetch, finish, grow, holding, leave, running,
  shrink, shut_down, sleep, start, submit, waiting, wake, woken_phase,
}
use linux_file_manager.ThreadPool.Tally.{count, each, has_task, occupied, tally, tally-append}
use linux_file_manager.ThreadPool.Invariant.{Inv, tally_split}

-- The steps of workers, as against those of the manager and of callers.
abbrev pub of_worker : {s t : System} → Step s t → Bool
of_worker (submit t p e) = false
of_worker (sleep ls w rs e ph waits) = true
of_worker (fetch ls w rs t p e ph taken) = true
of_worker (wake ls w rs e ph) = true
of_worker (leave ls w rs e ph left) = true
of_worker (start ls w rs t e ph) = true
of_worker (finish ls w rs t e ph) = true
of_worker (exit ls w rs e ph) = true
of_worker (grow old fresh h) = false
of_worker (shrink old) = false
of_worker shut_down = false

-- So many steps of workers lead from one state to the other.
pub data Run (s : System) : ℕ → System → Type 0 where
  at_rest : Run s 0 s
  one_more :
      {n : ℕ} {t u : System} → Run s n t → (st : Step t u) → of_worker st ≡ true → Run s (suc n) u

-- The steps that a worker has left.
abbrev steps_left : Phase → ℕ
steps_left exiting = 1
steps_left at_head = 2
steps_left waiting = 3
steps_left (running t) = 3
steps_left (holding t) = 4

abbrev weight : Worker → ℕ
weight w = steps_left w.phase

weight-le : (ws : List Worker) → tally weight ws ≤ 4 * length ws
weight-le [] = omega arith
weight-le (w ∷ ws) = ground (arith, weight-le ws)

-- What stays when a worker steps after the shutdown.
record Calmer (s t : System) : Type 0 where
  stops : t.pool.stopping ≡ true
  taken_same : t.taken ≡ s.taken
  lighter : tally weight t.workers < tally weight s.workers

changed :
    (ls : List Worker) (w : Worker) (ph : Phase) (rs ws : List Worker)
    → ws ≡ ls ++ w ∷ rs
    → steps_left ph < weight w
    → tally weight (ls ++ record w { phase = ph } ∷ rs) < tally weight ws
changed ls w ph rs ws e less = omega (
  arith,
  tally_split weight ls w rs ws e,
  tally-append weight ls (record w { phase = ph } ∷ rs),
  less,
)

no_take : (p : Threadpool) → p.stopping ≡ true → worker_take p ≡ leaves
unfolding worker_take
no_take p stop = ground (arith, stop)

woken_stops : (p : Threadpool) → p.stopping ≡ true → (worker_woken p).1.stopping ≡ true
unfolding worker_woken
woken_stops p stop = ground (arith, stop)

woken_less : (b : Bool) → steps_left (woken_phase b) < 3
woken_less true = omega arith
woken_less false = omega arith

Step-Calmer :
    {s t : System} (st : Step s t) → of_worker st ≡ true → s.pool.stopping ≡ true → Calmer s t
unfolding begin_task end_task threadexit
Step-Calmer {s} (sleep ls w rs e ph waits) h stop = cc (waits, no_take s.pool stop)
Step-Calmer {s} (fetch ls w rs t p e ph taken) h stop = cc (taken, no_take s.pool stop)
Step-Calmer {s} (wake ls w rs e ph) h stop = record {
  stops = woken_stops s.pool stop;
  taken_same = refl;
  lighter = changed ls w _ rs s.workers e (rw ph (woken_less (worker_woken s.pool).0));
}
Step-Calmer {s} (leave ls w rs e ph left) h stop = record {
  stops = stop;
  taken_same = refl;
  lighter = changed ls w exiting rs s.workers e (rw ph (omega arith));
}
Step-Calmer {s} (start ls w rs t e ph) h stop = record {
  stops = stop;
  taken_same = refl;
  lighter = changed ls w (running t) rs s.workers e (rw ph (omega arith));
}
Step-Calmer {s} (finish ls w rs t e ph) h stop = record {
  stops = stop;
  taken_same = refl;
  lighter = changed ls w at_head rs s.workers e (rw ph (omega arith));
}
Step-Calmer {s} (exit ls w rs e ph) h stop = record {
  stops = stop;
  taken_same = refl;
  lighter =
      omega (
        arith,
        tally_split weight ls w rs s.workers e,
        tally-append weight ls rs,
        ap steps_left ph,
      );
}
Step-Calmer (submit t p e) h stop = absurd (ground (arith, h))
Step-Calmer (grow old fresh k) h stop = absurd (ground (arith, h))
Step-Calmer (shrink old) h stop = absurd (ground (arith, h))
Step-Calmer shut_down h stop = absurd (ground (arith, h))

Run-Calmer :
    {s t : System} {n : ℕ}
    → s.pool.stopping ≡ true
    → Run s n t
    → (t.pool.stopping ≡ true)
      × (t.taken ≡ s.taken)
      × (n + tally weight t.workers ≤ tally weight s.workers)
Run-Calmer stop at_rest = (stop, refl, omega arith)
Run-Calmer stop (one_more run st h) =
    let (on, same, less) = Run-Calmer stop run in
    let c = Step-Calmer st h on in (c.stops, c.taken_same ∙ same, omega (arith, less, c.lighter))

Run-Inv : {s t : System} {n : ℕ} → Inv s → Run s n t → Inv t
Run-Inv v at_rest = v
Run-Inv v (one_more run st h) = Step-Inv (Run-Inv v run) st

abbrev pub CanStep : System → Type 0
CanStep s = (u : System) × (st : Step s u) × (of_worker st ≡ true)

-- A worker can always step when there is a shutdown.
next_step :
    (s : System) (w : Worker) (rs : List Worker) (ph : Phase)
    → s.pool.stopping ≡ true
    → s.workers ≡ w ∷ rs
    → w.phase ≡ ph
    → CanStep s
next_step s w rs at_head stop e ph = (_, leave [] w rs e ph (no_take s.pool stop), refl)
next_step s w rs waiting stop e ph = (_, wake [] w rs e ph, refl)
next_step s w rs (holding t) stop e ph = (_, start [] w rs t e ph, refl)
next_step s w rs (running t) stop e ph = (_, finish [] w rs t e ph, refl)
next_step s w rs exiting stop e ph = (_, exit [] w rs e ph, refl)

next_of :
    (s : System) (ws : List Worker)
    → s.pool.stopping ≡ true
    → s.workers ≡ ws
    → (s.workers ≡ []) ⊎ CanStep s
next_of s [] stop e = inl e
next_of s (w ∷ rs) stop e = inr (next_step s w rs w.phase stop e refl)

-- With no worker left, nothing is in hand and `threadIDs` is free.
all_gone :
    (s : System)
    → Inv s
    → s.workers ≡ []
    → (occupied s.pool.thread_ids ≡ 0) × ((x : Task) → count x s.taken ≡ count x s.finished)
all_gone s v e = (
  omega (arith, v.entries, ap (tally each) e),
  λ x. omega (arith, v.in_hand x, ap (tally (has_task x)) e),
)

-- From any state of the invariant in which the shutdown flag is set, whatever the workers do, and where
-- a waiting worker may wake at any time (the broadcasts are not modelled): they
-- take no further task; they make at most four steps each; and as long as one is left, some worker
-- can step. When none is left, every entry of `threadIDs` is free, so the joins of `threadPoolDestory`
-- wait for nobody, and each task that was taken is finished.
pub shutdown_drains :
    (s t : System) (n : ℕ)
    → Inv s
    → s.pool.stopping ≡ true
    → Run s n t
    → (t.taken ≡ s.taken)
      × (n ≤ 4 * length s.workers)
      × (((t.workers ≡ [])
            × (occupied t.pool.thread_ids ≡ 0)
            × ((x : Task) → count x t.taken ≡ count x t.finished))
          ⊎ CanStep t)
shutdown_drains s t n v stop run =
    let (on, same, less) = Run-Calmer stop run in
    (
      same,
      omega (arith, less, weight-le s.workers),
      elim (next_of t t.workers on refl) [
        | inl none_left ↦
            let (free, done) = all_gone t (Run-Inv v run) none_left in inl (none_left, free, done)
        | inr more ↦ inr more
      ],
    )
