-- ===== src/ThreadPool/Steps.antt =====
-- Every critical section of src/thread_pool.c keeps the invariant.
use linux_file_manager.Prelude.{
  ==-refl, All, Bool, Bool-cases, List, [], ap, append-nil, arith, inl, inr, ltb, refl, subst, sym,
  ℕ, ◌&&◌, ◌*◌, ◌++◌, ◌+◌, ◌-◌, ◌<◌, ◌==◌, ◌∙◌, ◌∷◌, ◌≡◌, ◌≢◌,
}
use linux_file_manager.ThreadPool.{
  Snapshot, begin_task, end_task, manager_grow, manager_shrink, thread_pool_shutdown, threadexit,
  worker_woken,
}
use linux_file_manager.ThreadPool.Ring.{IsValid, leaves_stopping}
use linux_file_manager.ThreadPool.System.{
  Step, System, Worker, at_head, exit, exiting, fetch, finish, grow, grown, leave, move, running,
  shrink, shut_down, sleep, start, submit, waiting, wake, woken_phase,
}
use linux_file_manager.ThreadPool.Tally.{
  busy, busy_phase, count, count-append, count-clear_id, each, has_phase, has_task, has_tid,
  length-clear_id, occupied-clear_id, one_if, staying, staying_phase, tally-append,
}
use linux_file_manager.ThreadPool.Invariant.{
  Inv, Woke, fetch-Inv, grow_by, moved, ring_of, submit-Inv, tally_split, worker_woken_cases,
}

wake-Inv :
    (s : System) (ls : List Worker) (w : Worker) (rs : List Worker)
    → Inv s
    → s.workers ≡ ls ++ w ∷ rs
    → w.phase ≡ waiting
    → Inv (record (move s ls w (woken_phase (worker_woken s.pool).0) rs) {
      pool = (worker_woken s.pool).1;
    })
wake-Inv s ls w rs v e ph = elim (worker_woken_cases s.pool) [
  | inl (r, more) ↦ subst (Woke s ls w rs) (sym r) (
      moved s ls w exiting rs
        (record s.pool { exit_num = s.pool.exit_num - 1; live_num = s.pool.live_num - 1 }) s.taken
        s.finished v e (ring_of s v) v.fifo (rw ph (omega arith)) (λ run. rw ph (omega arith))
        (λ run. run) refl refl (omega arith) (λ x. rw ph (omega arith)))
  | inr (n, r) ↦ subst (Woke s ls w rs) (sym r) (
      moved s ls w at_head rs (record s.pool { exit_num = n }) s.taken s.finished v e (ring_of s v)
        v.fifo (rw ph (omega arith)) (λ run. rw ph (omega arith)) (λ run. run) refl refl v.at_least
        (λ x. rw ph (omega arith)))
]

grow-Inv :
    (s : System) (old : Snapshot) (fresh : List ℕ)
    → Inv s
    → All (λ t. t ≢ 0) fresh
    → Inv (record s {
      pool = manager_grow s.pool old fresh;
      workers = s.workers ++ grown s.pool old fresh;
    })
unfolding manager_grow
grow-Inv s old fresh v h =
    elim (Bool-cases
      (ltb old.live_num (old.queue_size + old.busy_num) && ltb old.live_num s.pool.max_num)) [
        | inr no_more ↦ rw (no_more, append-nil s.workers) v
        | inl more ↦ rw more (grow_by s fresh v h)
      ]

exit-Inv :
    (s : System) (ls : List Worker) (w : Worker) (rs : List Worker)
    → Inv s
    → s.workers ≡ ls ++ w ∷ rs
    → w.phase ≡ exiting
    → Inv (record s { pool = threadexit s.pool w.tid; workers = ls ++ rs })
unfolding threadexit
exit-Inv s ls w rs v e ph =
    let old = λ (f : Worker → ℕ). tally_split f ls w rs s.workers e in
    let new = λ (f : Worker → ℕ). tally-append f ls rs in
    let ids : List ℕ = s.pool.thread_ids in
    let id : w.tid ≢ 0 = ground (arith, v.nonzero, old (has_tid 0)) in
    let self : one_if (w.tid == w.tid) ≡ 1 = rw (==-refl w.tid) in
    let present : 0 < count w.tid ids = omega (arith, v.ids w.tid id, old (has_tid w.tid), self) in
    record {
      ring = record {
        storage = v.ring.storage;
        front_in = v.ring.front_in;
        size_in = v.ring.size_in;
        rear_at = v.ring.rear_at;
      };
      fifo = v.fifo;
      busy_workers = omega (arith, v.busy_workers, old busy, new busy, ap busy_phase ph);
      live_workers =
          λ run. omega (arith, v.live_workers run, old staying, new staying, ap staying_phase ph);
      entries =
          omega (arith, v.entries, old each, new each, occupied-clear_id w.tid ids id present);
      ids = λ k nk. omega (
        arith,
        v.ids k nk,
        old (has_tid k),
        new (has_tid k),
        count-clear_id w.tid k ids id nk present,
      );
      nonzero = omega (arith, v.nonzero, old (has_tid 0), new (has_tid 0));
      slots = length-clear_id w.tid ids ∙ v.slots;
      at_least = v.at_least;
      in_hand =
          λ x. omega (arith, v.in_hand x, old (has_task x), new (has_task x), ap (has_phase x) ph);
    }

same_ring :
    (s : System) {e : ℕ} {b : ℕ} {t : Bool}
    → Inv s
    → IsValid (record s.pool { exit_num = e; busy_num = b; stopping = t })
same_ring s v = record {
  storage = v.ring.storage;
  front_in = v.ring.front_in;
  size_in = v.ring.size_in;
  rear_at = v.ring.rear_at;
}

shrink-Inv :
    (s : System) (old : Snapshot) → Inv s → Inv (record s { pool = manager_shrink s.pool old })
unfolding manager_shrink
shrink-Inv s old v =
    elim (Bool-cases (ltb (old.busy_num * 2) old.live_num && ltb s.pool.min_num old.live_num)) [
      | inr no_more ↦ rw no_more v
      | inl more ↦ rw more (record {
        ring = same_ring s v;
        fifo = v.fifo;
        busy_workers = v.busy_workers;
        live_workers = v.live_workers;
        entries = v.entries;
        ids = v.ids;
        nonzero = v.nonzero;
        slots = v.slots;
        at_least = v.at_least;
        in_hand = v.in_hand;
      })
    ]

shut_down-Inv : (s : System) → Inv s → Inv (record s { pool = thread_pool_shutdown s.pool })
unfolding thread_pool_shutdown
shut_down-Inv s v = record {
  ring = same_ring s v;
  fifo = v.fifo;
  busy_workers = v.busy_workers;
  live_workers = λ run. cc;
  entries = v.entries;
  ids = v.ids;
  nonzero = v.nonzero;
  slots = v.slots;
  at_least = v.at_least;
  in_hand = v.in_hand;
}

-- Every step keeps the invariant.
pub Step-Inv : {s t : System} → Inv s → Step s t → Inv t
unfolding begin_task end_task
Step-Inv v (submit t p e) = submit-Inv _ t p v e
Step-Inv {s} v (sleep ls w rs e ph _) =
    moved s ls w waiting rs s.pool s.taken s.finished v e v.ring v.fifo (rw ph (omega arith))
      (λ run. rw ph (omega arith)) (λ run. run) refl refl v.at_least (λ x. rw ph (omega arith))
Step-Inv v (fetch ls w rs t p e ph took_t) = fetch-Inv _ ls w rs t p v e ph took_t
Step-Inv v (wake ls w rs e ph) = wake-Inv _ ls w rs v e ph
Step-Inv {s} v (leave ls w rs e ph left) =
    moved s ls w exiting rs s.pool s.taken s.finished v e v.ring v.fifo (rw ph (omega arith))
      (λ run. absurd (ground (arith, leaves_stopping s.pool left, run))) (λ run. run) refl refl
      v.at_least (λ x. rw ph (omega arith))
Step-Inv {s} v (start ls w rs t e ph) =
    moved s ls w (running t) rs (begin_task s.pool) s.taken s.finished v e (same_ring s v) v.fifo
      (rw ph (omega arith)) (λ run. rw ph (omega arith)) (λ run. run) refl refl v.at_least
      (λ x. rw ph (omega arith))
Step-Inv {s} v (finish ls w rs t e ph) =
    let some_busy : 0 < s.pool.busy_num =
      omega (arith, v.busy_workers, tally_split busy ls w rs s.workers e, ap busy_phase ph) in
    moved s ls w at_head rs (end_task s.pool) s.taken (s.finished ++ t ∷ []) v e (same_ring s v)
      v.fifo (rw ph (omega arith)) (λ run. rw ph (omega arith)) (λ run. run) refl refl v.at_least
      (λ x. rw ph (omega (arith, count-append x s.finished (t ∷ []))))
Step-Inv v (exit ls w rs e ph) = exit-Inv _ ls w rs v e ph
Step-Inv v (grow old fresh h) = grow-Inv _ old fresh v h
Step-Inv v (shrink old) = shrink-Inv _ old v
Step-Inv v shut_down = shut_down-Inv _ v
