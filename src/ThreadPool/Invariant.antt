-- ===== src/ThreadPool/Invariant.antt =====
-- What holds of the threads of src/thread_pool.c in every interleaving.
use linux_file_manager.Prelude.{
  All, All-take, Bool, Bool-cases, List, [], ap, append_assoc, arith, false, inl, inr, length, ltb,
  ltb→lt, refl, sym, take, true, ℕ, ◌++◌, ◌+◌, ◌-◌, ◌<◌, ◌∙◌, ◌∷◌, ◌≡◌, ◌≢◌, ◌≤◌, ◌⊎◌,
}
use linux_file_manager.ThreadPool.{
  Task, Threadpool, added, batch, fill_free, thread_pool_add, took, worker_take, worker_woken,
}
use linux_file_manager.ThreadPool.Ring.{
  IsValid, add-IsValid, add_contents, added_after, after_take, contents, take-IsValid,
  take_contents, took_after,
}
use linux_file_manager.ThreadPool.System.{
  Phase, System, Worker, at_head, holding, move, start_all, woken_phase,
}
use linux_file_manager.ThreadPool.Tally.{
  busy, busy-start_all, busy_phase, count, count-append, count-fill_free, count_zero, each,
  each-start_all, has_phase, has_task, has_task-start_all, has_tid, has_tid-start_all,
  length-fill_free, length-take-fill_free, occupied, occupied-fill_free, staying, staying-start_all,
  staying_phase, tally, tally-append,
}

pub record Inv (s : System) : Type 0 where
  pub ring : IsValid s.pool
  pub fifo : s.taken ++ contents s.pool ≡ s.submitted
  pub busy_workers : s.pool.busy_num ≡ tally busy s.workers
  pub live_workers : s.pool.stopping ≡ false → s.pool.live_num ≡ tally staying s.workers
  pub entries : occupied s.pool.thread_ids ≡ tally each s.workers
  pub ids : (k : ℕ) → k ≢ 0 → count k s.pool.thread_ids ≡ tally (has_tid k) s.workers
  pub nonzero : tally (has_tid 0) s.workers ≡ 0
  pub slots : length s.pool.thread_ids ≡ s.pool.max_num
  pub at_least : s.pool.min_num ≤ s.pool.live_num
  pub in_hand : (x : Task) → count x s.taken ≡ count x s.finished + tally (has_task x) s.workers

-- What a change of one worker's phase does to a count.
pub tally_split :
    (f : Worker → ℕ) (ls : List Worker) (w : Worker) (rs ws : List Worker)
    → ws ≡ ls ++ w ∷ rs
    → tally f ws ≡ tally f ls + (f w + tally f rs)
tally_split f ls w rs ws e = ap (tally f) e ∙ tally-append f ls (w ∷ rs)

-- A step of one worker that stays, while the pool keeps its threads.
pub moved :
    (s : System) (ls : List Worker) (w : Worker) (ph : Phase) (rs : List Worker) (p : Threadpool)
    (taken finished : List Task)
    → Inv s
    → s.workers ≡ ls ++ w ∷ rs
    → IsValid p
    → taken ++ contents p ≡ s.submitted
    → p.busy_num + busy w ≡ s.pool.busy_num + busy_phase ph
    → (p.stopping ≡ false → p.live_num + staying w ≡ s.pool.live_num + staying_phase ph)
    → (p.stopping ≡ false → s.pool.stopping ≡ false)
    → p.thread_ids ≡ s.pool.thread_ids
    → p.max_num ≡ s.pool.max_num
    → p.min_num ≤ p.live_num
    → ((x : Task)
        → count x taken + count x s.finished + has_task x w
          ≡ count x s.taken + count x finished + has_phase x ph)
    → Inv (record (move s ls w ph rs) { pool = p; taken = taken; finished = finished })
moved s ls w ph rs p taken finished v e ring fifo b live stop ids max low hand =
    let w' : Worker = record w { phase = ph } in
    let old = λ (f : Worker → ℕ). tally_split f ls w rs s.workers e in
    let new = λ (f : Worker → ℕ). tally-append f ls (w' ∷ rs) in
    record {
      ring = ring;
      fifo = fifo;
      busy_workers = omega (arith, v.busy_workers, b, old busy, new busy);
      live_workers =
          λ run. omega (arith, v.live_workers (stop run), live run, old staying, new staying);
      entries = rw ids (omega (arith, v.entries, old each, new each));
      ids = λ k nk. rw ids (omega (arith, v.ids k nk, old (has_tid k), new (has_tid k)));
      nonzero = omega (arith, v.nonzero, old (has_tid 0), new (has_tid 0));
      slots = rw (ids, max) v.slots;
      at_least = low;
      in_hand = λ x. omega (arith, v.in_hand x, hand x, old (has_task x), new (has_task x));
    }

-- What a waiting worker finds when it wakes.
pub worker_woken_cases :
    (p : Threadpool)
    → ((worker_woken p ≡ (true, record p { exit_num = p.exit_num - 1; live_num = p.live_num - 1 }))
        × (p.min_num < p.live_num))
      ⊎ ((n : ℕ) × (worker_woken p ≡ (false, record p { exit_num = n })))
unfolding worker_woken
worker_woken_cases p = elim (Bool-cases (ltb 0 p.exit_num)) [
  | inr none_asked ↦ inr (p.exit_num, rw none_asked)
  | inl asked ↦ elim (Bool-cases (ltb p.min_num p.live_num)) [
    | inl more ↦ inl (rw (asked, more), ltb→lt _ _ more)
    | inr least ↦ inr (p.exit_num - 1, rw (asked, least))
  ]
]

-- The ring does not depend on the thread counts.
pub ring_of :
    (s : System) {e l : ℕ} → Inv s → IsValid (record s.pool { exit_num = e; live_num = l })
ring_of s v = record {
  storage = v.ring.storage;
  front_in = v.ring.front_in;
  size_in = v.ring.size_in;
  rear_at = v.ring.rear_at;
}

abbrev pub Woke : System → List Worker → Worker → List Worker → Bool × Threadpool → Type 0
Woke s ls w rs r = Inv (record (move s ls w (woken_phase r.0) rs) { pool = r.1 })

pub grow_by :
    (s : System) (fresh : List ℕ)
    → Inv s
    → All (λ t. t ≢ 0) fresh
    → let (ids, n) = fill_free batch s.pool.thread_ids fresh in
      Inv (record s {
        pool = record s.pool { thread_ids = ids; live_num = s.pool.live_num + n };
        workers = s.workers ++ start_all (take n fresh);
      })
grow_by s fresh v h =
    let ids : List ℕ = s.pool.thread_ids in
    let n : ℕ = (fill_free 2 ids fresh).1 in
    let ts : List ℕ = take n fresh in
    let all = λ (f : Worker → ℕ). tally-append f s.workers (start_all ts) in
    let len : length ts ≡ n = length-take-fill_free 2 ids fresh in
    record {
      ring = record {
        storage = v.ring.storage;
        front_in = v.ring.front_in;
        size_in = v.ring.size_in;
        rear_at = v.ring.rear_at;
      };
      fifo = v.fifo;
      busy_workers = omega (arith, v.busy_workers, all busy, busy-start_all ts);
      live_workers =
          λ run. omega (arith, v.live_workers run, all staying, staying-start_all ts, len);
      entries =
          omega
            (arith, v.entries, all each, each-start_all ts, len, occupied-fill_free 2 ids fresh h);
      ids = λ k nk. omega (
        arith,
        v.ids k nk,
        all (has_tid k),
        has_tid-start_all k ts,
        count-fill_free 2 k ids fresh h nk,
      );
      nonzero = omega (
        arith,
        v.nonzero,
        all (has_tid 0),
        has_tid-start_all 0 ts,
        count_zero ts (All-take (λ t. t ≢ 0) n fresh h),
      );
      slots = length-fill_free 2 ids fresh ∙ v.slots;
      at_least = omega (arith, v.at_least);
      in_hand = λ x. omega (arith, v.in_hand x, all (has_task x), has_task-start_all x ts);
    }

pub submit-Inv :
    (s : System) (t : Task) (p : Threadpool)
    → Inv s
    → thread_pool_add s.pool t ≡ added p
    → Inv (record s { pool = p; submitted = s.submitted ++ t ∷ [] })
submit-Inv s t p v e =
    let (is, less) = added_after s.pool t p v.ring e in
    rw is (record {
      ring = add-IsValid s.pool t v.ring less;
      fifo =
          ap (◌++◌ s.taken) (add_contents s.pool t v.ring less)
          ∙ sym (append_assoc s.taken (contents s.pool) (t ∷ []))
          ∙ ap (λ x. x ++ t ∷ []) v.fifo;
      busy_workers = v.busy_workers;
      live_workers = v.live_workers;
      entries = v.entries;
      ids = v.ids;
      nonzero = v.nonzero;
      slots = v.slots;
      at_least = v.at_least;
      in_hand = v.in_hand;
    })

pub fetch-Inv :
    (s : System) (ls : List Worker) (w : Worker) (rs : List Worker) (t : Task) (p : Threadpool)
    → Inv s
    → s.workers ≡ ls ++ w ∷ rs
    → w.phase ≡ at_head
    → worker_take s.pool ≡ took t p
    → Inv (record (move s ls w (holding t) rs) { pool = p; taken = s.taken ++ t ∷ [] })
fetch-Inv s ls w rs t p v e ph took_t =
    let (is, first, pos) = took_after s.pool t p took_t in
    rw is (
      moved s ls w (holding t) rs (after_take s.pool) (s.taken ++ t ∷ []) s.finished v e
        (take-IsValid s.pool v.ring pos)
        (append_assoc s.taken (t ∷ []) (contents (after_take s.pool))
          ∙ ap (λ x. s.taken ++ x ∷ contents (after_take s.pool)) first
          ∙ ap (◌++◌ s.taken) (sym (take_contents s.pool pos))
          ∙ v.fifo)
        (rw ph (omega arith)) (λ run. rw ph (omega arith)) (λ run. run) refl refl v.at_least
        (λ x. rw ph (omega (arith, count-append x s.taken (t ∷ [])))))
