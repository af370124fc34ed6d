-- ===== src/ThreadPool/Ring.antt =====
-- The ring of src/thread_pool.c as a first-in first-out queue of bounded length.
use native.Mathlib.Nat.{mod-add-mod, mod-eq_of_lt, mod-eq-sub-mod}
use linux_file_manager.Prelude.{
  ==_iff, Bool-cases, List, [], ap, ap₂, arith, false, get_or, get_or-set_ne, get_or-set_self, inl,
  inr, length, length-set, ltb, ltb→lt, refl, set, suc, sym, true, zero, ℕ, ◌%◌, ◌++◌, ◌+◌, ◌-◌,
  ◌<◌, ◌==◌, ◌∙◌, ◌∷◌, ◌≡◌, ◌≢◌, ◌≤◌, ◌⊎◌,
}
use linux_file_manager.ThreadPool.{
  Task, Threadpool, added, leaves, no_task, refused, thread_pool_add, took, waits_for_room,
  waits_for_task, worker_take,
}

-- The ring's indices are in its array, and the rear is `queueSize` places behind the front.
pub record IsValid (p : Threadpool) : Type 0 where
  pub storage : length p.taskqueue ≡ p.queue_capacity
  pub front_in : p.queue_front < p.queue_capacity
  pub size_in : p.queue_size ≤ p.queue_capacity
  pub rear_at : p.queue_rear ≡ (p.queue_front + p.queue_size) % p.queue_capacity

-- The `n` tasks from index `h` on, round the end of the array.
abbrev pub ring_from : List Task → ℕ → ℕ → ℕ → List Task
ring_from q cap h zero = []
ring_from q cap h (suc n) = get_or q h 0 ∷ ring_from q cap ((h + 1) % cap) n

-- The tasks that wait, oldest first.
abbrev pub contents : Threadpool → List Task
contents p = ring_from p.taskqueue p.queue_capacity p.queue_front p.queue_size

module _ (q : List Task) (cap : ℕ) (room : cap ≡ length q) where
  -- Going on by fewer than `cap` places ends somewhere else.
  round_ne : (h k : ℕ) → h < cap → suc k < cap → (h + suc k) % cap ≢ h
  round_ne h k hh hk = elim (Bool-cases (ltb (h + suc k) cap)) [
    | inl inside ↦
        let same : (h + suc k) % cap ≡ h + suc k = mod-eq_of_lt (ltb→lt _ _ inside) in
        omega (arith, same)
    | inr past ↦
        let le : cap ≤ h + suc k = ground (arith, past) in
        let less : (h + suc k) % cap ≡ h + suc k - cap =
          mod-eq-sub-mod le ∙ mod-eq_of_lt (omega (arith, hh, hk, le)) in
        omega (arith, less, hk, le)
  ]

  shift : (h n : ℕ) → (h + suc n) % cap ≡ ((h + 1) % cap + n) % cap
  shift h n = let e : h + suc n ≡ h + 1 + n = omega arith in rw mod-add-mod (ap (λ k. k % cap) e)

  -- A write at the rear puts a task behind the others.
  ring_from-set :
      (n h i : ℕ) (t : Task)
      → h < cap
      → n < cap
      → i ≡ (h + n) % cap
      → ring_from (set q i t) cap h (suc n) ≡ ring_from q cap h n ++ t ∷ []
  ring_from-set zero h i t hh hn e =
      let at : i ≡ h = e ∙ (let z : h + 0 ≡ h = omega arith in rw z (mod-eq_of_lt hh)) in
      rw (at, get_or-set_self q h t 0 (omega arith))
  ring_from-set (suc n) h i t hh hn e =
      ap₂ ◌∷◌ (get_or-set_ne q i h t 0 (λ same. round_ne h n hh hn (sym e ∙ same)))
        (ring_from-set n ((h + 1) % cap) i t (omega arith) (omega arith) (e ∙ shift h n))

length-ring_from : (q : List Task) (cap h n : ℕ) → length (ring_from q cap h n) ≡ n
length-ring_from q cap h zero = refl
length-ring_from q cap h (suc n) = ap suc (length-ring_from q cap ((h + 1) % cap) n)

pub length-contents : (p : Threadpool) → length (contents p) ≡ p.queue_size
length-contents p = length-ring_from p.taskqueue p.queue_capacity p.queue_front p.queue_size

-- The pool behind a task that was stored.
abbrev pub after_add : Threadpool → Task → Threadpool
after_add p t = record p {
  taskqueue = set p.taskqueue p.queue_rear t;
  queue_rear = (p.queue_rear + 1) % p.queue_capacity;
  queue_size = p.queue_size + 1;
}

module _ (p : Threadpool) (t : Task) (v : IsValid p) (less : p.queue_size < p.queue_capacity) where
  pub add_contents : contents (after_add p t) ≡ contents p ++ t ∷ []
  add_contents =
      let e : p.queue_size + 1 ≡ suc p.queue_size = omega arith in
      rw e (
        ring_from-set p.taskqueue p.queue_capacity (sym v.storage) p.queue_size p.queue_front
          p.queue_rear t v.front_in less v.rear_at)

  pub add-IsValid : IsValid (after_add p t)
  add-IsValid = record {
    storage = length-set p.taskqueue p.queue_rear t ∙ v.storage;
    front_in = v.front_in;
    size_in = omega (arith, less);
    rear_at =
        let e : p.queue_front + p.queue_size + 1 ≡ p.queue_front + (p.queue_size + 1) =
          omega arith in
        rw (v.rear_at, mod-add-mod) (ap (λ k. k % p.queue_capacity) e);
  }

-- Adding waits exactly when the ring is full and there is no shutdown, is refused after a shutdown,
-- and else puts the task behind the waiting ones, within the capacity. The ring stays valid.
thread_pool_add_lem :
    (p : Threadpool) (t : Task)
    → IsValid p
    → ((thread_pool_add p t ≡ waits_for_room)
        × (length (contents p) ≡ p.queue_capacity)
        × (p.stopping ≡ false))
      ⊎ ((thread_pool_add p t ≡ refused) × (p.stopping ≡ true))
      ⊎ ((p' : Threadpool) × (thread_pool_add p t ≡ added p')
          × (contents p' ≡ contents p ++ t ∷ [])
          × (length (contents p') ≤ p'.queue_capacity)
          × (p.stopping ≡ false)
          × IsValid p')
unfolding thread_pool_add
thread_pool_add_lem p t v = elim (Bool-cases p.stopping) [
  | inl stop ↦ inr (inl (ground (arith, stop), stop))
  | inr run ↦ elim (Bool-cases (p.queue_size == p.queue_capacity)) [
    | inl full ↦ inl (ground arith, omega (arith, length-contents p, (==_iff _ _).0 full), run)
    | inr room ↦
        let less : p.queue_size < p.queue_capacity = ground (arith, v.size_in) in
        inr (
          inr (
            after_add p t,
            ground arith,
            add_contents p t v less,
            omega (arith, length-contents (after_add p t), less),
            run,
            add-IsValid p t v less,
          ))
  ]
]

abbrev pub after_take : Threadpool → Threadpool
after_take p = record p {
  queue_front = (p.queue_front + 1) % p.queue_capacity;
  queue_size = p.queue_size - 1;
}

module _ (p : Threadpool) where
  pub take_contents :
      0 < p.queue_size
      → contents p ≡ get_or p.taskqueue p.queue_front no_task ∷ contents (after_take p)
  take_contents pos =
      let e : p.queue_size ≡ suc (p.queue_size - 1) = omega arith in
      ap (ring_from p.taskqueue p.queue_capacity p.queue_front) e

  pub take-IsValid : IsValid p → 0 < p.queue_size → IsValid (after_take p)
  take-IsValid v pos = record {
    storage = v.storage;
    front_in = omega (arith, v.front_in);
    size_in = omega (arith, v.size_in);
    rear_at =
        let e : p.queue_front + p.queue_size ≡ p.queue_front + 1 + (p.queue_size - 1) =
          omega arith in
        rw (v.rear_at, mod-add-mod) (ap (λ k. k % p.queue_capacity) e);
  }

-- Taking waits exactly when nothing is there and there is no shutdown, makes the worker leave after a
-- shutdown, and else gives the oldest task and leaves the others. The ring stays valid.
worker_take_lem :
    (p : Threadpool)
    → IsValid p
    → ((worker_take p ≡ waits_for_task) × (contents p ≡ []) × (p.stopping ≡ false))
      ⊎ ((worker_take p ≡ leaves) × (p.stopping ≡ true))
      ⊎ ((t : Task) × (p' : Threadpool) × (worker_take p ≡ took t p')
          × (contents p ≡ t ∷ contents p')
          × (p.stopping ≡ false)
          × IsValid p')
unfolding worker_take
worker_take_lem p v = elim (Bool-cases p.stopping) [
  | inl stop ↦ inr (inl (ground (arith, stop), stop))
  | inr run ↦ elim (Bool-cases (p.queue_size == 0)) [
    | inl empty ↦ inl (
      ground arith,
      ap (λ n. ring_from p.taskqueue p.queue_capacity p.queue_front n) ((==_iff _ _).0 empty),
      run,
    )
    | inr some_task ↦
        let pos : 0 < p.queue_size = ground arith in
        inr (
          inr (
            get_or p.taskqueue p.queue_front no_task,
            after_take p,
            ground arith,
            take_contents p pos,
            run,
            take-IsValid p v pos,
          ))
  ]
]

pub added_after :
    (p : Threadpool) (t : Task) (p' : Threadpool)
    → IsValid p
    → thread_pool_add p t ≡ added p'
    → (p' ≡ after_add p t) × (p.queue_size < p.queue_capacity)
unfolding thread_pool_add
added_after p t p' v e = ground arith

pub took_after :
    (p : Threadpool) (t : Task) (p' : Threadpool)
    → worker_take p ≡ took t p'
    → (p' ≡ after_take p) × (t ≡ get_or p.taskqueue p.queue_front no_task) × (0 < p.queue_size)
unfolding worker_take
took_after p t p' e = ground arith

pub leaves_stopping : (p : Threadpool) → worker_take p ≡ leaves → p.stopping ≡ true
unfolding worker_take
leaves_stopping p e = ground arith
