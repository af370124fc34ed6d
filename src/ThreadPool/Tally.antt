-- ===== src/ThreadPool/Tally.antt =====
-- Counting workers and entries of `threadIDs` of src/thread_pool.c.
use linux_file_manager.Prelude.{
  All, Bool, List, [], arith, false, length, not, refl, suc, take, true, zero, ℕ, ◌++◌, ◌+◌, ◌<◌,
  ◌==◌, ◌∷◌, ◌≡◌, ◌≢◌, ◌≤◌,
}
use linux_file_manager.ThreadPool.{Task, clear_id, fill_free}
use linux_file_manager.ThreadPool.System.{
  Phase, Worker, at_head, exiting, holding, running, start_all, waiting,
}

abbrev pub tally : (Worker → ℕ) → List Worker → ℕ
tally f [] = 0
tally f (w ∷ ws) = f w + tally f ws

pub tally-append :
    (f : Worker → ℕ) (ls rs : List Worker) → tally f (ls ++ rs) ≡ tally f ls + tally f rs
tally-append f [] rs = omega arith
tally-append f (w ∷ ls) rs = omega (arith, tally-append f ls rs)

abbrev pub one_if : Bool → ℕ
one_if true = 1
one_if false = 0

-- Whether a phase counts as busy, as not leaving, and as having the task `x` in hand.
abbrev pub busy_phase : Phase → ℕ
busy_phase (running t) = 1
busy_phase at_head = 0
busy_phase waiting = 0
busy_phase (holding t) = 0
busy_phase exiting = 0

abbrev pub staying_phase : Phase → ℕ
staying_phase exiting = 0
staying_phase at_head = 1
staying_phase waiting = 1
staying_phase (holding t) = 1
staying_phase (running t) = 1

abbrev pub has_phase : Task → Phase → ℕ
has_phase x (holding t) = one_if (t == x)
has_phase x (running t) = one_if (t == x)
has_phase x at_head = 0
has_phase x waiting = 0
has_phase x exiting = 0

abbrev pub busy : Worker → ℕ
busy w = busy_phase w.phase

abbrev pub staying : Worker → ℕ
staying w = staying_phase w.phase

abbrev pub has_task : Task → Worker → ℕ
has_task x w = has_phase x w.phase

abbrev pub has_tid : ℕ → Worker → ℕ
has_tid t w = one_if (w.tid == t)

abbrev pub each : Worker → ℕ
each w = 1

abbrev pub count : ℕ → List ℕ → ℕ
count x [] = 0
count x (y ∷ ys) = one_if (y == x) + count x ys

pub count-append : (x : ℕ) (xs ys : List ℕ) → count x (xs ++ ys) ≡ count x xs + count x ys
count-append x [] ys = omega arith
count-append x (y ∷ xs) ys = omega (arith, count-append x xs ys)

abbrev pub occupied : List ℕ → ℕ
occupied [] = 0
occupied (x ∷ xs) = one_if (not (x == 0)) + occupied xs

pub occupied-le-length : (xs : List ℕ) → occupied xs ≤ length xs
occupied-le-length [] = omega arith
occupied-le-length (x ∷ xs) = ground (arith, occupied-le-length xs)

pub staying-le-each : (ws : List Worker) → tally staying ws ≤ tally each ws
staying-le-each [] = omega arith
staying-le-each (w ∷ ws) = ground (arith, staying-le-each ws)

pub busy-le-staying : (ws : List Worker) → tally busy ws ≤ tally staying ws
busy-le-staying [] = omega arith
busy-le-staying (w ∷ ws) = ground (arith, busy-le-staying ws)

pub length-clear_id : (t : ℕ) (xs : List ℕ) → length (clear_id t xs) ≡ length xs
unfolding clear_id
length-clear_id t [] = refl
length-clear_id t (x ∷ xs) = ground (arith, length-clear_id t xs)

pub occupied-clear_id :
    (t : ℕ) (xs : List ℕ) → t ≢ 0 → 0 < count t xs → occupied (clear_id t xs) + 1 ≡ occupied xs
unfolding clear_id
occupied-clear_id t [] ne h = absurd (omega arith)
occupied-clear_id t (x ∷ xs) ne h = ground (arith, occupied-clear_id t xs ne)

pub count-clear_id :
    (t k : ℕ) (xs : List ℕ)
    → t ≢ 0
    → k ≢ 0
    → 0 < count t xs
    → count k (clear_id t xs) + one_if (t == k) ≡ count k xs
unfolding clear_id
count-clear_id t k [] nt nk h = absurd (omega arith)
count-clear_id t k (x ∷ xs) nt nk h = ground (arith, count-clear_id t k xs nt nk)

pub length-fill_free : (c : ℕ) (xs fresh : List ℕ) → length (fill_free c xs fresh).0 ≡ length xs
unfolding fill_free
length-fill_free c [] fresh = refl
length-fill_free zero (x ∷ xs) fresh = refl
length-fill_free (suc c) (x ∷ xs) [] = refl
length-fill_free (suc c) (x ∷ xs) (t ∷ fresh) =
    ground (arith, length-fill_free c xs fresh, length-fill_free (suc c) xs (t ∷ fresh))

pub occupied-fill_free :
    (c : ℕ) (xs fresh : List ℕ)
    → All (λ t. t ≢ 0) fresh
    → occupied (fill_free c xs fresh).0 ≡ occupied xs + (fill_free c xs fresh).1
unfolding fill_free
occupied-fill_free c [] fresh h = refl
occupied-fill_free zero (x ∷ xs) fresh h = omega arith
occupied-fill_free (suc c) (x ∷ xs) [] h = omega arith
occupied-fill_free (suc c) (x ∷ xs) (t ∷ fresh) h =
    ground (arith, occupied-fill_free c xs fresh h.1, occupied-fill_free (suc c) xs (t ∷ fresh) h)

pub count-fill_free :
    (c k : ℕ) (xs fresh : List ℕ)
    → All (λ t. t ≢ 0) fresh
    → k ≢ 0
    → count k (fill_free c xs fresh).0 ≡ count k xs + count k (take (fill_free c xs fresh).1 fresh)
unfolding fill_free
count-fill_free c k [] fresh h nk = refl
count-fill_free zero k (x ∷ xs) fresh h nk = omega arith
count-fill_free (suc c) k (x ∷ xs) [] h nk = omega arith
count-fill_free (suc c) k (x ∷ xs) (t ∷ fresh) h nk =
    ground
      (arith, count-fill_free c k xs fresh h.1 nk, count-fill_free (suc c) k xs (t ∷ fresh) h nk)

pub length-take-fill_free :
    (c : ℕ) (xs fresh : List ℕ)
    → length (take (fill_free c xs fresh).1 fresh) ≡ (fill_free c xs fresh).1
unfolding fill_free
length-take-fill_free c [] fresh = refl
length-take-fill_free zero (x ∷ xs) fresh = refl
length-take-fill_free (suc c) (x ∷ xs) [] = refl
length-take-fill_free (suc c) (x ∷ xs) (t ∷ fresh) =
    ground (arith, length-take-fill_free c xs fresh, length-take-fill_free (suc c) xs (t ∷ fresh))

pub busy-start_all : (ts : List ℕ) → tally busy (start_all ts) ≡ 0
busy-start_all [] = refl
busy-start_all (t ∷ ts) = omega (arith, busy-start_all ts)

pub staying-start_all : (ts : List ℕ) → tally staying (start_all ts) ≡ length ts
staying-start_all [] = refl
staying-start_all (t ∷ ts) = omega (arith, staying-start_all ts)

pub each-start_all : (ts : List ℕ) → tally each (start_all ts) ≡ length ts
each-start_all [] = refl
each-start_all (t ∷ ts) = omega (arith, each-start_all ts)

pub has_task-start_all : (x : Task) (ts : List ℕ) → tally (has_task x) (start_all ts) ≡ 0
has_task-start_all x [] = refl
has_task-start_all x (t ∷ ts) = omega (arith, has_task-start_all x ts)

pub has_tid-start_all : (k : ℕ) (ts : List ℕ) → tally (has_tid k) (start_all ts) ≡ count k ts
has_tid-start_all k [] = refl
has_tid-start_all k (t ∷ ts) = omega (arith, has_tid-start_all k ts)

pub count_zero : (ts : List ℕ) → All (λ t. t ≢ 0) ts → count 0 ts ≡ 0
count_zero [] h = refl
count_zero (t ∷ ts) h = ground (arith, count_zero ts h.1, h.0)
