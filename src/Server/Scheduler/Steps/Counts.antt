-- ===== src/Server/Scheduler/Steps/Counts.antt =====
-- How often a run stands in the lists of the scheduler of src/server/scheduler.ts.
use decompi.Base.{
  inl, inr, ℕ_discrete, ◌⊎◌, ℕ, zero, suc, ◌+◌, ◌≤◌, ◌≡◌, refl, Bool, true, false, List, [], ◌∷◌,
  ◌++◌, Option, none, some, arith, length, ◌==◌, if◌then◌else◌,
}
use decompi.Server.Semaphore.{release}
use decompi.Server.Scheduler.{
  close_running_writes, close_running, close_queued_writes, close_queued, Task, Scheduler, has, add,
  remove, splice, startable, lookup, forget, release_slot, inserts, enqueues, starts, started,
  works, resumes, resumed, yields, yielded, parks, acquires, ends, audits, leaves,
}
use decompi.Server.Scheduler.Steps.{take_task, refuse_all}

abbrev pub one : ℕ → ℕ → ℕ
one n m = if m == n then 1 else 0

abbrev pub count : ℕ → List ℕ → ℕ
count n [] = 0
count n (m ∷ ms) = one n m + count n ms

-- Executions of a run; those that surely hold a slot; those that surely hold none; and calls that
-- are about to queue it.
abbrev pub executing : ℕ → Task → ℕ
executing n (starts id) = one n id
executing n (started id) = one n id
executing n (works id) = one n id
executing n (resumes id) = one n id
executing n (resumed id) = one n id
executing n (yields id w) = one n id
executing n (yielded id w) = one n id
executing n (parks id w) = one n id
executing n (acquires id w) = one n id
executing n (ends id e) = one n id
executing n (audits id e) = one n id
executing n (leaves id) = one n id
executing n _ = 0

abbrev pub holding : ℕ → Task → ℕ
holding n (starts id) = one n id
holding n (started id) = one n id
holding n (works id) = one n id
holding n (resumes id) = one n id
holding n (yields id w) = one n id
holding n (yielded id w) = one n id
holding n _ = 0

-- Those that hold a slot unless they are stopped.
abbrev pub going : ℕ → Task → ℕ
going n (starts id) = one n id
going n (started id) = one n id
going n (works id) = one n id
going n (resumes id) = one n id
going n (resumed id) = one n id
going n (yields id w) = one n id
going n (yielded id w) = one n id
going n _ = 0

abbrev pub parked : ℕ → Task → ℕ
parked n (parks id w) = one n id
parked n (acquires id w) = one n id
parked n _ = 0

abbrev pub arriving : ℕ → Task → ℕ
arriving n (inserts id spec) = one n id
arriving n (enqueues id) = one n id
arriving n _ = 0

-- The steps of `close`.
abbrev pub closing : Task → ℕ
closing (close_queued ids) = 1
closing (close_queued_writes id ids) = 1
closing (close_running ids) = 1
closing (close_running_writes id ids) = 1
closing _ = 0

abbrev pub refusals : List (ℕ × Bool) → ℕ
refusals [] = 0
refusals ((w, b) ∷ answers) = (if b then 0 else 1) + refusals answers

abbrev pub sum : (Task → ℕ) → List Task → ℕ
sum w [] = 0
sum w (t ∷ ts) = w t + sum w ts

pub take_task-sum :
    (w : Task → ℕ) (i : ℕ) (ts : List Task) (t : Task) (us : List Task)
    → take_task i ts ≡ some (t, us)
    → sum w ts ≡ w t + sum w us
unfolding take_task
take_task-sum w i [] t us h = cc
take_task-sum w zero (x ∷ ts) t us h = ground arith
take_task-sum w (suc i) (x ∷ ts) t us h =
    go (take_task i ts) (λ u vs e. take_task-sum w i ts u vs e) h
  where
    go :
        (o : Option (Task × List Task))
        → ((u : Task) (vs : List Task) → o ≡ some (u, vs) → sum w ts ≡ w u + sum w vs)
        → elim o as (λ _. Option (Task × List Task)) [
          | none ↦ none
          | some (u, vs) ↦ some (u, x ∷ vs)
        ]
          ≡ some (t, us)
        → sum w (x ∷ ts) ≡ w t + sum w us
    go none ih k = cc
    go (some (u, vs)) ih k = ground (arith, ih u vs refl)

pub count-append : (n : ℕ) (xs ys : List ℕ) → count n (xs ++ ys) ≡ count n xs + count n ys
count-append n [] ys = omega arith
count-append n (x ∷ xs) ys = omega (arith, count-append n xs ys)

pub length-snoc : (xs : List ℕ) (y : ℕ) → length (xs ++ y ∷ []) ≡ suc (length xs)
length-snoc [] y = refl
length-snoc (x ∷ xs) y = ground (arith, length-snoc xs y)

-- Membership by counting.
pub has-count : (n : ℕ) (ns : List ℕ) → (if has n ns then 1 else 0) ≤ count n ns
unfolding has
has-count n [] = omega arith
has-count n (m ∷ ns) = ground (arith, has-count n ns)

pub has-count-true : (n : ℕ) (ns : List ℕ) → has n ns ≡ true → 1 ≤ count n ns
has-count-true n ns h = ground (arith, has-count n ns)

pub count-has : (n : ℕ) (ns : List ℕ) → has n ns ≡ false → count n ns ≡ 0
unfolding has
count-has n [] h = refl
count-has n (m ∷ ns) h = ground (arith, count-has n ns)

pub remove-count :
    (n m : ℕ) (ns : List ℕ) → count n (remove m ns) ≡ (if m == n then 0 else count n ns)
unfolding remove
remove-count n m [] = ground arith
remove-count n m (k ∷ ns) = ground (arith, remove-count n m ns)

pub remove-length : (m : ℕ) (ns : List ℕ) → length (remove m ns) + count m ns ≡ length ns
unfolding remove
remove-length m [] = refl
remove-length m (k ∷ ns) = ground (arith, remove-length m ns)

pub splice-count : (n m : ℕ) (ns : List ℕ) → count n (splice m ns) ≤ count n ns
unfolding splice
splice-count n m [] = omega arith
splice-count n m (k ∷ ns) = ground (arith, splice-count n m ns)

pub startable-count :
    (n : ℕ) (pauses ids : List ℕ) (id : ℕ)
    → startable pauses ids ≡ some id
    → count n (splice id ids) + one n id ≡ count n ids
unfolding startable splice
startable-count n pauses [] id h = cc
startable-count n pauses (k ∷ ids) id h = ground (arith, startable-count n pauses ids id)

-- Slots that are promised to waiters.
abbrev pub promised : List (ℕ × Bool) → ℕ
promised [] = 0
promised ((w, b) ∷ answers) = (if b then 1 else 0) + promised answers

pub forget-promised :
    (w : ℕ) (answers : List (ℕ × Bool)) (b : Bool)
    → lookup w answers ≡ some b
    → promised (forget w answers) + (if b then 1 else 0) ≡ promised answers
unfolding lookup forget
forget-promised w [] b h = cc
forget-promised w ((v, c) ∷ answers) b h = ground (arith, forget-promised w answers b)

pub refuse_all-promised :
    (ws : List ℕ) (answers : List (ℕ × Bool)) → promised (refuse_all ws answers) ≡ promised answers
refuse_all-promised [] answers = refl
refuse_all-promised (w ∷ ws) answers = ground (arith, refuse_all-promised ws answers)

-- The slots that are free or promised.
abbrev pub available : Scheduler → ℕ
available st = st.sem.slots + promised st.answers

pub release_slot-available : (st : Scheduler) → available (release_slot st) ≡ suc (available st)
unfolding release_slot release
release_slot-available st = go st.sem.waiters refl
  where
    go : (ws : List ℕ) → st.sem.waiters ≡ ws → available (release_slot st) ≡ suc (available st)
    go [] e = ground arith
    go (w ∷ ws) e = ground arith

pub one_refl : (n : ℕ) → one n n ≡ 1
one_refl n = ground arith

pub add-count :
    (n m : ℕ) (ns : List ℕ) → has m ns ≡ false → count n (add m ns) ≡ count n ns + one n m
unfolding add
add-count n m ns h = ground (arith, count-append n ns (m ∷ []))

pub add-length : (m : ℕ) (ns : List ℕ) → has m ns ≡ false → length (add m ns) ≡ suc (length ns)
unfolding add
add-length m ns h = ground (arith, length-snoc ns m)

pub add-grows : (n m : ℕ) (ns : List ℕ) → count n ns ≤ count n (add m ns)
unfolding add
add-grows n m ns = ground (arith, count-append n ns (m ∷ []))

pub add-here : (n m : ℕ) (ns : List ℕ) → one n m ≤ count n (add m ns)
unfolding add
add-here n m ns = ground (arith, count-append n ns (m ∷ []), has-count m ns)

pub has_not : (n : ℕ) (ns : List ℕ) → count n ns ≡ 0 → has n ns ≡ false
has_not n ns h = ground (arith, has-count n ns)

pub has_some : (n : ℕ) (ns : List ℕ) → 1 ≤ count n ns → has n ns ≡ true
has_some n ns h = ground (arith, count-has n ns)

-- A semaphore that is closed, and answers that refuse a slot.
abbrev pub refusing : Scheduler → ℕ
refusing st = (if st.sem.closed then 1 else 0) + refusals st.answers

pub release_slot-refusing : (st : Scheduler) → refusing (release_slot st) ≡ refusing st
unfolding release_slot release
release_slot-refusing st = go st.sem.waiters refl
  where
    go : (ws : List ℕ) → st.sem.waiters ≡ ws → refusing (release_slot st) ≡ refusing st
    go [] e = ground arith
    go (w ∷ ws) e = ground arith

pub forget-refusals :
    (w : ℕ) (answers : List (ℕ × Bool)) (b : Bool)
    → lookup w answers ≡ some b
    → refusals (forget w answers) + (if b then 0 else 1) ≡ refusals answers
unfolding lookup forget
forget-refusals w [] b h = cc
forget-refusals w ((v, c) ∷ answers) b h = ground (arith, forget-refusals w answers b)

pub add-upper : (n m : ℕ) (ns : List ℕ) → count n (add m ns) ≤ count n ns + one n m
unfolding add
add-upper n m ns = ground (arith, count-append n ns (m ∷ []))

pub add-bound : (n m : ℕ) (ns : List ℕ) → count n ns ≤ 1 → count n (add m ns) ≤ 1
unfolding add
add-bound n m ns h = ground (arith, count-append n ns (m ∷ []), count-has n ns)

pub add-has_not : (n m : ℕ) (ns : List ℕ) → has n (add m ns) ≡ false → has n ns ≡ false
add-has_not n m ns h = has_not n ns (omega (arith, count-has n (add m ns) h, add-grows n m ns))

pub remove-has :
    (n m : ℕ) (ns : List ℕ) → one n m ≡ 0 → has n (remove m ns) ≡ false → has n ns ≡ false
remove-has n m ns e h =
    has_not n ns (ground (arith, remove-count n m ns, count-has n (remove m ns) h))

-- A weight below another, in sum.
pub sum_mono : (w v : Task → ℕ) → ((t : Task) → w t ≤ v t) → (ts : List Task) → sum w ts ≤ sum v ts
sum_mono w v h [] = omega arith
sum_mono w v h (t ∷ ts) = omega (arith, h t, sum_mono w v h ts)

pub holding-going : (n : ℕ) (t : Task) → holding n t ≤ going n t
holding-going n t = ground arith

pub parked-executing : (n : ℕ) (t : Task) → parked n t ≤ executing n t
parked-executing n t = ground arith

pub going-executing : (n : ℕ) (t : Task) → going n t ≤ executing n t
going-executing n t = ground arith

-- What is zero at a run is zero at each, or the other is another.
pub only : (f : ℕ → ℕ) (id n : ℕ) → f id ≡ 0 → (one n id ≡ 0) ⊎ (f n ≡ 0)
only f id n h = elim (ℕ_discrete id n) [ yes e ↦ inr (ground arith) | no e ↦ inl (ground arith) ]
