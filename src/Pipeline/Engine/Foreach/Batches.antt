-- ===== src/Pipeline/Engine/Foreach/Batches.antt =====
-- The batches of a `foreach` of src/pipeline/engine.ts.
use decompi.Base.{
  ℕ, zero, suc, ◌+◌, ◌≤◌, ◌≡◌, refl, sym, ap, ◌∙◌, List, [], ◌∷◌, ◌++◌, Option, none, some, String,
  arith, length, take, drop, take-append-drop, length-append,
}
use decompi.Pipeline.Engine.{
  Item, chunk_loop, chunk, group_key, put_group, group_by, chunk_groups, partition,
}
use decompi.Pipeline.Engine.AgentLoop.Play.{times, times-append}

-- How often an item of an id is in a queue of batches, and in groups.
abbrev pub queue_times : String → List (List Item) → ℕ
queue_times k [] = 0
queue_times k (batch ∷ queue) = times k batch + queue_times k queue

abbrev group_times : String → List (String × List Item) → ℕ
group_times k [] = 0
group_times k ((key, group) ∷ groups) = times k group + group_times k groups

-- The items of a queue of batches, none of which is empty or larger than the size.
abbrev pub Sized : ℕ → List (List Item) → Type 0
Sized size [] = Unit
Sized size (batch ∷ queue) = (1 ≤ length batch) × (length batch ≤ size) × Sized size queue

abbrev pub queue_length : List (List Item) → ℕ
queue_length [] = 0
queue_length (batch ∷ queue) = length batch + queue_length queue

queue-append :
    (k : String) (p q : List (List Item))
    → (queue_times k (p ++ q) ≡ queue_times k p + queue_times k q)
      × (queue_length (p ++ q) ≡ queue_length p + queue_length q)
queue-append k [] q = (omega arith, omega arith)
queue-append k (batch ∷ p) q =
    (omega (arith, (queue-append k p q).0), omega (arith, (queue-append k p q).1))

Sized-append :
    (size : ℕ) (p q : List (List Item)) → Sized size p → Sized size q → Sized size (p ++ q)
Sized-append size [] q h k = k
Sized-append size (batch ∷ p) q (a, b, h) k = (a, b, Sized-append size p q h k)

length-take :
    {A : Type 0} (n : ℕ) (xs : List A) → length (take n xs) + length (drop n xs) ≡ length xs
length-take n xs = sym (length-append (take n xs) (drop n xs)) ∙ ap length (take-append-drop n xs)

take-le : {A : Type 0} (n : ℕ) (xs : List A) → length (take n xs) ≤ n
take-le zero xs = omega arith
take-le (suc n) [] = omega arith
take-le (suc n) (x ∷ xs) = omega (arith, take-le n xs)

pub times-take :
    (k : String) (n : ℕ) (xs : List Item) → times k (take n xs) + times k (drop n xs) ≡ times k xs
times-take k n xs =
    sym (times-append k (take n xs) (drop n xs)) ∙ ap (times k) (take-append-drop n xs)

take-some : {A : Type 0} (n : ℕ) (x : A) (xs : List A) → 1 ≤ n → 1 ≤ length (take n (x ∷ xs))
take-some zero x xs h = absurd (omega arith)
take-some (suc n) x xs h = omega arith

chunk_loop-Sized :
    (fuel size : ℕ) (items : List Item)
    → 1 ≤ size
    → length items ≤ fuel
    → Sized size (chunk_loop fuel size items)
      × ((k : String) → queue_times k (chunk_loop fuel size items) ≡ times k items)
      × (queue_length (chunk_loop fuel size items) ≡ length items)
unfolding chunk_loop
chunk_loop-Sized zero size [] pos enough = (tt, (λ k. refl), refl)
chunk_loop-Sized zero size (item ∷ items) pos enough = absurd (omega arith)
chunk_loop-Sized (suc fuel) size [] pos enough = (tt, (λ k. refl), refl)
chunk_loop-Sized (suc fuel) size (item ∷ items) pos enough =
    let all = item ∷ items in
    let some_taken : 1 ≤ length (take size all) = take-some size item items pos in
    let (sized, sums, lengths) =
      chunk_loop-Sized fuel size (drop size all) pos
        (omega (arith, length-take size all, some_taken)) in
    (
      (some_taken, take-le size all, sized),
      (λ k. omega (arith, sums k, times-take k size all)),
      omega (arith, lengths, length-take size all),
    )

chunk-Sized :
    (items : List Item) (size : ℕ)
    → 1 ≤ size
    → Sized size (chunk items size)
      × ((k : String) → queue_times k (chunk items size) ≡ times k items)
      × (queue_length (chunk items size) ≡ length items)
unfolding chunk
chunk-Sized items size pos = chunk_loop-Sized (length items) size items pos (omega arith)

group_length : List (String × List Item) → ℕ
group_length [] = 0
group_length ((key, group) ∷ groups) = length group + group_length groups

put_group-times :
    (k key : String) (item : Item) (groups : List (String × List Item))
    → (group_times k (put_group key item groups) ≡ times k (item ∷ []) + group_times k groups)
      × (group_length (put_group key item groups) ≡ suc (group_length groups))
unfolding put_group group_length
put_group-times k key item [] = (omega arith, omega arith)
put_group-times k key item ((j, group) ∷ groups) =
    let (sums, lengths) = put_group-times k key item groups in
    (
      ground (arith, sums, times-append k group (item ∷ [])),
      ground (arith, lengths, length-append group (item ∷ [])),
    )

group_by-times :
    (k key : String) (items : List Item) (groups : List (String × List Item))
    → (group_times k (group_by key items groups) ≡ times k items + group_times k groups)
      × (group_length (group_by key items groups) ≡ length items + group_length groups)
unfolding group_by
group_by-times k key [] groups = (omega arith, omega arith)
group_by-times k key (item ∷ items) groups =
    let (sums, lengths) = group_by-times k key items (put_group (group_key item key) item groups) in
    let (put_sums, put_lengths) = put_group-times k (group_key item key) item groups in
    (omega (arith, sums, put_sums), omega (arith, lengths, put_lengths))

chunk_groups-Sized :
    (size : ℕ) (groups : List (String × List Item))
    → 1 ≤ size
    → Sized size (chunk_groups size groups)
      × ((k : String) → queue_times k (chunk_groups size groups) ≡ group_times k groups)
      × (queue_length (chunk_groups size groups) ≡ group_length groups)
unfolding chunk_groups group_length
chunk_groups-Sized size [] pos = (tt, (λ k. refl), refl)
chunk_groups-Sized size ((key, group) ∷ groups) pos =
    let (sized, sums, lengths) = chunk_groups-Sized size groups pos in
    let (chunked, chunk_sums, chunk_lengths) = chunk-Sized group size pos in
    (
      Sized-append size (chunk group size) (chunk_groups size groups) chunked sized,
      (λ k. omega (
        arith,
        sums k,
        chunk_sums k,
        (queue-append k (chunk group size) (chunk_groups size groups)).0,
      )),
      omega (
        arith,
        lengths,
        chunk_lengths,
        (queue-append "" (chunk group size) (chunk_groups size groups)).1,
      ),
    )

-- The batches of a `foreach` hold the items that it is given, each as often; none is empty, and none
-- is larger than `batch`, where that is positive.
pub partition-Sized :
    (items : List Item) (batch : ℕ) (key : Option String)
    → 1 ≤ batch
    → Sized batch (partition items batch key)
      × ((k : String) → queue_times k (partition items batch key) ≡ times k items)
      × (queue_length (partition items batch key) ≡ length items)
unfolding partition group_length
partition-Sized items batch none pos = chunk-Sized items batch pos
partition-Sized items batch (some key) pos =
    let (sized, sums, lengths) = chunk_groups-Sized batch (group_by key items []) pos in
    (
      sized,
      (λ k. omega (arith, sums k, (group_by-times k key items []).0)),
      omega (arith, lengths, (group_by-times "" key items []).1),
    )

-- No batch of a queue is empty.
abbrev pub Filled : List (List Item) → Type 0
Filled [] = Unit
Filled (batch ∷ queue) = (1 ≤ length batch) × Filled queue

pub Sized-Filled : (size : ℕ) (queue : List (List Item)) → Sized size queue → Filled queue
Sized-Filled size [] h = tt
Sized-Filled size (batch ∷ queue) (a, b, h) = (a, Sized-Filled size queue h)

pub drop_fewer :
    {A : Type 0} (n : ℕ) (xs : List A)
    → 1 ≤ n
    → 1 ≤ length xs
    → suc (length (drop n xs)) ≤ length xs
drop_fewer zero xs h k = absurd (omega arith)
drop_fewer (suc n) [] h k = absurd (omega arith)
drop_fewer (suc n) (x ∷ xs) h k = omega (arith, length-take n xs)

pub drop_some : {A : Type 0} (n : ℕ) (xs : List A) → suc n ≤ length xs → 1 ≤ length (drop n xs)
drop_some n xs h = omega (arith, length-take n xs, take-le n xs)
