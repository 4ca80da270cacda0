-- ===== src/Core/Events/Queue.antt =====
-- The queue of src/core/events.ts: its cap, and that no event is dropped.
use mathlib.Core.Path.{subst}
use decompi.Base.{
  ◌++◌, length-append, Bool, true, false, take, drop, take-append-drop, sym, ◌∙◌, refl, ap, suc,
  suc, Bool, ap, ℕ, ◌+◌, ◌≤◌, ◌≡◌, List, [], ◌∷◌, length, arith,
}
use decompi.Core.Events.{
  first_seq, wake, EmitEvent, EventStore, Op, step, run, emits, drains, emit, drain, flush, admit,
  answers, rejections,
}

-- The number of `emit` calls among the steps.
abbrev pub emits_of : List Op → ℕ
emits_of [] = 0
emits_of (emits _ _ ∷ ops) = 1 + emits_of ops
emits_of (drains _ ∷ ops) = emits_of ops

-- The events that are pending, wait for room, or are settled.
abbrev pub known : EventStore → ℕ
known st = length st.pending + length st.waiting + length st.settled

length-answers : (n : ℕ) (batch : List (ℕ × EmitEvent)) → length (answers n batch) ≡ length batch
length-answers n [] = refl
length-answers n (x ∷ batch) = ap suc (length-answers (n + 1) batch)

length-rejections : (batch : List (ℕ × EmitEvent)) → length (rejections batch) ≡ length batch
length-rejections [] = refl
length-rejections (x ∷ batch) = ap suc (length-rejections batch)

admit-total :
    (most : ℕ) (ws ps : List (ℕ × EmitEvent))
    → length (admit most ws ps).0 + length (admit most ws ps).1 ≡ length ps + length ws
unfolding admit
admit-total most [] ps = refl
admit-total most (w ∷ ws) ps =
    ground
      (arith, admit-total most ws ps, admit-total most ws (ps ++ w ∷ []), length-append ps (w ∷ []))

admit-cap :
    (most : ℕ) (ws ps : List (ℕ × EmitEvent))
    → length ps ≤ most
    → length (admit most ws ps).0 ≤ most
unfolding admit
admit-cap most [] ps h = h
admit-cap most (w ∷ ws) ps h =
    ground
      (arith, admit-cap most ws ps, admit-cap most ws (ps ++ w ∷ []), length-append ps (w ∷ []))

-- Waking the producers loses none of them, and keeps the limit and the bound it sets.
wake_lem :
    (st : EventStore)
    → let st' = wake st in
      (length st'.pending + length st'.waiting ≡ length st.pending + length st.waiting)
      × (st'.max_pending ≡ st.max_pending)
      × (length st.pending ≤ st.max_pending → length st'.pending ≤ st.max_pending)
unfolding wake
wake_lem st = ground (
  arith,
  admit-total st.max_pending st.waiting st.pending,
  admit-cap st.max_pending st.waiting st.pending,
)

-- A flush settles exactly its batch, whether it commits or not.
flush-known :
    (b : Bool) (batch : List (ℕ × EmitEvent)) (st : EventStore)
    → known (flush b batch st) ≡ known st + length batch
unfolding flush
flush-known true batch st =
    let got = answers (first_seq st.log) batch in
    omega (
      arith,
      (wake_lem st).0,
      length-append st.settled got,
      length-answers (first_seq st.log) batch,
    )
flush-known false batch st =
    omega
      (arith, (wake_lem st).0, length-append st.settled (rejections batch), length-rejections batch)

flush-cap :
    (b : Bool) (batch : List (ℕ × EmitEvent)) (st : EventStore)
    → length st.pending ≤ st.max_pending
    → length (flush b batch st).pending ≤ st.max_pending
unfolding flush
flush-cap true batch st h = (wake_lem st).2 h
flush-cap false batch st h = (wake_lem st).2 h

flush-kept :
    (b : Bool) (batch : List (ℕ × EmitEvent)) (st : EventStore)
    → (flush b batch st).max_pending ≡ st.max_pending
unfolding flush
flush-kept true batch st = (wake_lem st).1
flush-kept false batch st = (wake_lem st).1

length-split :
    (n : ℕ) (xs : List (ℕ × EmitEvent)) → length (take n xs) + length (drop n xs) ≡ length xs
length-split n xs = sym (length-append (take n xs) (drop n xs)) ∙ ap length (take-append-drop n xs)

-- Nothing is lost and the bound holds, after a step that adds `n` events.
abbrev Keeps : ℕ → EventStore → EventStore → Type 0
Keeps n st st' =
    (known st' ≡ known st + n)
    × (length st.pending ≤ st.max_pending → length st'.pending ≤ st.max_pending)
    × (st'.max_pending ≡ st.max_pending)

drain-Keeps :
    (b : Bool) (st : EventStore) (pending : List (ℕ × EmitEvent))
    → st.pending ≡ pending
    → Keeps 0 st (drain b st)
unfolding drain
drain-Keeps b st [] e =
    let d : drain b st ≡ st = ground arith in subst (Keeps 0 st) (sym d) (omega arith, λ h. h, refl)
drain-Keeps b st (x ∷ xs) e =
    let batch = take st.batch_size st.pending in
    let rest = drop st.batch_size st.pending in
    let left : EventStore = record st { pending = rest } in
    let d : drain b st ≡ flush b batch left = ground arith in
    subst (Keeps 0 st) (sym d) (
      omega (arith, flush-known b batch left, length-split st.batch_size st.pending),
      λ h. flush-cap b batch left (omega (arith, h, length-split st.batch_size st.pending)),
      flush-kept b batch left,
    )

emit-Keeps : (name : ℕ) (e : EmitEvent) (st : EventStore) → Keeps 1 st (emit name e st)
unfolding emit
emit-Keeps name e st =
    ground
      (arith, length-append st.pending ((name, e) ∷ []), length-append st.waiting ((name, e) ∷ []))

-- No event is dropped: from a queue within its bound, after any emits and flushes, failing ones
-- among them, the events that are pending, wait for room, or have had their promise settled are
-- those that there were and one more for each `emit` call, by number; and the queue of pending
-- events never grows beyond `maxPending`.
pub run-known :
    (ops : List Op) (st : EventStore)
    → length st.pending ≤ st.max_pending
    → (known (run st ops) ≡ known st + emits_of ops)
      × (length (run st ops).pending ≤ st.max_pending)
unfolding run step
run-known [] st h = (omega arith, h)
run-known (emits name e ∷ ops) st h =
    let st' = emit name e st in
    let (total, fit, same) = emit-Keeps name e st in
    let rest = run-known ops st' (omega (arith, fit h)) in
    (omega (arith, rest.0), omega (arith, rest.1))
run-known (drains b ∷ ops) st h =
    let st' = drain b st in
    let (total, fit, same) = drain-Keeps b st st.pending refl in
    let rest = run-known ops st' (omega (arith, fit h)) in
    (omega (arith, rest.0), omega (arith, rest.1))
