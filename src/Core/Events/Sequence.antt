-- ===== src/Core/Events/Sequence.antt =====
-- The numbers that src/core/events.ts gives to events.
use mathlib.Core.Path.{subst}
use decompi.Base.{
  ℕ, suc, ◌+◌, ◌-◌, ◌≡◌, refl, sym, ap, ◌∙◌, Bool, true, false, List, [], ◌∷◌, ◌++◌, Option, some,
  arith, or_else, if◌then◌else◌, length, length-append, drop, take,
}
use decompi.Core.Events.{
  wake, EmitEvent, EventRow, EventLog, EventStore, Op, rows_from, append_batch, first_seq, emit,
  drain, flush, emits, drains, step, run, answers, events_of, row_of,
}

-- The rows are numbered upwards by one, from `n + 1`.
abbrev pub Numbered : ℕ → List EventRow → Type 0
Numbered n [] = Unit
Numbered n (r ∷ rs) = (r.seq ≡ n + 1) × Numbered (n + 1) rs

-- The table holds the events 1, 2, … with no gap, and the counter is the last number given.
pub record IsGapFree (log : EventLog) : Type 0 where
  pub numbered : Numbered 0 log.rows
  pub counted : or_else log.counter 0 ≡ length log.rows

renumbered : {n m : ℕ} (rs : List EventRow) → n ≡ m → Numbered n rs → Numbered m rs
renumbered rs e h = subst (λ k. Numbered k rs) e h

Numbered-append :
    (n : ℕ) (rs ss : List EventRow)
    → Numbered n rs
    → Numbered (n + length rs) ss
    → Numbered n (rs ++ ss)
Numbered-append n [] ss h k = let e : n + 0 ≡ n = ground arith in renumbered ss e k
Numbered-append n (r ∷ rs) ss h k =
    let e : n + suc (length rs) ≡ (n + 1) + length rs = omega arith in
    (h.0, Numbered-append (n + 1) rs ss h.1 (renumbered ss e k))

rows_from-Numbered : (n : ℕ) (es : List EmitEvent) → Numbered n (rows_from n es)
unfolding rows_from
rows_from-Numbered n [] = tt
rows_from-Numbered n (e ∷ es) = (refl, rows_from-Numbered (n + 1) es)

pub length-rows_from : (n : ℕ) (es : List EmitEvent) → length (rows_from n es) ≡ length es
unfolding rows_from
length-rows_from n [] = refl
length-rows_from n (e ∷ es) = ap suc (length-rows_from (n + 1) es)

pub append_batch-IsGapFree :
    (batch : List EmitEvent) (log : EventLog) → IsGapFree log → IsGapFree (append_batch batch log)
unfolding append_batch
append_batch-IsGapFree batch log g =
    let c : ℕ = or_else log.counter 0 in
    let next : ℕ = c + length batch in
    let counted : or_else log.counter 0 ≡ length log.rows = g.counted in
    let base : next - length batch ≡ length log.rows = omega arith in
    let below : length log.rows ≡ 0 + length log.rows = omega arith in
    record {
      numbered =
          Numbered-append 0 log.rows (rows_from (next - length batch) batch) g.numbered
            (renumbered _ (base ∙ below) (rows_from-Numbered (next - length batch) batch));
      counted =
          ap (λ k. k + length batch) counted
          ∙ ap (λ k. length log.rows + k) (sym (length-rows_from (next - length batch) batch))
          ∙ sym (length-append log.rows (rows_from (next - length batch) batch));
    }

flush-log :
    (commits : Bool) (batch : List (ℕ × EmitEvent)) (st : EventStore)
    → (flush commits batch st).log
      ≡ (if commits then append_batch (events_of batch) st.log else st.log)
unfolding flush wake
flush-log true batch st = refl
flush-log false batch st = ground arith

flush-IsGapFree :
    (commits : Bool) (batch : List (ℕ × EmitEvent)) (st : EventStore)
    → IsGapFree st.log
    → IsGapFree (flush commits batch st).log
flush-IsGapFree true batch st g =
    subst IsGapFree (sym (flush-log true batch st))
      (append_batch-IsGapFree (events_of batch) st.log g)
flush-IsGapFree false batch st g = subst IsGapFree (sym (flush-log false batch st)) g

drain-IsGapFree :
    (b : Bool) (st : EventStore) (pending : List (ℕ × EmitEvent))
    → st.pending ≡ pending
    → IsGapFree st.log
    → IsGapFree (drain b st).log
unfolding drain
drain-IsGapFree b st [] e g =
    let d : (drain b st).log ≡ st.log = ground arith in subst IsGapFree (sym d) g
drain-IsGapFree b st (x ∷ xs) e g =
    let left : EventStore = record st { pending = drop st.batch_size st.pending } in
    let d : (drain b st).log ≡ (flush b (take st.batch_size st.pending) left).log = ground arith in
    subst IsGapFree (sym d) (flush-IsGapFree b (take st.batch_size st.pending) left g)

emit-log : (name : ℕ) (e : EmitEvent) (st : EventStore) → (emit name e st).log ≡ st.log
unfolding emit
emit-log name e st = ground arith

step-IsGapFree : (op : Op) (st : EventStore) → IsGapFree st.log → IsGapFree (step st op).log
unfolding step
step-IsGapFree (emits name e) st g = subst IsGapFree (sym (emit-log name e st)) g
step-IsGapFree (drains b) st g = drain-IsGapFree b st st.pending refl g

-- From a table that is so at the start, and however emits and flushes follow each other, with
-- flushes that fail and roll back among them: the events that are stored carry the numbers 1, 2, …
-- without a gap or a repetition, in the order of the table, and the counter is the number of the
-- last one.
pub run-IsGapFree :
    (ops : List Op) (st : EventStore) → IsGapFree st.log → IsGapFree (run st ops).log
unfolding run
run-IsGapFree [] st g = g
run-IsGapFree (op ∷ ops) st g = run-IsGapFree ops (step st op) (step-IsGapFree op st g)

-- The promise of a call and the row that was written for it.
abbrev pub Answered : List (ℕ × Option ℕ) → List (ℕ × EmitEvent) → List EventRow → Type 0
Answered [] [] [] = Unit
Answered ((name, seq) ∷ got) ((name', e) ∷ ps) (r ∷ rs) =
    (name ≡ name') × (seq ≡ some r.seq) × (r ≡ row_of r.seq e) × Answered got ps rs
Answered _ _ _ = ⊥

answers-Answered :
    (n : ℕ) (batch : List (ℕ × EmitEvent))
    → Answered (answers (n + 1) batch) batch (rows_from n (events_of batch))
unfolding rows_from
answers-Answered n [] = tt
answers-Answered n ((name, e) ∷ batch) = (refl, refl, refl, answers-Answered (n + 1) batch)

-- A flush that commits stores one new row for each event of its batch, in the order of the batch,
-- and each promise of the batch gets the number of the row that holds its event.
pub flush-Answered :
    (batch : List (ℕ × EmitEvent)) (st : EventStore)
    → let new = rows_from (or_else st.log.counter 0) (events_of batch) in
      let got = answers (first_seq st.log) batch in
      ((flush true batch st).log.rows ≡ st.log.rows ++ new)
      × ((flush true batch st).settled ≡ st.settled ++ got)
      × Answered got batch new
unfolding flush append_batch
flush-Answered batch st = (
  ap (λ n. st.log.rows ++ rows_from n (events_of batch)) (omega arith),
  refl,
  answers-Answered _ batch,
)
