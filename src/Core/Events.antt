-- ===== src/Core/Events.antt =====
-- src/core/events.ts: the event table, its counter, and the queue of events before it. Events and
-- their promises are named by the order of `emit`; `settled` holds what each promise got, `none` for
-- a rejection. When a flush runs (the timer, a full batch) is left to the caller of `drain`, and
-- whether its transaction commits is an argument, since a failing one rolls everything back.
pub mod Sequence
pub mod Queue
use decompi.Base.{
  ℕ, suc, ◌+◌, ◌-◌, Bool, true, false, List, [], ◌∷◌, ◌++◌, Option, none, some, String, or_else,
  leb, ltb, if◌then◌else◌, length, take, drop, ◌===◌, map,
}
use decompi.Core.Store.{query}

pub record EmitEvent : Type 0 where
  pub ts : ℕ
  pub run_id : Option String
  pub work_item_id : Option String
  pub type_name : String
  pub level : Option String
  pub payload : String

pub record EventRow : Type 0 where
  pub seq : ℕ
  pub ts : ℕ
  pub run_id : Option String
  pub work_item_id : Option String
  pub type_name : String
  pub level : String
  pub payload : String

-- The `events` table in the order of its inserts, and the row of `counters` for it.
pub record EventLog : Type 0 where
  pub counter : Option ℕ
  pub rows : List EventRow

abbrev pub row_of : ℕ → EmitEvent → EventRow
row_of seq e = record {
  seq = seq;
  ts = e.ts;
  run_id = e.run_id;
  work_item_id = e.work_item_id;
  type_name = e.type_name;
  level = or_else e.level "info";
  payload = e.payload;
}

-- The inserts of a batch, with `seq = base + i + 1`.
unfoldable pub rows_from : ℕ → List EmitEvent → List EventRow
rows_from base [] = []
rows_from base (e ∷ es) = row_of (base + 1) e ∷ rows_from (base + 1) es

-- The transaction of `drain`: seed the counter, add the size of the batch to it, insert the rows.
unfoldable pub append_batch : List EmitEvent → EventLog → EventLog
append_batch batch log =
    let next = or_else log.counter 0 + length batch in
    record { counter = some next; rows = log.rows ++ rows_from (next - length batch) batch }

-- The first number of the batch that `append_batch` would insert.
abbrev pub first_seq : EventLog → ℕ
first_seq log = or_else log.counter 0 + 1

pub record EventStore : Type 0 where
  pub batch_size : ℕ
  pub max_pending : ℕ
  pub pending : List (ℕ × EmitEvent)
  -- producers that wait for room, in the order of their arrival
  pub waiting : List (ℕ × EmitEvent)
  pub log : EventLog
  pub settled : List (ℕ × Option ℕ)

unfoldable pub emit : ℕ → EmitEvent → EventStore → EventStore
emit name e st =
    if leb st.max_pending (length st.pending)
    then record st { waiting = st.waiting ++ (name, e) ∷ [] }
    else record st { pending = st.pending ++ (name, e) ∷ [] }

-- The woken producers look again at the cap, one after the other.
unfoldable pub admit :
    ℕ → List (ℕ × EmitEvent) → List (ℕ × EmitEvent) → List (ℕ × EmitEvent) × List (ℕ × EmitEvent)
admit cap [] pending = (pending, [])
admit cap (w ∷ ws) pending =
    let full = leb cap (length pending) in
    let (pending', waiting') = admit cap ws (if full then pending else pending ++ w ∷ []) in
    (pending', if full then w ∷ waiting' else waiting')

-- What the promises of a batch get.
abbrev pub answers : ℕ → List (ℕ × EmitEvent) → List (ℕ × Option ℕ)
answers seq [] = []
answers seq ((name, e) ∷ batch) = (name, some seq) ∷ answers (seq + 1) batch

abbrev pub rejections : List (ℕ × EmitEvent) → List (ℕ × Option ℕ)
rejections [] = []
rejections ((name, e) ∷ batch) = (name, none) ∷ rejections batch

abbrev pub events_of : List (ℕ × EmitEvent) → List EmitEvent
events_of [] = []
events_of ((name, e) ∷ batch) = e ∷ events_of batch

-- The waiting producers are woken when the queue has room.
unfoldable pub wake : EventStore → EventStore
wake st =
    let (admitted, still) = admit st.max_pending st.waiting st.pending in
    if ltb (length st.pending) st.max_pending
    then record st { pending = admitted; waiting = still }
    else st

-- Behind the splice of the batch: wake the waiting producers, then write.
unfoldable pub flush : Bool → List (ℕ × EmitEvent) → EventStore → EventStore
flush commits batch st =
    let st' = wake st in
    if commits
    then record st' {
      log = append_batch (events_of batch) st.log;
      settled = st.settled ++ answers (first_seq st.log) batch;
    }
    else record st' { settled = st.settled ++ rejections batch }

unfoldable pub drain : Bool → EventStore → EventStore
unfolding flush
drain commits st = elim st.pending [
  | [] ↦ st
  | _ ∷ _ ↦
      flush commits (take st.batch_size st.pending)
        (record st { pending = drop st.batch_size st.pending })
]

-- `ORDER BY seq ASC LIMIT ?`: rows are inserted by rising `seq`.
abbrev limited : Option ℕ → List EventRow → List EventRow
limited none rows = rows
limited (some n) rows = take n rows

unfoldable pub read_after : ℕ → Option ℕ → EventLog → List EventRow
read_after seq limit log = limited limit (query (λ r. ltb seq r.seq) log.rows)

unfoldable pub read_by_run : String → Option ℕ → EventLog → List EventRow
read_by_run run limit log =
    limited limit (query (λ r. elim r.run_id [ none ↦ false | some j ↦ j === run ]) log.rows)

unfoldable pub read_by_work_item : String → Option ℕ → EventLog → List EventRow
read_by_work_item item limit log =
    limited limit (query (λ r. elim r.work_item_id [ none ↦ false | some j ↦ j === item ]) log.rows)

unfoldable pub count : EventLog → ℕ
count log = length log.rows

pub data Op : Type 0 where
  emits : (name : ℕ) → EmitEvent → Op
  drains : (commits : Bool) → Op

unfoldable pub step : EventStore → Op → EventStore
step st (emits name e) = emit name e st
step st (drains commits) = drain commits st

unfoldable pub run : EventStore → List Op → EventStore
unfolding step
run st [] = st
run st (op ∷ ops) = run (step st op) ops
