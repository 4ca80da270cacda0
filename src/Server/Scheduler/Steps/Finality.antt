-- ===== src/Server/Scheduler/Steps/Finality.antt =====
-- What never changes in a row of src/server/scheduler.ts once it stands there.
use mathlib.Core.Path.{subst}
use decompi.Base.{
  ℕ, ◌≡◌, ◌≢◌, refl, sym, ◌∙◌, ap, Bool, true, false, ◌&&◌, ◌==◌, List, [], ◌∷◌, Option, none, some,
  arith, Bool-cases, Option-cases, inl, inr, ℕ_discrete,
}
use decompi.Core.Store.{find, insert_ignore}
use decompi.Core.Store.Keys.{find-update_where, updated}
use decompi.Server.Scheduler.Pumping.{pump-keeps}
use decompi.Server.Scheduler.{
  spawn, forget, remove, paused, queued, inserts, enqueues, pause_reads, pause_flags, pause_parks,
  resume_reads, resume_flags, resume_wakes, resume_requeues, resume_pumps, cancel_reads,
  cancel_writes, cancel_stops, close_queued, close_queued_writes, close_running,
  close_running_writes, starts, started, works, resumes, resumed, yields, yielded, parks, acquires,
  ends, audits, leaves, completing, failing, aborting, startable, start_next, RunRow, RunStatus,
  Scheduler, Task, Ending, row_of_run, update_run, mark_running, finish_aborted, cancelled,
  is_terminal, pump, begin_execution, wake, release_slot, always, is_queued, is_running, is_paused,
}
use decompi.Server.Scheduler.Steps.{
  creates, pauses, resumes_run, cancels, closes, advances, take_task, call, Choice, boundary,
  returns, throws, Op, Moment, fire, step, run, checkpoint, pause_and_wait, conclude, work, settle,
  ask_slot, take_slot, leave, resume_run, new_row,
}

-- A row later in its life: a terminal status stays terminal, `cancelled` stays `cancelled`, and the
-- time of the first start and what the run was asked to do stay as they are.
pub record Later (r s : RunRow) : Type 0 where
  pub terminal : is_terminal r.status ≡ true → is_terminal s.status ≡ true
  pub cancelled_stays : r.status ≡ cancelled → s.status ≡ cancelled
  pub started : (t : ℕ) → r.started_at ≡ some t → s.started_at ≡ some t
  pub asked : (s.spec ≡ r.spec) × (s.created_at ≡ r.created_at)

Later-refl : (r : RunRow) → Later r r
Later-refl r = record {
  terminal = λ h. h;
  cancelled_stays = λ h. h;
  started = λ t h. h;
  asked = (refl, refl);
}

Later-trans : (r s t : RunRow) → Later r s → Later s t → Later r t
Later-trans r s t h k = record {
  terminal = λ e. k.terminal (h.terminal e);
  cancelled_stays = λ e. k.cancelled_stays (h.cancelled_stays e);
  started = λ i e. k.started i (h.started i e);
  asked = (k.asked.0 ∙ h.asked.0, k.asked.1 ∙ h.asked.1);
}

-- Each row is still there, later in its life.
abbrev pub Kept : List RunRow → List RunRow → Type 0
Kept rows rows' =
    (k : ℕ) (r : RunRow)
    → row_of_run k rows ≡ some r
    → (s : RunRow) × (row_of_run k rows' ≡ some s) × Later r s

Kept-refl : (rows : List RunRow) → Kept rows rows
Kept-refl rows k r h = (r, h, Later-refl r)

Kept-eq : (rows rows' : List RunRow) → rows' ≡ rows → Kept rows rows'
Kept-eq rows rows' e = subst (λ x. Kept rows x) (sym e) (Kept-refl rows)

update_run-Kept :
    (id : ℕ) (p : RunStatus → Bool) (f : RunRow → RunRow) (rows : List RunRow)
    → ((r : RunRow) → (f r).id ≡ r.id)
    → ((r : RunRow) → p r.status ≡ true → Later r (f r))
    → Kept rows (update_run id p f rows)
unfolding update_run
update_run-Kept id p f rows keeps later k r h =
    let q : RunRow → Bool = λ x. (x.id == id) && p x.status in
    let there = find-update_where (λ x. x.id) ℕ_discrete k q f keeps rows ∙ ap (updated q f) h in
    elim (Bool-cases (q r)) [
      | inl e ↦ (f r, there ∙ rw e, later r (ground arith))
      | inr e ↦ (r, there ∙ rw e, Later-refl r)
    ]

mark_running-Kept : (now id : ℕ) (rows : List RunRow) → Kept rows (mark_running now id rows)
unfolding mark_running
mark_running-Kept now id rows =
    update_run-Kept id _ _ rows (λ r. refl)
      (λ r live. record {
        terminal = λ h. ground arith;
        cancelled_stays = λ h. ground arith;
        started = λ t h. ground arith;
        asked = (refl, refl);
      })

finish_aborted-Kept : (now id : ℕ) (rows : List RunRow) → Kept rows (finish_aborted now id rows)
unfolding finish_aborted
finish_aborted-Kept now id rows =
    update_run-Kept id _ _ rows (λ r. refl)
      (λ r live. record {
        terminal = λ h. h;
        cancelled_stays = λ h. h;
        started = λ t h. h;
        asked = (refl, refl);
      })

settle-Kept :
    (now id : ℕ) (ending : Ending) (rows : List RunRow) → Kept rows (settle now id ending rows)
unfolding settle
settle-Kept now id completing rows =
    update_run-Kept id _ _ rows (λ r. refl)
      (λ r live. record {
        terminal = λ h. refl;
        cancelled_stays = λ h. ground arith;
        started = λ t h. h;
        asked = (refl, refl);
      })
settle-Kept now id failing rows =
    update_run-Kept id _ _ rows (λ r. refl)
      (λ r live. record {
        terminal = λ h. refl;
        cancelled_stays = λ h. ground arith;
        started = λ t h. h;
        asked = (refl, refl);
      })
settle-Kept now id aborting rows = finish_aborted-Kept now id rows

start_next-rows : (st st' : Scheduler) → start_next st ≡ some st' → st'.rows ≡ st.rows
unfolding start_next begin_execution
start_next-rows st st' h = elim (Option-cases (startable st.pause_requests st.queue)) [
  | inl e ↦ ground arith
  | inr (id, e) ↦ ground arith
]

pump-rows : (st : Scheduler) → (pump st).rows ≡ st.rows
pump-rows st = pump-keeps (λ t. t.rows ≡ st.rows) (λ t t' e h. start_next-rows t t' e ∙ h) st refl

release_slot-rows : (st : Scheduler) → (release_slot st).rows ≡ st.rows
unfolding release_slot
release_slot-rows st = refl

wake-rows : (id : ℕ) (st : Scheduler) → (wake id st).rows ≡ st.rows
unfolding wake
wake-rows id st = ground arith

checkpoint-rows : (id : ℕ) (st : Scheduler) → (checkpoint id st).rows ≡ st.rows
unfolding checkpoint pause_and_wait
checkpoint-rows id st = ground (arith, wake-rows id st)

leave-rows : (id : ℕ) (st : Scheduler) → (leave id st).rows ≡ st.rows
unfolding leave release_slot
leave-rows id st = pump-rows _ ∙ ground arith

insert-Kept :
    (row : RunRow) (rows : List RunRow)
    → Kept rows (insert_ignore ℕ_discrete (λ r. r.id) row rows).0
unfolding find insert_ignore
insert-Kept row rows k r h = (r, ground arith, Later-refl r)

-- A write that sets the status and the flag of a run's row, where the row's status may still change.
set-Kept :
    (id : ℕ) (p : RunStatus → Bool) (to : RunStatus) (flag : RunRow → Bool) (rows : List RunRow)
    → ((s : RunStatus) → p s ≡ true → is_terminal s ≡ true → is_terminal to ≡ true)
    → (p cancelled ≡ true → to ≡ cancelled)
    → Kept rows (update_run id p (λ r. record r { status = to; pause_requested = flag r }) rows)
set-Kept id p to flag rows terminal stays =
    update_run-Kept id p _ rows (λ r. refl)
      (λ r h. record {
        terminal = λ t. terminal r.status h t;
        cancelled_stays = λ c. stays (ap p (sym c) ∙ h);
        started = λ t e. e;
        asked = (refl, refl);
      })

-- A write that moves a run on whose row is not terminal.
move-Kept :
    (id : ℕ) (p : RunStatus → Bool) (to : RunStatus) (rows : List RunRow)
    → ((s : RunStatus) → p s ≡ true → is_terminal s ≡ false)
    → Kept rows (update_run id p (λ r. record r { status = to }) rows)
move-Kept id p to rows live =
    update_run-Kept id p _ rows (λ r. refl)
      (λ r h. record {
        terminal = λ t. absurd (true_false (sym t ∙ live r.status h));
        cancelled_stays = λ c. absurd (true_false (ap is_terminal (sym c) ∙ live r.status h));
        started = λ t e. e;
        asked = (refl, refl);
      })
  where
    true_false : true ≢ false
    true_false e = cc

flag-Kept :
    (id : ℕ) (b : Bool) (rows : List RunRow)
    → Kept rows (update_run id always (λ r. record r { pause_requested = b }) rows)
flag-Kept id b rows =
    update_run-Kept id always _ rows (λ r. refl)
      (λ r h. record {
        terminal = λ t. t;
        cancelled_stays = λ c. c;
        started = λ t e. e;
        asked = (refl, refl);
      })

conclude-rows : (id : ℕ) (e : Ending) (st : Scheduler) → (conclude id e st).rows ≡ st.rows
unfolding conclude
conclude-rows id e st = ground arith

work-rows : (c : Choice) (id : ℕ) (st : Scheduler) → (work c id st).rows ≡ st.rows
unfolding work
work-rows boundary id st = checkpoint-rows id st
work-rows returns id st = conclude-rows id completing st
work-rows throws id st = conclude-rows id failing st

ask_slot-rows : (id waiter : ℕ) (st : Scheduler) → (ask_slot id waiter st).rows ≡ st.rows
unfolding ask_slot
ask_slot-rows id waiter st = ground arith

take_slot-rows : (id : ℕ) (b : Bool) (st : Scheduler) → (take_slot id b st).rows ≡ st.rows
unfolding take_slot
take_slot-rows id b st = ground (arith, release_slot-rows st)

resume_run-rows : (id : ℕ) (s : RunStatus) (st : Scheduler) → (resume_run id s st).rows ≡ st.rows
unfolding resume_run
resume_run-rows id s st = ground (arith, wake-rows id st)

fire-Kept : (m : Moment) (t : Task) (st : Scheduler) → Kept st.rows (fire m t st).rows
unfolding fire
fire-Kept m (inserts id spec) st = insert-Kept (new_row m.now id spec) st.rows
fire-Kept m (enqueues id) st = Kept-eq _ _ (pump-rows _)
fire-Kept m (pause_reads id) st = Kept-eq _ _ (ground arith)
fire-Kept m (pause_flags id s) st =
    subst (λ rows. Kept st.rows rows) (sym (ground arith)) (flag-Kept id true st.rows)
fire-Kept m (pause_parks id) st = move-Kept id is_queued paused st.rows (λ s h. ground arith)
fire-Kept m (resume_reads id) st = Kept-eq _ _ (ground arith)
fire-Kept m (resume_flags id s) st = flag-Kept id false st.rows
fire-Kept m (resume_wakes id s) st = Kept-eq _ _ (resume_run-rows id s st)
fire-Kept m (resume_requeues id) st = move-Kept id is_paused queued st.rows (λ s h. ground arith)
fire-Kept m (resume_pumps id) st = Kept-eq _ _ (pump-rows st)
fire-Kept m (cancel_reads id) st = Kept-eq _ _ (ground arith)
fire-Kept m (cancel_writes id) st =
    set-Kept id always cancelled (λ r. false) st.rows (λ s h t. refl) (λ h. refl)
fire-Kept m (cancel_stops id) st = Kept-eq _ _ (wake-rows id _)
fire-Kept m (close_queued []) st = Kept-refl st.rows
fire-Kept m (close_queued (id ∷ ids)) st = Kept-refl st.rows
fire-Kept m (close_queued_writes id ids) st =
    set-Kept id always cancelled (λ r. false) st.rows (λ s h t. refl) (λ h. refl)
fire-Kept m (close_running []) st = Kept-refl st.rows
fire-Kept m (close_running (id ∷ ids)) st = Kept-refl st.rows
fire-Kept m (close_running_writes id ids) st =
    set-Kept id _ cancelled (λ r. false) st.rows (λ s h t. refl) (λ h. refl)
fire-Kept m (starts id) st = mark_running-Kept m.now id st.rows
fire-Kept m (started id) st = Kept-eq _ _ (checkpoint-rows id st)
fire-Kept m (works id) st = Kept-eq _ _ (work-rows m.choice id st)
fire-Kept m (yields id waiter) st = move-Kept id is_running paused st.rows (λ s h. ground arith)
fire-Kept m (yielded id waiter) st =
    let freed = release_slot (record st { slot_owners = remove id st.slot_owners }) in
    Kept-eq _ _ (
      pump-rows (spawn (parks id waiter) freed)
      ∙ release_slot-rows (record st { slot_owners = remove id st.slot_owners }))
fire-Kept m (parks id waiter) st = Kept-eq _ _ (ground (arith, ask_slot-rows id waiter st))
fire-Kept m (acquires id waiter) st = Kept-eq _ _ (
    ground (
      arith,
      take_slot-rows id true (record st { answers = forget waiter st.answers }),
      take_slot-rows id false (record st { answers = forget waiter st.answers }),
    ))
fire-Kept m (resumes id) st = mark_running-Kept m.now id st.rows
fire-Kept m (resumed id) st = Kept-eq _ _ (ground arith)
fire-Kept m (ends id ending) st = settle-Kept m.now id ending st.rows
fire-Kept m (audits id ending) st = Kept-refl st.rows
fire-Kept m (leaves id) st = Kept-eq _ _ (leave-rows id st)

step-Kept : (st : Scheduler) (op : Op) → Kept st.rows (step st op).rows
unfolding step call
step-Kept st (creates id spec) = Kept-eq _ _ (ground arith)
step-Kept st (pauses id) = Kept-eq _ _ (ground arith)
step-Kept st (resumes_run id) = Kept-eq _ _ (ground arith)
step-Kept st (cancels id) = Kept-eq _ _ (ground arith)
step-Kept st closes = Kept-eq _ _ (ground arith)
step-Kept st (advances i m) = choose (take_task i st.tasks)
  where
    after : Option (Task × List Task) → Scheduler
    after none = st
    after (some (t, ts)) = fire m t (record st { tasks = ts })

    choose : (o : Option (Task × List Task)) → Kept st.rows (after o).rows
    choose none = Kept-refl st.rows
    choose (some (t, ts)) = fire-Kept m t (record st { tasks = ts })

-- Whatever calls and executions do, and however their steps follow each other, the row of a run stays
-- in the table; a run that is done, failed or cancelled never runs, waits or pauses again, one that
-- is cancelled stays so, and the time of its first start and what it was asked to do never change.
pub run-Later :
    (ops : List Op) (st : Scheduler) (k : ℕ) (r : RunRow)
    → row_of_run k st.rows ≡ some r
    → (s : RunRow) × (row_of_run k (run st ops).rows ≡ some s) × Later r s
unfolding run
run-Later [] st k r h = (r, h, Later-refl r)
run-Later (op ∷ ops) st k r h =
    let (s, there, later) = step-Kept st op k r h in
    let (t, at_last, more) = run-Later ops (step st op) k s there in
    (t, at_last, Later-trans r s t later more)
