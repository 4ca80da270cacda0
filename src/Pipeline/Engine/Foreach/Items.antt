-- ===== src/Pipeline/Engine/Foreach/Items.antt =====
-- Where the items of a `foreach` of src/pipeline/engine.ts go, and that it ends.
use mathlib.Core.Path.{subst}
use decompi.Base.{
  ℕ, zero, suc, ◌+◌, ◌≤◌, ◌≡◌, refl, sym, Bool, true, false, List, [], ◌∷◌, ◌++◌, Option, none,
  some, String, if◌then◌else◌, arith, length, take, drop, ◌==◌, ltb,
}
use decompi.Pipeline.Engine.{has_id, Item, partition}
use decompi.Pipeline.Engine.AgentLoop.Play.{times, times-append}
use decompi.Pipeline.Engine.Foreach.{
  then_do, Running, Outcome, returns, throws, Failure, RunState, WorkflowConfig, ScopeResult,
  Bucket, ForeachStep, Runner, Gathered, draw, set_up, run_window, run_queue, run_fragments,
  source_of, unchanged_by, fresh, run_source, run_foreach, bad_batch_size, no_fragment,
}
use decompi.Pipeline.Engine.Foreach.Batches.{
  Sized-Filled, drop_some, drop_fewer, times-take, Filled, queue_times, queue_length,
  partition-Sized,
}
use decompi.Pipeline.Engine.Foreach.Endings.{Gives, then_do-Gives, Gives-weaken, Partitions}
use decompi.Pipeline.Engine.Foreach.Routing.{
  bucket_times, gathered, route_items-gathered, targets, Leads, route_items-Leads,
}

-- A window holds some items of the batch, and the others go back.
abbrev Drawn : List Item → List (List Item) → Outcome (List Item × List (List Item)) → Type 0
Drawn batch queue (throws e) = e ≡ bad_batch_size
Drawn batch queue (returns (window, rest)) =
    ((k : String) → times k window + queue_times k rest ≡ times k batch + queue_times k queue)
    × (suc (queue_length rest) ≤ length batch + queue_length queue)
    × Filled rest

draw-Drawn :
    (cfg : WorkflowConfig) (batch : List Item) (queue : List (List Item))
    → 1 ≤ length batch
    → Filled queue
    → Drawn batch queue (draw cfg batch queue)
unfolding draw
draw-Drawn cfg batch queue pos filled = go cfg.batch_size
  where
    whole : Drawn batch queue (returns (batch, queue))
    whole = ((λ k. refl), omega arith, filled)

    cut :
        (n : ℕ) (b c : Bool)
        → (n == 0) ≡ c
        → ltb n (length batch) ≡ b
        → Drawn batch queue (
            if c
            then throws bad_batch_size
            else if b
            then returns (take n batch, drop n batch ∷ queue)
            else returns (batch, queue))
    cut n b true z e = refl
    cut n true false z e = (
      (λ k. omega (arith, times-take k n batch)),
      omega (arith, drop_fewer n batch (ground arith) pos),
      (drop_some n batch (ground arith), filled),
    )
    cut n false false z e = whole

    go :
        (o : Option ℕ)
        → Drawn batch queue (elim o as (λ _. Outcome (List Item × List (List Item))) [
          | none ↦ returns (batch, queue)
          | some n ↦
              if n == 0
              then throws bad_batch_size
              else if ltb n (length batch)
              then returns (take n batch, drop n batch ∷ queue)
              else returns (batch, queue)
        ])
    go none = whole
    go (some n) = cut n (ltb n (length batch)) (n == 0) refl refl

-- A `setup` is to blame for the sizes that it asks for.
draw-Blames :
    (cfg : WorkflowConfig) (batch : List Item) (queue : List (List Item)) (e : Failure)
    → draw cfg batch queue ≡ throws e
    → cfg.batch_size ≡ some 0
unfolding draw
draw-Blames cfg batch queue e h = ground arith

-- What a failure is to blame on is told by `Blame`.
module _ {W : Type 0} (Blame : Failure → Type 0) (step : ForeachStep W) (runner : Runner W) where
  -- The body and the fragments end, and keep their items; the other failures of a `foreach` are a
  -- fragment that is not registered, and a `setup` that asks for batches of no items.
  pub record Keeps : Type 0 where
    pub body :
        (cfg : WorkflowConfig) (items : List Item) (state : RunState W)
        → Gives Blame (Partitions items) (runner.body cfg items state)
    pub fragment :
        (name : String)
        (run_fragment : Option String → List Item → RunState W → Running (RunState W × ScopeResult))
        → has_id name (targets step.on_reject) ≡ true
        → runner.fragment name ≡ some run_fragment
        → (model : Option String) (items : List Item) (state : RunState W)
        → Gives Blame (Partitions items) (run_fragment model items state)
    pub unregistered :
        (name : String)
        → has_id name (targets step.on_reject) ≡ true
        → runner.fragment name ≡ none
        → Blame no_fragment
    pub no_items :
        (batch : List Item) (state : RunState W)
        → (set_up step.setup batch state).1.batch_size ≡ some 0
        → Blame bad_batch_size

  -- What is gathered in the end.
  abbrev Gathers : (String → ℕ) → Gathered W → Type 0
  Gathers amount g =
      ((k : String) → gathered k g ≡ amount k) × Leads (targets step.on_reject) g.routed

  run_window-Gathers :
      (cfg : WorkflowConfig) (window : List Item) (g : Gathered W)
      → Keeps
      → Leads (targets step.on_reject) g.routed
      → Gives Blame
          (Gathers (λ k. times k window + gathered k g))
          (run_window step runner cfg window g)
  unfolding run_window
  run_window-Gathers cfg window g keeps leads =
      then_do-Gives Blame (Partitions window) _ (runner.body cfg window g.state) _
        (keeps.body cfg window g.state)
        (λ (state, res) h.
          let more : Gathered W = record g {
            state = state;
            accepted = g.accepted ++ res.accepted;
            skipped = g.skipped ++ res.skipped;
          } in
          (
            _,
            refl,
            (
              (λ k. omega (
                arith,
                h k,
                times-append k g.accepted res.accepted,
                times-append k g.skipped res.skipped,
                route_items-gathered k step.on_reject res.rejected more,
              )),
              route_items-Leads step.on_reject res.rejected more leads,
            ),
          ))

  draw-Gives :
      (batch : List Item) (queue : List (List Item)) (state : RunState W)
      → Keeps
      → 1 ≤ length batch
      → Filled queue
      → Gives Blame
          (λ (window, rest). Drawn batch queue (returns (window, rest)))
          (some (draw (set_up step.setup batch state).1 batch queue))
  draw-Gives batch queue state keeps pos filled =
      go (draw cfg batch queue) (draw-Drawn cfg batch queue pos filled)
        (λ e h. keeps.no_items batch state (draw-Blames cfg batch queue e h))
    where
      cfg : WorkflowConfig
      cfg = (set_up step.setup batch state).1

      go :
          (o : Outcome (List Item × List (List Item)))
          → Drawn batch queue o
          → ((e : Failure) → o ≡ throws e → Blame bad_batch_size)
          → Gives Blame (λ (window, rest). Drawn batch queue (returns (window, rest))) (some o)
      go (throws e) drawn blame = (throws e, refl, subst Blame (sym drawn) (blame e refl))
      go (returns (window, rest)) drawn blame = (returns (window, rest), refl, drawn)

  run_queue-Gathers :
      (fuel : ℕ) (queue : List (List Item)) (g : Gathered W)
      → Keeps
      → Leads (targets step.on_reject) g.routed
      → Filled queue
      → queue_length queue ≤ fuel
      → Gives Blame
          (Gathers (λ k. queue_times k queue + gathered k g))
          (run_queue fuel step runner queue g)
  unfolding run_queue
  run_queue-Gathers fuel [] g keeps leads filled enough =
      (returns g, refl, ((λ k. omega arith), leads))
  run_queue-Gathers zero (batch ∷ queue) g keeps leads filled enough = absurd (omega arith)
  run_queue-Gathers (suc fuel) (batch ∷ queue) g keeps leads filled enough =
      let (state, cfg) = set_up step.setup batch g.state in
      let begun : Gathered W = record g { state = state } in
      then_do-Gives Blame _ _ (some (draw cfg batch queue)) _
        (draw-Gives batch queue g.state keeps filled.0 filled.1)
        (λ (window, rest) (sums, fewer, rest_filled).
          then_do-Gives Blame _ _ (run_window step runner cfg window begun) _
            (run_window-Gathers cfg window begun keeps leads)
            (λ h (here, led).
              Gives-weaken Blame _ _ _
                (λ last (all, ends). ((λ k. omega (arith, all k, here k, sums k)), ends))
                (run_queue-Gathers fuel rest h keeps led rest_filled (omega arith))))

  -- The end of a `foreach`, where every routed item has run its fragment.
  abbrev Ends : (String → ℕ) → Gathered W → Type 0
  Ends amount h =
      (k : String) → times k h.accepted + times k h.rejected + times k h.skipped ≡ amount k

  run_fragments-Ends :
      (buckets : List Bucket) (g : Gathered W)
      → Keeps
      → Leads (targets step.on_reject) buckets
      → Gives Blame
          (Ends (λ k.
            bucket_times k buckets + (times k g.accepted + times k g.rejected + times k g.skipped)))
          (run_fragments runner buckets g)
  unfolding run_fragments
  run_fragments-Ends [] g keeps leads = (returns g, refl, λ k. omega arith)
  run_fragments-Ends (bucket ∷ buckets) g keeps leads =
      go (runner.fragment bucket.to) refl (λ h. run_fragments-Ends buckets h keeps leads.1)
    where
      ran : RunState W × ScopeResult → Gathered W
      ran (state, res) = record g {
        state = state;
        accepted = g.accepted ++ res.accepted;
        rejected = g.rejected ++ res.rejected;
        skipped = g.skipped ++ res.skipped;
      }

      after :
          Option (Option String → List Item → RunState W → Running (RunState W × ScopeResult))
          → Running (Gathered W)
      after none = some (throws no_fragment)
      after (some f) =
          then_do (f bucket.model bucket.items g.state)
            (λ out. run_fragments runner buckets (ran out))

      go :
          (o : Option (Option String → List Item → RunState W → Running (RunState W × ScopeResult)))
          → runner.fragment bucket.to ≡ o
          → ((h : Gathered W)
              → Gives Blame
                  (Ends (λ k.
                    bucket_times k buckets
                    + (times k h.accepted + times k h.rejected + times k h.skipped)))
                  (run_fragments runner buckets h))
          → Gives Blame
              (Ends (λ k.
                bucket_times k (bucket ∷ buckets)
                + (times k g.accepted + times k g.rejected + times k g.skipped)))
              (after o)
      go none e ih = (throws no_fragment, refl, keeps.unregistered bucket.to leads.0 e)
      go (some f) e ih =
          then_do-Gives Blame _ _ (f bucket.model bucket.items g.state) _
            (keeps.fragment bucket.to f leads.0 e bucket.model bucket.items g.state)
            (λ (state, res) kept.
              Gives-weaken Blame _ _ _
                (λ last all k. omega (
                  arith,
                  all k,
                  kept k,
                  times-append k g.accepted res.accepted,
                  times-append k g.rejected res.rejected,
                  times-append k g.skipped res.skipped,
                ))
                (ih (ran (state, res))))

  run_source-Partitions :
      (items source : List Item) (state : RunState W)
      → Keeps
      → 1 ≤ step.batch
      → Gives Blame
          (Partitions (unchanged_by step.from source items ++ source))
          (run_source step runner items source state)
  unfolding run_source
  run_source-Partitions items source state keeps pos =
      let (sized, sums, lengths) = partition-Sized source step.batch step.key pos in
      then_do-Gives Blame _ _
        (run_queue (length source) step runner (partition source step.batch step.key) (fresh state))
        _
        (run_queue-Gathers (length source) (partition source step.batch step.key) (fresh state)
          keeps tt (Sized-Filled step.batch (partition source step.batch step.key) sized)
          (omega (arith, lengths)))
        (λ g (all, leads).
          then_do-Gives Blame _ _ (run_fragments runner g.routed g) _
            (run_fragments-Ends g.routed g keeps leads)
            (λ h last. (
              _,
              refl,
              λ k. omega (
                arith,
                all k,
                last k,
                sums k,
                times-append k (unchanged_by step.from source items) source,
                times-append k (unchanged_by step.from source items) h.rejected,
              ),
            )))

  -- Where the body and the fragments end and keep their items, a `foreach` with a positive `batch` whose
  -- binding is there ends: either it throws, and then what it throws is to blame on the body, on a
  -- fragment or its name, or on the sizes that its `setup` asks for, or the items that it accepts,
  -- leaves in play and skips are together those of its source and those of the scope that it does not
  -- touch, each as often.
  pub run_foreach-Partitions :
      (items source : List Item) (state : RunState W)
      → Keeps
      → 1 ≤ step.batch
      → source_of step.from items state ≡ some source
      → Gives Blame
          (Partitions (unchanged_by step.from source items ++ source))
          (run_foreach step runner items state)
  unfolding run_foreach
  run_foreach-Partitions items source state keeps pos there =
      let (out, ran, all) = run_source-Partitions items source state keeps pos in
      (out, ground (arith, ran), all)
