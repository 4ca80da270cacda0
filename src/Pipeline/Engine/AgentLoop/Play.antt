-- ===== src/Pipeline/Engine/AgentLoop/Play.antt =====
-- What `agentLoop` of src/pipeline/engine.ts does with the items that it is given.
use mathlib.Core.List.{append-nil, append_assoc, map-append}
use decompi.Base.{
  ◌⊎◌, ℕ, zero, suc, ◌+◌, ◌≤◌, ◌≡◌, refl, sym, ap, ◌∙◌, Bool, true, false, List, [], ◌∷◌, ◌++◌,
  Option, none, some, String, ◌===◌, or_else, leb, if◌then◌else◌, arith, map,
}
use decompi.Pipeline.Engine.{Item, ids, has_id}
use decompi.Pipeline.Engine.AgentLoop.{
  Verdict, CompletionAction, Run, Hooks, StepExec, default_action, feedback_text, finish_item,
  drain_finish, action_of, accept_all, without, wrap_up, turns_loop, agent_loop,
}

-- How often an item of an id is in a list.
abbrev pub times : String → List Item → ℕ
times k [] = 0
times k (item ∷ items) = (if item.id === k then 1 else 0) + times k items

pub times-append : (k : String) (xs ys : List Item) → times k (xs ++ ys) ≡ times k xs + times k ys
times-append k [] ys = omega arith
times-append k (x ∷ xs) ys = omega (arith, times-append k xs ys)

ids-append : (xs ys : List Item) → ids (xs ++ ys) ≡ ids xs ++ ids ys
ids-append [] ys = refl
ids-append (x ∷ xs) ys = ap (λ js. x.id ∷ js) (ids-append xs ys)

has_id-times : (k : String) (items : List Item) → has_id k (ids items) ≡ leb 1 (times k items)
unfolding has_id
has_id-times k [] = refl
has_id-times k (item ∷ items) = ground (arith, has_id-times k items)

-- The ids of the items that are finalized.
abbrev pub done_ids : {W : Type 0} → Run W → List String
done_ids run = map (λ call. call.0) run.finalized

append_assoc3 : (xs ys zs ws : List String) → ((xs ++ ys) ++ zs) ++ ws ≡ xs ++ (ys ++ zs ++ ws)
append_assoc3 xs ys zs ws =
    append_assoc (xs ++ ys) zs ws
    ∙ append_assoc xs ys (zs ++ ws)
    ∙ ap (λ js. xs ++ js) (sym (append_assoc ys zs ws))

module _ {W Turn : Type 0} (hooks : Hooks W Turn) where
  without-times :
      (k : String) (gone : List String) (items : List Item)
      → times k (without hooks gone items) ≡ (if has_id k gone then 0 else times k items)
  unfolding without
  without-times k gone [] = ground arith
  without-times k gone (item ∷ items) = ground (arith, without-times k gone items)

  drain_finish-times :
      (k : String) (finished : List String) (items : List Item) (run : Run W)
      → let (remaining, drained, after) = drain_finish hooks finished items run in
        times k remaining + times k drained ≡ times k items
  unfolding drain_finish
  drain_finish-times k finished [] run = refl
  drain_finish-times k finished (item ∷ items) run = ground (
    arith,
    drain_finish-times k finished items run,
    drain_finish-times k finished items
        (finish_item hooks item (default_action hooks.completion_status) run),
  )

  -- A call of `finalize` is the last so far.
  finish_item-ids :
      (item : Item) (action : CompletionAction) (run : Run W) (more : List String)
      → done_ids (finish_item hooks item action run) ++ more ≡ done_ids run ++ item.id ∷ more
  finish_item-ids item action run more =
      ap (λ js. js ++ more) (map-append (λ call. call.0) run.finalized _)
      ∙ append_assoc (done_ids run) (item.id ∷ []) more

  drain_finish-ids :
      (finished : List String) (items : List Item) (run : Run W)
      → let (remaining, drained, after) = drain_finish hooks finished items run in
        done_ids after ≡ done_ids run ++ ids drained
  unfolding drain_finish
  drain_finish-ids finished [] run = sym (append-nil (done_ids run))
  drain_finish-ids finished (item ∷ items) run =
      choose (has_id item.id finished) (λ r. drain_finish-ids finished items r)
    where
      next : Bool → Run W
      next b =
          if b then finish_item hooks item (default_action hooks.completion_status) run else run

      after : Bool → List Item × List Item × Run W
      after b =
          let (remaining, drained, run') = drain_finish hooks finished items (next b) in
          if b then (remaining, item ∷ drained, run') else (item ∷ remaining, drained, run')

      choose :
          (b : Bool)
          → ((r : Run W)
              → done_ids (drain_finish hooks finished items r).2
                ≡ done_ids r ++ ids (drain_finish hooks finished items r).1)
          → done_ids (after b).2 ≡ done_ids run ++ ids (after b).1
      choose true ih =
          ih (next true) ∙ finish_item-ids item (default_action hooks.completion_status) run _
      choose false ih = ih run

  action_of-ids :
      (complete : Option (Item → Turn → W → W × CompletionAction)) (item : Item) (turn : Turn)
      (run : Run W)
      → done_ids (action_of hooks complete item turn run).0 ≡ done_ids run
  action_of-ids none item turn run = refl
  action_of-ids (some complete) item turn run = refl

  accept_all-ids :
      (turn : Turn) (items : List Item) (run : Run W)
      → done_ids (accept_all hooks turn items run) ≡ done_ids run ++ ids items
  unfolding accept_all
  accept_all-ids turn [] run = sym (append-nil (done_ids run))
  accept_all-ids turn (item ∷ items) run =
      let (run', action) = action_of hooks hooks.complete item turn run in
      accept_all-ids turn items (finish_item hooks item action run')
      ∙ finish_item-ids item action run' (ids items)
      ∙ ap (λ js. js ++ item.id ∷ ids items) (action_of-ids hooks.complete item turn run)

  -- What a loop is given and what it gives: the items that have left play are finalized, once each and
  -- in their order, and none is lost.
  abbrev Splits : List Item → List Item → Run W → StepExec → Run W → Type 0
  Splits accepted in_play run exec after =
      ((k : String)
        → times k exec.accepted + times k exec.rejected ≡ times k accepted + times k in_play)
      × (new : List String) × (ids exec.accepted ≡ ids accepted ++ new)
      × (done_ids after ≡ done_ids run ++ new)

  -- A verdict accepts, of each id, the items that are in play or none.
  abbrev pub Judges : Type 0
  Judges =
      (items : List Item) (turn : Turn) (w : W) (k : String)
      → let accepted = (hooks.reprompt items turn w).1.accepted in
        (times k accepted ≡ times k items) ⊎ (times k accepted ≡ 0)

  wrap_up-Splits :
      (feedback : Option String) (accepted in_play : List Item) (run : Run W)
      → Splits accepted in_play run
          (wrap_up hooks feedback accepted in_play run).1
          (wrap_up hooks feedback accepted in_play run).0
  unfolding wrap_up
  wrap_up-Splits none accepted in_play run =
      ((λ k. refl), [], sym (append-nil _), sym (append-nil _))
  wrap_up-Splits (some text) accepted in_play run =
      let (world, (finished, turn)) = hooks.prompt text run.world in
      let (remaining, drained, after) =
        drain_finish hooks finished in_play (record run { world = world }) in
      (
        (λ k. omega (
          arith,
          times-append k accepted drained,
          drain_finish-times k finished in_play (record run { world = world }),
        )),
        ids drained,
        ids-append accepted drained,
        drain_finish-ids finished in_play (record run { world = world }),
      )

  Splits-refl :
      (accepted in_play : List Item) (run : Run W)
      → Splits accepted in_play run (record { accepted = accepted; rejected = in_play }) run
  Splits-refl accepted in_play run = ((λ k. refl), [], sym (append-nil _), sym (append-nil _))

  -- After a turn the loop ends, wraps up, or goes on.
  next-Splits :
      (verdict : Verdict) (stop : Bool) (accepted left : List Item) (run : Run W)
      (again : Option (Run W × StepExec))
      → (stop ≡ false
          → (out : Run W × StepExec) × (again ≡ some out) × Splits accepted left run out.1 out.0)
      → (out : Run W × StepExec) × (elim left as (λ _. Option (Run W × StepExec)) [
        | [] ↦ some (run, record { accepted = accepted; rejected = [] })
        | i ∷ is ↦
            if verdict.final
            then some (wrap_up hooks (feedback_text verdict.feedback) accepted (i ∷ is) run)
            else if stop
            then some (run, record { accepted = accepted; rejected = i ∷ is })
            else again
      ]
          ≡ some out)
        × Splits accepted left run out.1 out.0
  next-Splits verdict stop accepted [] run again ih = (_, refl, Splits-refl accepted [] run)
  next-Splits verdict stop accepted (i ∷ is) run again ih = choose verdict.final stop ih
    where
      after : Bool → Bool → Option (Run W × StepExec)
      after final halt =
          if final
          then some (wrap_up hooks (feedback_text verdict.feedback) accepted (i ∷ is) run)
          else if halt
          then some (run, record { accepted = accepted; rejected = i ∷ is })
          else again

      choose :
          (final halt : Bool)
          → (halt ≡ false
              → (out : Run W × StepExec) × (again ≡ some out)
                × Splits accepted (i ∷ is) run out.1 out.0)
          → (out : Run W × StepExec) × (after final halt ≡ some out)
            × Splits accepted (i ∷ is) run out.1 out.0
      choose true halt h =
          (_, refl, wrap_up-Splits (feedback_text verdict.feedback) accepted (i ∷ is) run)
      choose false true h = (_, refl, Splits-refl accepted (i ∷ is) run)
      choose false false h = h refl

  -- A turn moves items out of play, and what follows splits the rest.
  turn-Splits :
      (turn : Turn) (verdict : Verdict) (finished : List String) (accepted in_play : List Item)
      (run : Run W) (judged : W)
      → let (remaining, drained, drained_run) = drain_finish hooks finished in_play run in
        ((k : String)
          → (times k verdict.accepted ≡ times k remaining) ⊎ (times k verdict.accepted ≡ 0))
        → (exec : StepExec) (after : Run W)
        → Splits
            ((accepted ++ drained) ++ verdict.accepted)
            (without hooks (ids verdict.accepted) remaining)
            (accept_all hooks turn verdict.accepted (record drained_run { world = judged }))
            exec
            after
        → Splits accepted in_play run exec after
  turn-Splits turn verdict finished accepted in_play run judged judges exec after
        (sums, new, names, calls) =
      let (remaining, drained, drained_run) = drain_finish hooks finished in_play run in
      (
        (λ k. ground (
          arith,
          sums k,
          judges k,
          times-append k (accepted ++ drained) verdict.accepted,
          times-append k accepted drained,
          drain_finish-times k finished in_play run,
          without-times k (ids verdict.accepted) remaining,
          has_id-times k verdict.accepted,
        )),
        ids drained ++ ids verdict.accepted ++ new,
        names
            ∙ (ap (λ js. js ++ new)
                  (ids-append (accepted ++ drained) verdict.accepted
                    ∙ ap (λ js. js ++ ids verdict.accepted) (ids-append accepted drained))
                ∙ append_assoc3 (ids accepted) (ids drained) (ids verdict.accepted) new),
        calls
            ∙ (ap (λ js. js ++ new)
                  (accept_all-ids turn verdict.accepted (record drained_run { world = judged })
                    ∙ ap (λ js. js ++ ids verdict.accepted) (drain_finish-ids finished in_play run))
                ∙ append_assoc3 (done_ids run) (ids drained) (ids verdict.accepted) new),
      )

  turns_loop-Splits :
      (fuel turns rejection_retries : ℕ) (prompt : String) (accepted in_play : List Item)
      (run : Run W)
      → Judges
      → turns ≤ rejection_retries
      → suc rejection_retries ≤ fuel + turns
      → (out : Run W × StepExec) × (turns_loop hooks fuel turns rejection_retries prompt accepted
            in_play run
          ≡ some out)
        × Splits accepted in_play run out.1 out.0
  unfolding turns_loop
  turns_loop-Splits fuel turns rejection_retries prompt accepted [] run judges early enough =
      (_, refl, Splits-refl accepted [] run)
  turns_loop-Splits zero turns rejection_retries prompt accepted (item ∷ items) run judges early
        enough =
      absurd (omega arith)
  turns_loop-Splits (suc fuel) turns rejection_retries prompt accepted (item ∷ items) run judges
        early enough =
      let (world, (finished, turn)) = hooks.prompt prompt run.world in
      let paid : Run W = record run { world = world } in
      let (remaining, drained, drained_run) = drain_finish hooks finished (item ∷ items) paid in
      let (judged, verdict) = hooks.reprompt remaining turn drained_run.world in
      let run' = accept_all hooks turn verdict.accepted (record drained_run { world = judged }) in
      let in_play = without hooks (ids verdict.accepted) remaining in
      let accepted' = (accepted ++ drained) ++ verdict.accepted in
      let (out, there, splits) =
        next-Splits verdict (leb rejection_retries (suc turns)) accepted' in_play run' _ (λ e.
          turns_loop-Splits fuel (suc turns) rejection_retries (or_else verdict.feedback prompt)
            accepted' in_play run' judges (ground arith) (omega arith)) in
      (
        out,
        there,
        turn-Splits turn verdict finished accepted (item ∷ items) paid judged
            (λ k. judges remaining turn drained_run.world k) out.1 out.0 splits,
      )

  -- Where a verdict accepts, of each id, the items in play or none, the loop ends within one turn more
  -- than `rejectionRetries`: the items that it accepts and those that it leaves in play are together
  -- the items given, and exactly the accepted ones are finalized, once each and in their order.
  pub agent_loop-split :
      (rejection_retries : ℕ) (items : List Item) (run : Run W)
      → Judges
      → (out : Run W × StepExec) × (agent_loop hooks rejection_retries items run ≡ some out)
        × ((k : String) → times k out.1.accepted + times k out.1.rejected ≡ times k items)
        × (done_ids out.0 ≡ done_ids run ++ ids out.1.accepted)
  unfolding agent_loop
  agent_loop-split rejection_retries [] run judges = (_, refl, (λ k. refl), sym (append-nil _))
  agent_loop-split rejection_retries (item ∷ items) run judges =
      let (world, prompt) = hooks.start (item ∷ items) run.world in
      let (out, there, (sums, new, names, calls)) =
        turns_loop-Splits (suc rejection_retries) 0 rejection_retries prompt [] (item ∷ items)
          (record run { world = world }) judges (omega arith) (omega arith) in
      (out, there, (λ k. omega (arith, sums k)), calls ∙ ap (λ js. done_ids run ++ js) (sym names))
