-- ===== src/Pipeline/Engine/AgentLoop.antt =====
-- The step `agentLoop` of src/pipeline/engine.ts. A model's turns and a workflow's hooks are parameters
-- that act on a world; they are taken to return. The calls of `finalize` are kept in their order.
pub mod Play
use decompi.Base.{
  ℕ, zero, suc, ◌+◌, Bool, true, false, not, ◌&&◌, ◌||◌, List, [], ◌∷◌, ◌++◌, Option, none, some,
  String, ◌===◌, or_else, leb, if◌then◌else◌,
}
use decompi.Pipeline.Engine.{Item, ids, has_id}

-- What `reprompt` decides; the items that it rejects are not read.
pub record Verdict : Type 0 where
  pub accepted : List Item
  pub feedback : Option String
  pub final : Bool

pub record CompletionAction : Type 0 where
  pub promote : Option Bool
  pub status : Option String

-- The world, and the calls of `finalize` so far.
pub record Run (W : Type 0) : Type 0 where
  pub world : W
  pub finalized : List (String × CompletionAction)

-- The hooks of a step, and one turn of its session with the ids that the model gave to `finish`.
pub record Hooks (W Turn : Type 0) : Type 0 where
  pub start : List Item → W → W × String
  pub prompt : String → W → W × (List String × Turn)
  pub reprompt : List Item → Turn → W → W × Verdict
  pub complete : Option (Item → Turn → W → W × CompletionAction)
  pub finalize : Item → CompletionAction → W → W
  pub completion_status : Option String

-- The items that left play, and those in play, when the loop ends.
pub record StepExec : Type 0 where
  pub accepted : List Item
  pub rejected : List Item

abbrev pub default_action : Option String → CompletionAction
default_action status = record { promote = some true; status = status }

-- `if (verdict.feedback)`: an empty text counts as none.
abbrev pub feedback_text : Option String → Option String
feedback_text none = none
feedback_text (some text) = if text === "" then none else some text

module _ {W Turn : Type 0} (hooks : Hooks W Turn) where
  abbrev pub finish_item : Item → CompletionAction → Run W → Run W
  finish_item item action run = record {
    world = hooks.finalize item action run.world;
    finalized = run.finalized ++ (item.id, action) ∷ [];
  }

  -- The items that remain in play, those that are drained, and the run after.
  unfoldable pub drain_finish : List String → List Item → Run W → List Item × List Item × Run W
  drain_finish finished [] run = ([], [], run)
  drain_finish finished (item ∷ items) run =
      let known = has_id item.id finished in
      let (remaining, drained, run') =
        drain_finish finished items
          (if known then finish_item item (default_action hooks.completion_status) run else run) in
      if known then (remaining, item ∷ drained, run') else (item ∷ remaining, drained, run')

  abbrev pub action_of :
      Option (Item → Turn → W → W × CompletionAction)
      → Item
      → Turn
      → Run W
      → Run W × CompletionAction
  action_of none item turn run = (run, default_action hooks.completion_status)
  action_of (some complete) item turn run =
      let (world, action) = complete item turn run.world in ((record run { world = world }), action)

  -- Each item that a verdict accepts is finalized.
  unfoldable pub accept_all : Turn → List Item → Run W → Run W
  accept_all turn [] run = run
  accept_all turn (item ∷ items) run =
      let (run', action) = action_of hooks.complete item turn run in
      accept_all turn items (finish_item item action run')

  unfoldable pub without : List String → List Item → List Item
  without gone [] = []
  without gone (item ∷ items) =
      let rest = without gone items in if has_id item.id gone then rest else item ∷ rest

  -- The last, write-only turn.
  unfoldable pub wrap_up : Option String → List Item → List Item → Run W → Run W × StepExec
  unfolding drain_finish
  wrap_up none accepted in_play run = (run, record { accepted = accepted; rejected = in_play })
  wrap_up (some text) accepted in_play run =
      let (world, (finished, turn)) = hooks.prompt text run.world in
      let (remaining, drained, run') =
        drain_finish finished in_play (record run { world = world }) in
      (run', record { accepted = accepted ++ drained; rejected = remaining })

  -- Out of fuel it returns nothing.
  unfoldable pub turns_loop :
      (fuel turns rejection_retries : ℕ)
      → String
      → List Item
      → List Item
      → Run W
      → Option (Run W × StepExec)
  unfolding drain_finish accept_all without wrap_up
  turns_loop fuel turns rejection_retries prompt accepted [] run =
      some (run, record { accepted = accepted; rejected = [] })
  turns_loop zero turns rejection_retries prompt accepted (item ∷ items) run = none
  turns_loop (suc fuel) turns rejection_retries prompt accepted (item ∷ items) run =
      let (world, (finished, turn)) = hooks.prompt prompt run.world in
      let (remaining, drained, drained_run) =
        drain_finish finished (item ∷ items) (record run { world = world }) in
      let (judged, verdict) = hooks.reprompt remaining turn drained_run.world in
      let run' = accept_all turn verdict.accepted (record drained_run { world = judged }) in
      let in_play = without (ids verdict.accepted) remaining in
      let accepted' = (accepted ++ drained) ++ verdict.accepted in
      let again =
        turns_loop fuel (suc turns) rejection_retries (or_else verdict.feedback prompt) accepted'
          in_play run' in
      elim in_play [
        | [] ↦ some (run', record { accepted = accepted'; rejected = [] })
        | left ∷ others ↦
            if verdict.final
            then some (wrap_up (feedback_text verdict.feedback) accepted' (left ∷ others) run')
            else if leb rejection_retries (suc turns)
            then some (run', record { accepted = accepted'; rejected = left ∷ others })
            else again
      ]

  -- A turn is made even where no retries are allowed.
  unfoldable pub agent_loop :
      (rejection_retries : ℕ) → List Item → Run W → Option (Run W × StepExec)
  unfolding turns_loop
  agent_loop rejection_retries items run =
      let (world, prompt) = hooks.start items run.world in
      let looped =
        turns_loop (suc rejection_retries) 0 rejection_retries prompt [] items
          (record run { world = world }) in
      elim items [ [] ↦ some (run, record { accepted = []; rejected = [] }) | _ ∷ _ ↦ looped ]
