-- ===== src/Pipeline/Engine/Foreach.antt =====
-- The step `foreach` of src/pipeline/engine.ts: the queue of its batches, and the routes of the items
-- that its body rejects. The hook `setup`, the body and the fragments are parameters that act on the
-- state of the run, and are taken to return.
pub mod Batches
pub mod Endings
pub mod Routing
pub mod Items
use decompi.Base.{
  ℕ, zero, suc, ◌+◌, Bool, true, false, not, ◌&&◌, ◌||◌, List, [], ◌∷◌, ◌++◌, Option, none, some,
  String, ◌==◌, ◌===◌, or_else, leb, ltb, if◌then◌else◌, any, length, take, drop,
}
use decompi.Pipeline.Engine.AgentLoop.{CompletionAction}
use decompi.Pipeline.Engine.{Item, AttemptsRange, When, Route, ids, has_id, partition}

pub data Failure : Type 0 where
  bad_batch no_binding bad_batch_size no_fragment unknown_verifier no_pipeline : Failure

pub data Outcome (A : Type 0) : Type 0 where
  returns : A → Outcome A
  throws : Failure → Outcome A

-- What code that may run other scopes gives; `none` where those run out of fuel.
abbrev pub Running : Type 0 → Type 0
Running A = Option (Outcome A)

unfoldable pub then_do : {A B : Type 0} → Running A → (A → Running B) → Running B
then_do none f = none
then_do (some (throws e)) f = some (throws e)
then_do (some (returns x)) f = f x

-- How often an item was routed by the route of an index and a target, and the items of a name.
pub record RunState (W : Type 0) : Type 0 where
  pub world : W
  pub attempts : List ((ℕ × String) × (String × ℕ))
  pub bindings : String → Option (List Item)
  -- the calls of `finalize`, in their order
  pub finalized : List (String × CompletionAction)

-- What `setup` decides for a batch.
pub record WorkflowConfig : Type 0 where
  pub batch_size : Option ℕ
  pub model : Option String
  pub rejection_retries : Option ℕ

-- The items that leave the scope, stay in play, and were skipped by a gate.
pub record ScopeResult : Type 0 where
  pub accepted : List Item
  pub rejected : List Item
  pub skipped : List Item

-- The items that are routed to a fragment, and the model that they are to run on.
pub record Bucket : Type 0 where
  pub to : String
  pub model : Option String
  pub items : List Item

pub record ForeachStep (W : Type 0) : Type 0 where
  pub from : Option String
  pub batch : ℕ
  pub key : Option String
  pub on_reject : List Route
  pub setup : Option (List Item → RunState W → RunState W × WorkflowConfig)

-- What a `foreach` runs: the body under the decisions of `setup`, and a fragment by its name.
pub record Runner (W : Type 0) : Type 0 where
  pub body : WorkflowConfig → List Item → RunState W → Running (RunState W × ScopeResult)
  pub fragment :
      String → Option (Option String → List Item → RunState W → Running (RunState W × ScopeResult))

abbrev fits_size : Option ℕ → Option ℕ → Bool
fits_size none size = true
fits_size (some below) none = false
fits_size (some below) (some size) = ltb size below

abbrev fits_status : Option (List String) → String → Bool
fits_status none status = true
fits_status (some statuses) status = has_id status statuses

abbrev fits_attempts : Option AttemptsRange → ℕ → Bool
fits_attempts none attempts = true
fits_attempts (some range) attempts =
    leb (or_else range.min 0) attempts && leb attempts (or_else range.max attempts)

unfoldable pub route_matches : Option When → Item → Bool
unfolding has_id
route_matches none item = true
route_matches (some when) item =
    fits_size when.size_below item.size
    && fits_status when.status item.status
    && fits_attempts when.attempts item.attempts

-- The first route that matches, with its index; `index` is that of the first of the routes.
unfoldable pub match_route : ℕ → List Route → Item → Option (Route × ℕ)
unfolding route_matches
match_route index [] item = none
match_route index (route ∷ routes) item =
    let rest = match_route (suc index) routes item in
    if route_matches route.guard item then some (route, index) else rest

-- The count of a budget's key and an item.
unfoldable pub routed_before : ℕ × String → String → List ((ℕ × String) × (String × ℕ)) → ℕ
routed_before key item [] = 0
routed_before key item ((k, (j, n)) ∷ attempts) =
    let rest = routed_before key item attempts in
    if (k.0 == key.0) && (k.1 === key.1) && (j === item) then n else rest

unfoldable pub bump_attempt :
    ℕ × String → String → List ((ℕ × String) × (String × ℕ)) → List ((ℕ × String) × (String × ℕ))
unfolding routed_before
bump_attempt key item attempts = (key, (item, suc (routed_before key item attempts))) ∷ attempts

unfoldable pub route_budget_exceeded :
    ℕ × String → String → Option ℕ → List ((ℕ × String) × (String × ℕ)) → Bool
unfolding routed_before
route_budget_exceeded key item none attempts = false
route_budget_exceeded key item (some max_attempts) attempts =
    leb max_attempts (routed_before key item attempts)

-- A new bucket has the model of the route that opens it.
unfoldable pub put_bucket : Route → Item → List Bucket → List Bucket
put_bucket route item [] = (record { to = route.to; model = route.model; items = item ∷ [] }) ∷ []
put_bucket route item (bucket ∷ buckets) =
    let rest = put_bucket route item buckets in
    if bucket.to === route.to
    then (record bucket { items = bucket.items ++ item ∷ [] }) ∷ buckets
    else bucket ∷ rest

-- What a `foreach` has gathered.
pub record Gathered (W : Type 0) : Type 0 where
  pub state : RunState W
  pub accepted : List Item
  pub rejected : List Item
  pub skipped : List Item
  pub routed : List Bucket

-- `setup` may draw fewer items; the others go back to the front of the queue.
unfoldable pub draw :
    WorkflowConfig → List Item → List (List Item) → Outcome (List Item × List (List Item))
draw cfg batch queue = elim cfg.batch_size [
  | none ↦ returns (batch, queue)
  | some n ↦
      if n == 0
      then throws bad_batch_size
      else if ltb n (length batch)
      then returns (take n batch, drop n batch ∷ queue)
      else returns (batch, queue)
]

abbrev pub default_config : WorkflowConfig
default_config = record { batch_size = none; model = none; rejection_retries = none }

-- The items of the scope that a `foreach` over a binding does not touch.
unfoldable pub not_among : List Item → List Item → List Item
not_among source [] = []
not_among source (item ∷ items) =
    let rest = not_among source items in if has_id item.id (ids source) then rest else item ∷ rest

abbrev pub unchanged_by : Option String → List Item → List Item → List Item
unchanged_by none source items = []
unchanged_by (some name) source items = not_among source items

module _ {W : Type 0} where
  -- An item that the body rejects goes to a route whose budget is not used up, or stays rejected.
  unfoldable pub route_item : List Route → Item → Gathered W → Gathered W
  unfolding match_route
  route_item routes item g = elim (match_route 0 routes item) [
    | none ↦ record g { rejected = g.rejected ++ item ∷ [] }
    | some (route, index) ↦
        if route_budget_exceeded (index, route.to) item.id route.max_attempts g.state.attempts
        then record g { rejected = g.rejected ++ item ∷ [] }
        else record g {
          state = record g.state {
            attempts = bump_attempt (index, route.to) item.id g.state.attempts;
          };
          routed = put_bucket route item g.routed;
        }
  ]

  unfoldable pub route_items : List Route → List Item → Gathered W → Gathered W
  unfolding route_item
  route_items routes [] g = g
  route_items routes (item ∷ items) g = route_items routes items (route_item routes item g)

  abbrev pub set_up :
      Option (List Item → RunState W → RunState W × WorkflowConfig)
      → List Item
      → RunState W
      → RunState W × WorkflowConfig
  set_up none batch state = (state, default_config)
  set_up (some setup) batch state = setup batch state

  -- The body over a window, and the routes of what it rejects.
  unfoldable pub run_window :
      ForeachStep W → Runner W → WorkflowConfig → List Item → Gathered W → Running (Gathered W)
  unfolding then_do route_items
  run_window step runner cfg window g = then_do (runner.body cfg window g.state) (λ (state, res).
      some (
        returns (
          route_items step.on_reject res.rejected (record g {
            state = state;
            accepted = g.accepted ++ res.accepted;
            skipped = g.skipped ++ res.skipped;
          }))))

  -- The loop over the queue; out of fuel it gives nothing.
  unfoldable pub run_queue :
      ℕ → ForeachStep W → Runner W → List (List Item) → Gathered W → Running (Gathered W)
  unfolding draw run_window then_do
  run_queue fuel step runner [] g = some (returns g)
  run_queue zero step runner (batch ∷ queue) g = none
  run_queue (suc fuel) step runner (batch ∷ queue) g =
      let (state, cfg) = set_up step.setup batch g.state in
      then_do (some (draw cfg batch queue)) (λ (window, rest).
        then_do (run_window step runner cfg window (record g { state = state }))
          (λ h. run_queue fuel step runner rest h))

  unfoldable pub run_fragments : Runner W → List Bucket → Gathered W → Running (Gathered W)
  unfolding then_do
  run_fragments runner [] g = some (returns g)
  run_fragments runner (bucket ∷ buckets) g = elim (runner.fragment bucket.to) [
    | none ↦ some (throws no_fragment)
    | some run_fragment ↦ then_do (run_fragment bucket.model bucket.items g.state) (λ (state, res).
        run_fragments runner buckets (record g {
          state = state;
          accepted = g.accepted ++ res.accepted;
          rejected = g.rejected ++ res.rejected;
          skipped = g.skipped ++ res.skipped;
        }))
  ]

  abbrev pub source_of : Option String → List Item → RunState W → Option (List Item)
  source_of none items state = some items
  source_of (some name) items state = state.bindings name

  abbrev pub fresh : RunState W → Gathered W
  fresh state = record { state = state; accepted = []; rejected = []; skipped = []; routed = [] }

  -- The queue, and then the fragments of the items that were routed.
  unfoldable pub run_source :
      ForeachStep W
      → Runner W
      → List Item
      → List Item
      → RunState W
      → Running (RunState W × ScopeResult)
  unfolding run_queue run_fragments partition then_do
  run_source step runner items source state =
      then_do
        (run_queue (length source) step runner (partition source step.batch step.key) (fresh state))
        (λ g. then_do (run_fragments runner g.routed g) (λ h. some (
          returns (
            h.state,
            record {
              accepted = h.accepted;
              rejected = unchanged_by step.from source items ++ h.rejected;
              skipped = h.skipped;
            },
          ))))

  -- Each round takes an item off the queue, so the items of the source bound the rounds.
  unfoldable pub run_foreach :
      ForeachStep W → Runner W → List Item → RunState W → Running (RunState W × ScopeResult)
  unfolding run_source
  run_foreach step runner items state = elim (source_of step.from items state) [
    | none ↦ some (throws (if step.batch == 0 then bad_batch else no_binding))
    | some source ↦
        if step.batch == 0
        then some (throws bad_batch)
        else run_source step runner items source state
  ]
