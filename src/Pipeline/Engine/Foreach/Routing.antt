-- ===== src/Pipeline/Engine/Foreach/Routing.antt =====
-- Where the routes of src/pipeline/engine.ts put the items that a body rejects.
use decompi.Base.{
  ◌===◌, ℕ, suc, ◌+◌, ◌≡◌, refl, Bool, true, false, List, [], ◌∷◌, ◌++◌, Option, none, some, String,
  if◌then◌else◌, arith, Option-cases, inl, inr,
}
use decompi.Pipeline.Engine.{has_id, Item, Route}
use decompi.Pipeline.Engine.AgentLoop.Play.{times, times-append}
use decompi.Pipeline.Engine.Foreach.{
  bump_attempt, route_budget_exceeded, Bucket, Gathered, match_route, put_bucket, route_item,
  route_items,
}

abbrev pub bucket_times : String → List Bucket → ℕ
bucket_times k [] = 0
bucket_times k (bucket ∷ buckets) = times k bucket.items + bucket_times k buckets

put_bucket-times :
    (k : String) (route : Route) (item : Item) (buckets : List Bucket)
    → bucket_times k (put_bucket route item buckets) ≡ times k (item ∷ []) + bucket_times k buckets
unfolding put_bucket
put_bucket-times k route item [] = omega arith
put_bucket-times k route item (bucket ∷ buckets) =
    ground (arith, put_bucket-times k route item buckets, times-append k bucket.items (item ∷ []))

module _ {W : Type 0} where
  -- What has been gathered, routed items included.
  abbrev pub gathered : String → Gathered W → ℕ
  gathered k g =
      times k g.accepted + times k g.rejected + times k g.skipped + bucket_times k g.routed

  route_item-gathered :
      (k : String) (routes : List Route) (item : Item) (g : Gathered W)
      → gathered k (route_item routes item g) ≡ times k (item ∷ []) + gathered k g
  unfolding route_item
  route_item-gathered k routes item g = elim (Option-cases (match_route 0 routes item)) [
    | inl e ↦ ground (arith, times-append k g.rejected (item ∷ []))
    | inr ((route, index), e) ↦
        ground
          (arith, times-append k g.rejected (item ∷ []), put_bucket-times k route item g.routed)
  ]

  pub route_items-gathered :
      (k : String) (routes : List Route) (items : List Item) (g : Gathered W)
      → gathered k (route_items routes items g) ≡ times k items + gathered k g
  unfolding route_items
  route_items-gathered k routes [] g = omega arith
  route_items-gathered k routes (item ∷ items) g = omega (
    arith,
    route_items-gathered k routes items (route_item routes item g),
    route_item-gathered k routes item g,
  )

-- The fragments that routes lead to.
abbrev pub targets : List Route → List String
targets [] = []
targets (route ∷ routes) = route.to ∷ targets routes

-- Every bucket is for one of these fragments.
abbrev pub Leads : List String → List Bucket → Type 0
Leads names [] = Unit
Leads names (bucket ∷ buckets) = (has_id bucket.to names ≡ true) × Leads names buckets

put_bucket-Leads :
    (names : List String) (route : Route) (item : Item) (buckets : List Bucket)
    → has_id route.to names ≡ true
    → Leads names buckets
    → Leads names (put_bucket route item buckets)
unfolding put_bucket
put_bucket-Leads names route item [] h l = (h, tt)
put_bucket-Leads names route item (bucket ∷ buckets) h l =
    choose (bucket.to === route.to) (put_bucket-Leads names route item buckets h l.1)
  where
    choose :
        (b : Bool)
        → Leads names (put_bucket route item buckets)
        → Leads names (
            if b
            then (record bucket { items = bucket.items ++ item ∷ [] }) ∷ buckets
            else bucket ∷ put_bucket route item buckets)
    choose true ih = (l.0, l.1)
    choose false ih = (l.0, ih)

match_route-Leads :
    (index : ℕ) (routes : List Route) (item : Item) (route : Route) (at : ℕ)
    → match_route index routes item ≡ some (route, at)
    → has_id route.to (targets routes) ≡ true
unfolding match_route has_id
match_route-Leads index [] item route at h = cc
match_route-Leads index (r ∷ routes) item route at h =
    ground (arith, match_route-Leads (suc index) routes item route at)

module _ {W : Type 0} where
  route_item-Leads :
      (routes : List Route) (item : Item) (g : Gathered W)
      → Leads (targets routes) g.routed
      → Leads (targets routes) (route_item routes item g).routed
  unfolding route_item
  route_item-Leads routes item g l =
      go (match_route 0 routes item) (λ r at e. match_route-Leads 0 routes item r at e)
    where
      after : Option (Route × ℕ) → Gathered W
      after none = record g { rejected = g.rejected ++ item ∷ [] }
      after (some (route, index)) =
          if route_budget_exceeded (index, route.to) item.id route.max_attempts g.state.attempts
          then record g { rejected = g.rejected ++ item ∷ [] }
          else record g {
            state = record g.state {
              attempts = bump_attempt (index, route.to) item.id g.state.attempts;
            };
            routed = put_bucket route item g.routed;
          }

      go :
          (o : Option (Route × ℕ))
          → ((r : Route) (at : ℕ) → o ≡ some (r, at) → has_id r.to (targets routes) ≡ true)
          → Leads (targets routes) (after o).routed
      go none h = l
      go (some (route, index)) h =
          choose
            (route_budget_exceeded (index, route.to) item.id route.max_attempts g.state.attempts)
        where
          choose :
              (b : Bool)
              → Leads
                  (targets routes)
                  (if b then record g { rejected = g.rejected ++ item ∷ [] } else record g {
                    state = record g.state {
                      attempts = bump_attempt (index, route.to) item.id g.state.attempts;
                    };
                    routed = put_bucket route item g.routed;
                  }).routed
          choose true = l
          choose false =
              put_bucket-Leads (targets routes) route item g.routed (h route index refl) l

  pub route_items-Leads :
      (routes : List Route) (items : List Item) (g : Gathered W)
      → Leads (targets routes) g.routed
      → Leads (targets routes) (route_items routes items g).routed
  unfolding route_items
  route_items-Leads routes [] g l = l
  route_items-Leads routes (item ∷ items) g l =
      route_items-Leads routes items (route_item routes item g) (route_item-Leads routes item g l)
