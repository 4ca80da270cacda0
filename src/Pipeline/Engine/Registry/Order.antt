-- ===== src/Pipeline/Engine/Registry/Order.antt =====
-- The search of src/pipeline/engine.ts that finds no cycle: the nodes that it leaves black, in the order
-- in which it leaves them.
use decompi.Base.{◌⊎◌, inl, inr, ℕ, zero, suc, ◌≡◌, refl, true, List, [], ◌∷◌, String, All, arith}
use decompi.Pipeline.Engine.{has_id}
use decompi.Pipeline.Engine.Registry.{
  RouteGraph, edges, Color, white, gray, black, Search, Walk, clear, cycle, running, paint, entered,
  left, visit, dfs,
}

-- The targets of a node stand behind it.
abbrev pub Settled : RouteGraph → List String → Type 0
Settled g [] = Unit
Settled g (n ∷ ns) = All (λ t. has_id t ns ≡ true) (edges g n) × Settled g ns

abbrev pub Within : List String → List String → Type 0
Within ms ns = (x : String) → has_id x ms ≡ true → has_id x ns ≡ true

abbrev pub BlackIn : Search → List String → Type 0
BlackIn s ns = (x : String) → s.color x ≡ black → has_id x ns ≡ true

-- What the search from the nodes `ts` adds to the settled nodes.
pub record Grows (g : RouteGraph) (s' : Search) (ns ts : List String) : Type 0 where
  pub settled : List String
  pub order : Settled g settled
  pub blacks : BlackIn s' settled
  pub keeps : Within ns settled
  pub covers : All (λ t. has_id t settled ≡ true) ts

pub Color-cases : (c : Color) → (c ≡ white) ⊎ ((c ≡ gray) ⊎ (c ≡ black))
Color-cases white = inl refl
Color-cases gray = inr (inl refl)
Color-cases black = inr (inr refl)

pub Walk-cases :
    (w : Walk)
    → ((s : Search) × (w ≡ clear s)) ⊎ (((c : List String) × (w ≡ cycle c)) ⊎ (w ≡ running))
Walk-cases (clear s) = inl (s, refl)
Walk-cases (cycle c) = inr (inl (c, refl))
Walk-cases running = inr (inr refl)

All-Within :
    (ts ms ns : List String)
    → Within ms ns
    → All (λ t. has_id t ms ≡ true) ts
    → All (λ t. has_id t ns ≡ true) ts
All-Within [] ms ns h all = tt
All-Within (t ∷ ts) ms ns h all = (h t all.0, All-Within ts ms ns h all.1)

entered-blacks :
    (n : String) (s : Search) (ns : List String) → BlackIn s ns → BlackIn (entered n s) ns
unfolding entered paint
entered-blacks n s ns blacks x h = blacks x (ground (arith, h))

module _ (g : RouteGraph) where
  abbrev pub Settles : (String → Search → Walk) → Type 0
  Settles f =
      (n : String) (s s' : Search) (ns : List String)
      → f n s ≡ clear s'
      → Settled g ns
      → BlackIn s ns
      → Grows g s' ns (n ∷ [])

  grow-more :
      (t : String) (ts : List String) (s s' : Search) (ns : List String)
      (one : Grows g s ns (t ∷ []))
      → Grows g s' one.settled ts
      → Grows g s' ns (t ∷ ts)
  grow-more t ts s s' ns one more = record {
    settled = more.settled;
    order = more.order;
    blacks = more.blacks;
    keeps = λ x h. more.keeps x (one.keeps x h);
    covers = (more.keeps t one.covers.0, more.covers);
  }

  visit-Settles :
      (f : String → Search → Walk)
      → Settles f
      → (ts : List String) (s s' : Search) (ns : List String) → visit f ts s ≡ clear s'
      → Settled g ns
      → BlackIn s ns
      → Grows g s' ns ts
  unfolding visit
  visit-Settles f hf [] s s' ns e order blacks = record {
    settled = ns;
    order = order;
    blacks = λ x h. blacks x (ground arith);
    keeps = λ x h. h;
    covers = tt;
  }
  visit-Settles f hf (t ∷ ts) s s' ns e order blacks = elim (Color-cases (s.color t)) [
    | inl new ↦ elim (Walk-cases (f t s)) [
      | inl (s1, ran) ↦
          let one = hf t s s1 ns ran order blacks in
          grow-more t ts s1 s' ns one (
            visit-Settles f hf ts s1 s' one.settled (ground (arith, e, new, ran)) one.order
              one.blacks)
      | inr (inl (c, ran)) ↦ absurd (ground (arith, e, new, ran))
      | inr (inr ran) ↦ absurd (ground (arith, e, new, ran))
    ]
    | inr (inl on_stack) ↦ absurd (ground (arith, e, on_stack))
    | inr (inr done) ↦
        grow-more t ts s s' ns
          (record {
            settled = ns;
            order = order;
            blacks = blacks;
            keeps = λ x h. h;
            covers = (blacks t done, tt);
          })
          (visit-Settles f hf ts s s' ns (ground (arith, e, done)) order blacks)
  ]

  leave-Grows :
      (n : String) (s s' : Search) (ns : List String)
      → left n s ≡ s'
      → Grows g s ns (edges g n)
      → Grows g s' ns (n ∷ [])
  unfolding left paint has_id
  leave-Grows n s s' ns e more = record {
    settled = n ∷ more.settled;
    order = (more.covers, more.order);
    blacks = λ x h. ground (arith, e, h, more.blacks x);
    keeps = λ x h. ground (arith, more.keeps x h);
    covers = (ground arith, tt);
  }

  pub dfs-Settles : (fuel : ℕ) → Settles (dfs g fuel)
  unfolding dfs
  dfs-Settles zero n s s' ns e order blacks = cc
  dfs-Settles (suc fuel) n s s' ns e order blacks =
      elim (Walk-cases (visit (dfs g fuel) (edges g n) (entered n s))) [
        | inl (s1, ran) ↦ leave-Grows n s1 s' ns (ground (arith, e, ran)) (
            visit-Settles (dfs g fuel) (dfs-Settles fuel) (edges g n) (entered n s) s1 ns ran order
              (entered-blacks n s ns blacks))
        | inr (inl (c, ran)) ↦ absurd (ground (arith, e, ran))
        | inr (inr ran) ↦ absurd (ground (arith, e, ran))
      ]
