-- ===== src/Pipeline/Engine/Registry/Ranks.antt =====
-- A graph of routes that the search of src/pipeline/engine.ts accepts can be ranked: every route leads
-- to a node of a lower rank.
use decompi.Base.{
  inl, inr, ℕ, suc, ◌+◌, ◌≤◌, ◌<◌, ◌≡◌, ◌≢◌, refl, true, false, List, [], ◌∷◌, String, ◌===◌, All,
  if◌then◌else◌, arith, Bool-cases, length,
}
use decompi.Pipeline.Engine.{has_id}
use decompi.Pipeline.Engine.Registry.{
  RouteGraph, edges, put_edges, clear, Search, find_cycle, blank,
}
use decompi.Pipeline.Engine.Registry.Order.{Settled, dfs-Settles}

abbrev pub IsRanked : RouteGraph → (String → ℕ) → Type 0
IsRanked g rank = (n t : String) → has_id t (edges g n) ≡ true → rank t < rank n

pub edges-put :
    (n : String) (ts : List String) (g : RouteGraph) (m : String)
    → edges (put_edges n ts g) m ≡ (if n === m then ts else edges g m)
unfolding edges put_edges
edges-put n ts [] m = refl
edges-put n ts ((k, us) ∷ g) m = ground (arith, edges-put n ts g m)

-- How many nodes stand behind the last occurrence of a node, itself included.
place : String → List String → ℕ
place x [] = 0
place x (n ∷ ns) = let rest = place x ns in if has_id x ns then rest else suc (length ns)

place-le-length : (x : String) (ns : List String) → place x ns ≤ length ns
unfolding place
place-le-length x [] = omega arith
place-le-length x (n ∷ ns) = ground (arith, place-le-length x ns)

All-has_id :
    (t : String) (ts ns : List String)
    → All (λ x. has_id x ns ≡ true) ts
    → has_id t ts ≡ true
    → has_id t ns ≡ true
unfolding has_id
All-has_id t [] ns all h = cc
All-has_id t (x ∷ ts) ns all h = ground (arith, All-has_id t ts ns all.1)

module _ (g : RouteGraph) where
  head-lt :
      (m : String) (ns : List String) (n t : String)
      → Settled g (m ∷ ns)
      → m ≡ n
      → has_id n ns ≡ false
      → has_id t (edges g n) ≡ true
      → (has_id t (m ∷ ns) ≡ true) × (place t (m ∷ ns) < place n (m ∷ ns))
  unfolding place has_id
  head-lt m ns n t order same new e =
      let there = All-has_id t (edges g n) ns (rw (← same) order.0) e in
      ground (arith, there, new, place-le-length t ns)

  -- The targets of a settled node are settled, in lower places.
  Settled-lt :
      (ns : List String) (n t : String)
      → Settled g ns
      → has_id n ns ≡ true
      → has_id t (edges g n) ≡ true
      → (has_id t ns ≡ true) × (place t ns < place n ns)
  unfolding place has_id
  Settled-lt [] n t order h e = cc
  Settled-lt (m ∷ ns) n t order h e = elim (Bool-cases (has_id n ns)) [
    | inl old ↦ let less = Settled-lt ns n t order.1 old e in ground (arith, less, old)
    | inr new ↦ head-lt m ns n t order (ground (arith, h, new)) new e
  ]

-- The ranks after a search: below all the others, the nodes that it settled.
rank_after : List String → (String → ℕ) → String → ℕ
rank_after ns rank x = if has_id x ns then place x ns else suc (length ns) + rank x

rank_after-IsRanked :
    (g g' : RouteGraph) (rank : String → ℕ) (n : String) (ns : List String)
    → IsRanked g rank
    → ((m : String) → n ≢ m → edges g' m ≡ edges g m)
    → Settled g' ns
    → has_id n ns ≡ true
    → IsRanked g' (rank_after ns rank)
unfolding rank_after
rank_after-IsRanked g g' rank n ns ranked same order has m t e = elim (Bool-cases (has_id m ns)) [
  | inl in_m ↦ let low = Settled-lt g' ns m t order in_m e in ground (arith, low, in_m)
  | inr out_m ↦
      let apart : n ≢ m = λ p. cc (p, has, out_m) in
      let low = ranked m t (rw (same m apart) at e) in
      ground (arith, low, out_m, place-le-length t ns)
]

-- Registering the edges of a node keeps a graph ranked where the search from it finds no cycle.
pub find_cycle-IsRanked :
    (g g' : RouteGraph) (rank : String → ℕ) (n : String) (s : Search)
    → IsRanked g rank
    → ((m : String) → n ≢ m → edges g' m ≡ edges g m)
    → find_cycle g' n ≡ clear s
    → (rank' : String → ℕ) × IsRanked g' rank'
unfolding find_cycle
find_cycle-IsRanked g g' rank n s ranked same found =
    let grows = dfs-Settles g' (suc (length g')) n blank s [] found tt (λ x h. cc) in
    (
      rank_after grows.settled rank,
      rank_after-IsRanked g g' rank n grows.settled ranked same grows.order grows.covers.0,
    )
