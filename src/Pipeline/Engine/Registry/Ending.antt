-- ===== src/Pipeline/Engine/Registry/Ending.antt =====
-- The search of src/pipeline/engine.ts ends: each node that it enters and that has routes is an entry of
-- the graph that was white.
use decompi.Base.{
  ◌++◌, ◌⊎◌, inl, inr, ℕ, zero, suc, ◌≤◌, ◌<◌, ◌≡◌, ◌≢◌, refl, Bool, true, false, List, [], ◌∷◌,
  String, ◌===◌, if◌then◌else◌, arith, length, Bool-cases,
}
use decompi.Pipeline.Engine.Registry.{
  RouteGraph, edges, Color, white, gray, black, Search, Walk, clear, cycle, running, paint, entered,
  left, visit, dfs, find_cycle, blank, registered, route_cycle, reject_cycle,
}
use decompi.Pipeline.Engine.Registry.Order.{Color-cases, Walk-cases}
use decompi.Pipeline.Engine.Registry.Ranks.{IsRanked}
use decompi.Pipeline.Engine.Registry.Cycles.{Linked, IsCycle, find_cycle-IsCycle}

abbrev is_white : Color → Bool
is_white white = true
is_white gray = false
is_white black = false

-- The entries of the graph that are white.
whites : RouteGraph → Search → ℕ
whites [] s = 0
whites ((k, ts) ∷ g) s = let rest = whites g s in if is_white (s.color k) then suc rest else rest

-- Nothing turns white again.
abbrev Darker : Search → Search → Type 0
Darker s s' = (x : String) → is_white (s'.color x) ≡ true → is_white (s.color x) ≡ true

whites-Darker : (g : RouteGraph) (s s' : Search) → Darker s s' → whites g s' ≤ whites g s
unfolding whites
whites-Darker [] s s' h = omega arith
whites-Darker ((k, ts) ∷ g) s s' h = ground (arith, h k, whites-Darker g s s' h)

entered-Darker : (n : String) (s : Search) → Darker s (entered n s)
unfolding entered paint
entered-Darker n s x h = ground (arith, h)

left-Darker : (n : String) (s : Search) → Darker s (left n s)
unfolding left paint
left-Darker n s x h = ground (arith, h)

entered-color :
    (k n : String) (s : Search)
    → (k === n) ≡ true
    → (is_white ((entered n s).color k) ≡ false) × (s.color k ≡ s.color n)
unfolding entered paint
entered-color k n s e = ground (arith, e)

-- A white node has no routes, or its entry is one white entry less.
entered-whites :
    (g : RouteGraph) (n : String) (s : Search)
    → is_white (s.color n) ≡ true
    → (edges g n ≡ []) ⊎ (whites g (entered n s) < whites g s)
unfolding whites edges
entered-whites [] n s h = inl refl
entered-whites ((k, ts) ∷ g) n s h = elim (Bool-cases (k === n)) [
  | inl e ↦
      let less = whites-Darker g s (entered n s) (entered-Darker n s) in
      let node = entered-color k n s e in inr (ground (arith, less, h, e, node))
  | inr e ↦ elim (entered-whites g n s h) [
    | inl sink ↦ inl (rw e sink)
    | inr less ↦ inr (ground (arith, less, entered-Darker n s k))
  ]
]

-- What a call gives that starts in the search `s`.
abbrev Ends : Search → Walk → Type 0
Ends s (clear s') = Darker s s'
Ends s (cycle c) = Unit
Ends s running = ⊥

module _ (g : RouteGraph) where
  abbrev AllEnd : ℕ → (String → Search → Walk) → Type 0
  AllEnd fuel f =
      (n : String) (s : Search) → is_white (s.color n) ≡ true → whites g s < fuel → Ends s (f n s)

  Ends-Darker : (s s' : Search) (w : Walk) → Darker s s' → Ends s' w → Ends s w
  Ends-Darker s s' (clear s1) d h = λ x e. d x (h x e)
  Ends-Darker s s' (cycle c) d h = tt
  Ends-Darker s s' running d h = h

  visit-Ends :
      (fuel : ℕ) (f : String → Search → Walk)
      → AllEnd fuel f
      → (ts : List String) (s : Search) → whites g s < fuel
      → Ends s (visit f ts s)
  unfolding visit
  visit-Ends fuel f hf [] s h = λ x e. e
  visit-Ends fuel f hf (t ∷ ts) s h = elim (Color-cases (s.color t)) [
    | inl new ↦
        let one = hf t s (rw new refl) h in
        elim (Walk-cases (f t s)) [
          | inl (s1, ran) ↦
              let darker = rw ran at one in
              rw (visit, new, ran)
                (Ends-Darker s s1 (visit f ts s1) darker
                  (visit-Ends fuel f hf ts s1 (omega (arith, whites-Darker g s s1 darker))))
          | inr (inl (c, ran)) ↦ rw (visit, new, ran) tt
          | inr (inr ran) ↦ absurd (rw ran at one)
        ]
    | inr (inl on_stack) ↦ rw (visit, on_stack) tt
    | inr (inr done) ↦ rw (visit, done) (visit-Ends fuel f hf ts s h)
  ]

  no_targets : (f : String → Search → Walk) (s : Search) → Ends s (visit f [] s)
  unfolding visit
  no_targets f s x e = e

  targets-End :
      (fuel : ℕ) (f : String → Search → Walk)
      → AllEnd fuel f
      → (n : String) (s : Search) → whites g s < suc fuel
      → (edges g n ≡ []) ⊎ (whites g (entered n s) < whites g s)
      → Ends (entered n s) (visit f (edges g n) (entered n s))
  targets-End fuel f hf n s h (inl sink) = rw sink (no_targets f (entered n s))
  targets-End fuel f hf n s h (inr less) =
      visit-Ends fuel f hf (edges g n) (entered n s) (omega arith)

  dfs-Ends : (fuel : ℕ) → AllEnd fuel (dfs g fuel)
  unfolding dfs
  dfs-Ends zero n s new h = absurd (omega arith)
  dfs-Ends (suc fuel) n s new h =
      let inner = targets-End fuel (dfs g fuel) (dfs-Ends fuel) n s h (entered-whites g n s new) in
      elim (Walk-cases (visit (dfs g fuel) (edges g n) (entered n s))) [
        | inl (s1, ran) ↦
            let more = rw ran at inner in
            rw (dfs, ran) (λ x e. entered-Darker n s x (more x (left-Darker n s1 x e)))
        | inr (inl (c, ran)) ↦ rw (dfs, ran) tt
        | inr (inr ran) ↦ absurd (rw ran at inner)
      ]

whites-le-length : (g : RouteGraph) (s : Search) → whites g s ≤ length g
unfolding whites
whites-le-length [] s = omega arith
whites-le-length ((k, ts) ∷ g) s = ground (arith, whites-le-length g s)

-- The search has enough fuel.
pub find_cycle-ends : (g : RouteGraph) (n : String) → find_cycle g n ≢ running
unfolding find_cycle
find_cycle-ends g n e =
    rw e at (dfs-Ends g (suc (length g)) n blank refl (omega (arith, whites-le-length g blank)))

-- A registration is accepted, or refused with a closed walk of routes.
pub reject_cycle-IsCycle :
    (g : RouteGraph) (n : String)
    → (reject_cycle g n ≡ registered)
      ⊎ ((c : List String) × (reject_cycle g n ≡ route_cycle c) × IsCycle g c)
unfolding reject_cycle
reject_cycle-IsCycle g n = elim (Walk-cases (find_cycle g n)) [
  | inl (s, e) ↦ inl (rw (reject_cycle, e))
  | inr (inl (c, e)) ↦ inr (c, rw (reject_cycle, e), find_cycle-IsCycle g n c e)
  | inr (inr e) ↦ absurd (find_cycle-ends g n e)
]

Linked-lt :
    (g : RouteGraph) (rank : String → ℕ) (n : String) (ns : List String) (m : String)
    → IsRanked g rank
    → Linked g n (ns ++ m ∷ [])
    → rank m < rank n
Linked-lt g rank n [] m ranked h = ranked n m h.0
Linked-lt g rank n (k ∷ ns) m ranked h =
    omega (arith, ranked n k h.0, Linked-lt g rank k ns m ranked h.1)

IsCycle-not_ranked :
    (g : RouteGraph) (rank : String → ℕ) (c : List String) → IsRanked g rank → IsCycle g c → ⊥
IsCycle-not_ranked g rank c ranked found =
    let less =
      Linked-lt g rank found.node found.between found.node ranked
        (rw found.closed at found.chain) in
    absurd (omega (arith, less))

-- No registration is refused where every route leads to a lower rank.
pub reject_cycle-IsRanked :
    (g : RouteGraph) (rank : String → ℕ) (n : String)
    → IsRanked g rank
    → reject_cycle g n ≡ registered
reject_cycle-IsRanked g rank n ranked = elim (reject_cycle-IsCycle g n) [
  | inl e ↦ e
  | inr (c, e, found) ↦ absurd (IsCycle-not_ranked g rank c ranked found)
]
