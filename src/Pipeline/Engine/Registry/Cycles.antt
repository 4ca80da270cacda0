-- ===== src/Pipeline/Engine/Registry/Cycles.antt =====
-- What the search of src/pipeline/engine.ts reports: a closed walk along routes.
use decompi.Base.{
  length, inl, inr, ap, ◌∙◌, ℕ, zero, suc, ◌≡◌, refl, true, List, [], ◌∷◌, ◌++◌, String, ◌===◌, All,
  arith, Bool-cases,
}
use decompi.Pipeline.Engine.{has_id}
use decompi.Pipeline.Engine.Registry.{
  RouteGraph, edges, gray, Search, Walk, clear, cycle, running, paint, from_target, popped, entered,
  left, visit, dfs, find_cycle, blank,
}
use decompi.Pipeline.Engine.Registry.Order.{Color-cases, Walk-cases}
use decompi.Pipeline.Engine.Registry.Depths.{has_id-append}

-- Each node has a route to the next.
abbrev pub Linked : RouteGraph → String → List String → Type 0
Linked g n [] = Unit
Linked g n (m ∷ ms) = (has_id m (edges g n) ≡ true) × Linked g m ms

abbrev pub Chain : RouteGraph → List String → Type 0
Chain g [] = Unit
Chain g (n ∷ ns) = Linked g n ns

-- A walk along routes that ends where it starts.
pub record IsCycle (g : RouteGraph) (c : List String) : Type 0 where
  pub node : String
  pub between : List String
  pub closed : c ≡ node ∷ (between ++ node ∷ [])
  pub chain : Chain g c

abbrev GrayIn : Search → List String → Type 0
GrayIn s ns = (x : String) → s.color x ≡ gray → has_id x ns ≡ true

popped-append : (ns : List String) (n : String) → popped (ns ++ n ∷ []) ≡ ns
unfolding popped
popped-append [] n = refl
popped-append (m ∷ []) n = refl
popped-append (m ∷ k ∷ ns) n = ap (◌∷◌ m) (popped-append (k ∷ ns) n)

Chain-tail : (g : RouteGraph) (n : String) (ns : List String) → Linked g n ns → Chain g ns
Chain-tail g n [] h = tt
Chain-tail g n (m ∷ ns) h = h.1

Linked-append :
    (g : RouteGraph) (n : String) (ns : List String) (m t : String)
    → Linked g n (ns ++ m ∷ [])
    → has_id t (edges g m) ≡ true
    → Linked g n ((ns ++ m ∷ []) ++ t ∷ [])
Linked-append g n [] m t h e = (h.0, (e, tt))
Linked-append g n (k ∷ ns) m t h e = (h.0, Linked-append g k ns m t h.1 e)

Chain-append :
    (g : RouteGraph) (ns : List String) (m t : String)
    → Chain g (ns ++ m ∷ [])
    → has_id t (edges g m) ≡ true
    → Chain g ((ns ++ m ∷ []) ++ t ∷ [])
Chain-append g [] m t h e = (e, tt)
Chain-append g (n ∷ ns) m t h e = Linked-append g n ns m t h e

from_target-IsCycle :
    (g : RouteGraph) (t : String) (path : List String)
    → has_id t path ≡ true
    → Chain g (path ++ t ∷ [])
    → IsCycle g (from_target t path ++ t ∷ [])
unfolding from_target has_id
from_target-IsCycle g t [] h chain = absurd (ground (arith, h))
from_target-IsCycle g t (n ∷ path) h chain = elim (Bool-cases (n === t)) [
  | inl e ↦ rw e (record { node = t; between = path; closed = ground (arith, e); chain = chain })
  | inr e ↦
      rw e (
        from_target-IsCycle g t path (ground (arith, h, e)) (Chain-tail g n (path ++ t ∷ []) chain))
]

-- What a call gives that starts in the search `s`.
abbrev Finds : RouteGraph → Search → Walk → Type 0
Finds g s (clear s') = (s'.path ≡ s.path) × GrayIn s' s.path
Finds g s (cycle c) = IsCycle g c
Finds g s running = Unit

All-has_id :
    (ts ns : List String)
    → ((t : String) → has_id t ts ≡ true → has_id t ns ≡ true)
    → All (λ t. has_id t ns ≡ true) ts
unfolding has_id
All-has_id [] ns h = tt
All-has_id (t ∷ ts) ns h = (h t (ground arith), All-has_id ts ns (λ x on. h x (ground (arith, on))))

module _ (g : RouteGraph) where
  abbrev AllFind : (String → Search → Walk) → Type 0
  AllFind f =
      (n : String) (s : Search) → Chain g (s.path ++ n ∷ []) → GrayIn s s.path → Finds g s (f n s)

  Finds-path : (s s' : Search) (w : Walk) → s'.path ≡ s.path → Finds g s' w → Finds g s w
  Finds-path s s' (clear s1) e h = (h.0 ∙ e, λ x c. rw (← e) (h.1 x c))
  Finds-path s s' (cycle c) e h = h
  Finds-path s s' running e h = tt

  visit-Finds :
      (f : String → Search → Walk)
      → AllFind f
      → (n : String) (base ts : List String) (s : Search) → s.path ≡ base ++ n ∷ []
      → Chain g s.path
      → GrayIn s s.path
      → All (λ t. has_id t (edges g n) ≡ true) ts
      → Finds g s (visit f ts s)
  unfolding visit
  visit-Finds f hf n base [] s at chain grays on = (refl, grays)
  visit-Finds f hf n base (t ∷ ts) s at chain grays on =
      let longer : Chain g (s.path ++ t ∷ []) =
        rw at (Chain-append g base n t (rw at at chain) on.0) in
      elim (Color-cases (s.color t)) [
        | inl new ↦ elim (Walk-cases (f t s)) [
          | inl (s1, ran) ↦
              let one = rw ran at (hf t s longer grays) in
              rw (visit, new, ran)
                (Finds-path s s1 (visit f ts s1) one.0 (
                  visit-Finds f hf n base ts s1 (one.0 ∙ at) (rw one.0 chain)
                    (λ x c. rw one.0 (one.1 x c)) on.1))
          | inr (inl (c, ran)) ↦ rw (visit, new, ran) (rw ran at (hf t s longer grays))
          | inr (inr ran) ↦ rw (visit, new, ran) tt
        ]
        | inr (inl on_stack) ↦
            rw (visit, on_stack) (from_target-IsCycle g t s.path (grays t on_stack) longer)
        | inr (inr done) ↦ rw (visit, done) (visit-Finds f hf n base ts s at chain grays on.1)
      ]

  entered-grays :
      (n : String) (s : Search) → GrayIn s s.path → GrayIn (entered n s) (s.path ++ n ∷ [])
  unfolding entered paint has_id
  entered-grays n s grays x h = ground (arith, has_id-append x s.path (n ∷ []), grays x, h)

  left-grays :
      (n : String) (ns : List String) (s : Search) → GrayIn s (ns ++ n ∷ []) → GrayIn (left n s) ns
  unfolding left paint has_id
  left-grays n ns s grays x h = ground (arith, has_id-append x ns (n ∷ []), grays x, h)

  left-path :
      (n : String) (ns : List String) (s : Search) → s.path ≡ ns ++ n ∷ [] → (left n s).path ≡ ns
  unfolding left paint
  left-path n ns s e = ap popped e ∙ popped-append ns n

  dfs-Finds : (fuel : ℕ) → AllFind (dfs g fuel)
  unfolding dfs
  dfs-Finds zero n s chain grays = tt
  dfs-Finds (suc fuel) n s chain grays =
      let inner =
        visit-Finds (dfs g fuel) (dfs-Finds fuel) n s.path (edges g n) (entered n s)
          (unfold entered in refl) (unfold entered in chain)
          (unfold entered in entered-grays n s grays)
          (All-has_id (edges g n) (edges g n) (λ t h. h)) in
      elim (Walk-cases (visit (dfs g fuel) (edges g n) (entered n s))) [
        | inl (s1, ran) ↦
            let done = rw ran at inner in
            rw (dfs, ran)
              (
                left-path n s.path s1 (unfold entered in done.0),
                left-grays n s.path s1 (unfold entered in done.1),
              )
        | inr (inl (c, ran)) ↦ rw (dfs, ran) (rw ran at inner)
        | inr (inr ran) ↦ rw (dfs, ran) tt
      ]

-- A registration is refused only where the routes close a walk.
pub find_cycle-IsCycle :
    (g : RouteGraph) (n : String) (c : List String) → find_cycle g n ≡ cycle c → IsCycle g c
unfolding find_cycle
find_cycle-IsCycle g n c h = rw h at (dfs-Finds g (suc (length g)) n blank tt (λ x e. cc))
