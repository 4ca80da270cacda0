-- ===== src/Workflow/Facade/Adding.antt =====
-- Registering the fragments of a compiled workflow of src/workflow/facade.ts: no registration is refused.
use Prim.Native.Char.{Char}
use Prim.Native.String.append
use Prim.Native.String.{◌++◌ as str_append}
use mathlib.Core.Path.{subst}
use decompi.Base.{
  ℕ, ◌≡◌, ◌≢◌, refl, sym, ◌∙◌, List, [], ◌∷◌, none, some, String, ◌===◌, if◌then◌else◌, arith, All,
  Bool-cases, inl, inr,
}
use decompi.Pipeline.Engine.{has_id}
use decompi.Pipeline.Engine.Scope.{Steps}
use decompi.Pipeline.Engine.Registry.{
  RouteGraph, Engine, registered, register_fragment, put_edges, collect_route_targets,
}
use decompi.Pipeline.Engine.Registry.Ranks.{IsRanked, edges-put}
use decompi.Pipeline.Engine.Registry.Ending.{reject_cycle-IsRanked}
use decompi.Workflow.Ladder.{fragment_id}
use decompi.Workflow.Facade.{add_fragments, added}

append-nil : (t : String) → str_append "" t ≡ t
append-nil t = append.nil t

append-cons :
    (c : Char) (s t : String) → str_append (String.◌∷◌ c s) t ≡ String.◌∷◌ c (str_append s t)
append-cons c s t = append.cons c s t

append-ne : (s t : String) → t ≢ "" → str_append s t ≢ s
append-ne String.[] t h e = h (sym (append-nil t) ∙ e)
append-ne (String.◌∷◌ c s) t h e = append-ne s t h (cc (e, append-cons c s t))

append-named : (s t : String) → t ≢ "" → str_append s t ≢ ""
append-named String.[] t h e = h (sym (append-nil t) ∙ e)
append-named (String.◌∷◌ c s) t h e = cc (append-cons c s t)

hash-ne : (t : String) → str_append "#fragment" t ≢ ""
hash-ne t e = cc (append-cons "#" "fragment" t)

pub fragment_id-ne : (w : String) (i : ℕ) → (fragment_id w i ≢ w) × (fragment_id w i ≢ "")
unfolding fragment_id
fragment_id-ne w i = (append-ne w _ (hash-ne _), append-named w _ (hash-ne _))

put-IsRanked :
    (g : RouteGraph) (rank : String → ℕ) (n : String) (ts : List String)
    → IsRanked g rank
    → ts ≡ []
    → IsRanked (put_edges n ts g) rank
unfolding has_id
put-IsRanked g rank n ts ranked e m t h = elim (Bool-cases (n === m)) [
  | inl same ↦ absurd (ground (arith, edges-put n ts g m, e, same, h))
  | inr other ↦ ranked m t (rw (edges-put n ts g m, other) at h)
]

module _ {W Turn : Type 0} (rank : String → ℕ) (IsLeaf : Steps W Turn → Type 0)
    (no_routes : (steps : Steps W Turn) → IsLeaf steps → collect_route_targets steps ≡ []) where
  -- The routes lead to lower ranks, and every fragment is a leaf.
  pub record IsReady (e : Engine W Turn) : Type 0 where
    pub ranked : IsRanked e.route_targets rank
    pub leaves :
        (name : String) (steps : Steps W Turn) → e.fragments name ≡ some steps → IsLeaf steps

  -- What registering some fragments gives.
  pub record Adds (e e' : Engine W Turn) (fragments : List (String × Steps W Turn)) : Type 0 where
    pub ready : IsReady e'
    pub pipelines : e'.pipelines ≡ e.pipelines
    pub keeps : (name : String) → e.fragments name ≢ none → e'.fragments name ≢ none
    pub names : All (λ f. e'.fragments f.0 ≢ none) fragments

  entered_fragment : String → Steps W Turn → Engine W Turn → Engine W Turn
  entered_fragment id steps e = record e {
    fragments = λ n. if id === n then some steps else e.fragments n;
    route_targets = put_edges id (collect_route_targets steps) e.route_targets;
  }

  register_fragment-IsReady :
      (id : String) (steps : Steps W Turn) (e : Engine W Turn)
      → IsReady e
      → id ≢ ""
      → IsLeaf steps
      → (register_fragment id steps e ≡ (entered_fragment id steps e, registered))
        × IsReady (entered_fragment id steps e)
  unfolding register_fragment entered_fragment
  register_fragment-IsReady id steps e ready named leaf =
      let ranked =
        put-IsRanked e.route_targets rank id (collect_route_targets steps) ready.ranked
          (no_routes steps leaf) in
      let accepted =
        reject_cycle-IsRanked (put_edges id (collect_route_targets steps) e.route_targets) rank id
          ranked in
      (
        ground (arith, accepted, named),
        record {
          ranked = ranked;
          leaves = λ name frag h. elim (Bool-cases (id === name)) [
            | inl same ↦ subst IsLeaf (cc (rw same at h)) leaf
            | inr other ↦ ready.leaves name frag (rw other at h)
          ];
        },
      )

  entered-keeps :
      (id : String) (steps : Steps W Turn) (e : Engine W Turn) (name : String)
      → ((entered_fragment id steps e).fragments id ≢ none)
        × (e.fragments name ≢ none → (entered_fragment id steps e).fragments name ≢ none)
  unfolding entered_fragment
  entered-keeps id steps e name = (λ h. ground (arith, h), λ old h. ground (arith, old, h))

  pub add_fragments-Adds :
      (fragments : List (String × Steps W Turn)) (e : Engine W Turn)
      → IsReady e
      → All (λ f. (f.0 ≢ "") × IsLeaf f.1) fragments
      → (e' : Engine W Turn) × (add_fragments fragments e ≡ (e', added)) × Adds e e' fragments
  unfolding add_fragments entered_fragment
  add_fragments-Adds [] e ready all =
      (e, refl, record { ready = ready; pipelines = refl; keeps = λ name h. h; names = tt })
  add_fragments-Adds ((id, steps) ∷ fragments) e ready all =
      let (one, ready1) = register_fragment-IsReady id steps e ready all.0.0 all.0.1 in
      let e1 = entered_fragment id steps e in
      let (e', rest, adds) = add_fragments-Adds fragments e1 ready1 all.1 in
      (
        e',
        rw (add_fragments, one) rest,
        record {
          ready = adds.ready;
          pipelines = adds.pipelines;
          keeps = λ name h. adds.keeps name ((entered-keeps id steps e name).1 h);
          names = (adds.keeps id (entered-keeps id steps e id).0, adds.names);
        },
      )
