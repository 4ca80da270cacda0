-- ===== src/Tests/Edges.antt =====
-- A set of two edges.
use decompi.Base.{
  ◌≡◌, ◌≢◌, true, false, not, List, [], ◌∷◌, String, ite, str_dec, ne_of_test, refl, ap,
}
use decompi.Target.Deps.{DepEdge, calls, add_dep, remove_dep, edge_dec, edge_key}
use decompi.Target.Deps.Edges.{IsSetOfEdges, has, key, dep_lem}

abbrev edges : List DepEdge
edges =
    record { from_id = "f"; to_id = "g"; kind = calls }
    ∷ record { from_id = "f"; to_id = "h"; kind = calls }
    ∷ []

h_g : ◌≢◌ {A = String} "h" "g"
unfolding str_dec
h_g = ne_of_test "h" "g" refl

distinct : key "f" "h" calls ≢ key "f" "g" calls
unfolding edge_key
distinct e = h_g (ap (λ k. k.1.0) e)

edges-IsSetOfEdges : IsSetOfEdges edges
edges-IsSetOfEdges = ((distinct, tt), (tt, tt))

dep_lem_example :
    let (more, added) = add_dep "f" "g" calls edges in
    let fewer = (remove_dep "f" "g" calls edges).0 in
    IsSetOfEdges more
    × IsSetOfEdges fewer
    × (has (key "f" "h" calls) more
        ≡ ite
            (edge_dec (key "f" "g" calls) (key "f" "h" calls))
            true
            (has (key "f" "h" calls) edges))
    × (has (key "f" "h" calls) fewer
        ≡ ite
            (edge_dec (key "f" "g" calls) (key "f" "h" calls))
            false
            (has (key "f" "h" calls) edges))
    × (added ≡ not (has (key "f" "g" calls) edges))
dep_lem_example = dep_lem "f" "g" calls edges (key "f" "h" calls) edges-IsSetOfEdges
