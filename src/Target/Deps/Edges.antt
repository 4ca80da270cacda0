-- ===== src/Target/Deps/Edges.antt =====
-- The table of edges of src/target/deps.ts as a set of edges.
use mathlib.Core.Path.{subst}
use decompi.Base.{
  ite, Bool-cases, not, ◌≡◌, refl, sym, ◌≢◌, Bool, true, false, List, Option, none, some, String,
  arith, inl, inr, is_some, ◌===◌, ◌&&◌, ap, ◌∙◌,
}
use decompi.Core.Store.{delete_where, find, insert_ignore}
use decompi.Core.Store.Keys.{
  insert_ignore-cases, find-key, Unique, insert_ignore-Unique, delete_where-Unique,
  find-delete_where, find-insert_ignore_self, find-insert_ignore_ne, unless,
}
use decompi.Target.Deps.{
  DepKind, DepEdge, EdgeKey, edge_key, edge_dec, add_dep, remove_dep, kind_text,
}

-- The key of an edge.
abbrev pub key : String → String → DepKind → EdgeKey
key from_id to_id kind = edge_key (record { from_id = from_id; to_id = to_id; kind = kind })

-- Is there an edge?
abbrev pub has : EdgeKey → List DepEdge → Bool
has k deps = is_some (find edge_dec edge_key k deps)

-- No edge is stored twice.
abbrev pub IsSetOfEdges : List DepEdge → Type 0
IsSetOfEdges = Unique edge_key

add_dep_lem :
    (from_id to_id : String) (kind : DepKind) (deps : List DepEdge) (k : EdgeKey)
    → IsSetOfEdges deps
    → let (after, added) = add_dep from_id to_id kind deps in
      IsSetOfEdges after
      × (has k after ≡ ite (edge_dec (key from_id to_id kind) k) true (has k deps))
      × (added ≡ not (has (key from_id to_id kind) deps))
unfolding add_dep insert_ignore
add_dep_lem from_id to_id kind deps k u = (
  insert_ignore-Unique edge_key edge_dec row deps u,
  present (edge_dec (key from_id to_id kind) k),
  elim (insert_ignore-cases edge_key edge_dec row deps) [
    | inl (e, absent) ↦ ap (λ r. r.1) e ∙ sym (ap (λ o. not (is_some o)) absent)
    | inr (x, e, there) ↦ ap (λ r. r.1) e ∙ sym (ap (λ o. not (is_some o)) there)
  ],
)
  where
    row : DepEdge
    row = record { from_id = from_id; to_id = to_id; kind = kind }

    present :
        (d : Dec (key from_id to_id kind ≡ k))
        → has k (insert_ignore edge_dec edge_key row deps).0 ≡ ite d true (has k deps)
    present (yes e) =
        subst (λ j. has j (insert_ignore edge_dec edge_key row deps).0 ≡ true) e
          (ap is_some (find-insert_ignore_self edge_key edge_dec row deps))
    present (no n) = ap is_some (find-insert_ignore_ne edge_key edge_dec k row deps n)

-- The condition of the DELETE meets the edge of a key and no other.
abbrev removed : String → String → DepKind → DepEdge → Bool
removed from_id to_id kind r =
    (r.from_id === from_id) && (r.to_id === to_id) && (kind_text r.kind === kind_text kind)

removed→ :
    (from_id to_id : String) (kind : DepKind) (r : DepEdge)
    → removed from_id to_id kind r ≡ true
    → key from_id to_id kind ≡ edge_key r
unfolding edge_key
removed→ from_id to_id kind r h = ground arith

→removed :
    (from_id to_id : String) (kind : DepKind) (r : DepEdge)
    → edge_key r ≡ key from_id to_id kind
    → removed from_id to_id kind r ≡ true
unfolding edge_key
→removed from_id to_id kind r h = ground arith

remove_dep_lem :
    (from_id to_id : String) (kind : DepKind) (deps : List DepEdge) (k : EdgeKey)
    → IsSetOfEdges deps
    → let after = (remove_dep from_id to_id kind deps).0 in
      IsSetOfEdges after
      × (has k after ≡ ite (edge_dec (key from_id to_id kind) k) false (has k deps))
unfolding remove_dep
remove_dep_lem from_id to_id kind deps k u =
    let p = removed from_id to_id kind in
    (delete_where-Unique edge_key p deps u, absent (edge_dec (key from_id to_id kind) k))
  where
    gone :
        (o : Option DepEdge)
        → ((x : DepEdge) → o ≡ some x → edge_key x ≡ key from_id to_id kind)
        → is_some (unless (removed from_id to_id kind) o) ≡ false
    gone none h = refl
    gone (some x) h = rw (→removed from_id to_id kind x (h x refl))

    kept :
        (k : EdgeKey)
        → key from_id to_id kind ≢ k
        → (o : Option DepEdge) → ((x : DepEdge) → o ≡ some x → edge_key x ≡ k)
        → is_some (unless (removed from_id to_id kind) o) ≡ is_some o
    kept k n none h = refl
    kept k n (some x) h = elim (Bool-cases (removed from_id to_id kind x)) [
      | inl hit ↦ absurd (n (removed→ from_id to_id kind x hit ∙ h x refl))
      | inr miss ↦ rw miss
    ]

    absent :
        (d : Dec (key from_id to_id kind ≡ k))
        → has k (delete_where (removed from_id to_id kind) deps).0 ≡ ite d false (has k deps)
    absent (yes e) =
        subst (λ j. has j (delete_where (removed from_id to_id kind) deps).0 ≡ false) e
          (ap is_some (
              find-delete_where edge_key edge_dec (key from_id to_id kind)
                (removed from_id to_id kind) deps u)
            ∙ gone (find edge_dec edge_key (key from_id to_id kind) deps)
                (find-key edge_key edge_dec (key from_id to_id kind) deps))
    absent (no n) =
        ap is_some (find-delete_where edge_key edge_dec k (removed from_id to_id kind) deps u)
        ∙ kept k n (find edge_dec edge_key k deps) (find-key edge_key edge_dec k deps)

-- Adding an edge and removing one keep the table a set. After an edge is added the edges are those
-- that were there and that one, and the answer is true just when it was not there before; after it is
-- removed they are those that were there, without it.
pub dep_lem :
    (from_id to_id : String) (kind : DepKind) (deps : List DepEdge) (k : EdgeKey)
    → IsSetOfEdges deps
    → let (more, added) = add_dep from_id to_id kind deps in
      let fewer = (remove_dep from_id to_id kind deps).0 in
      IsSetOfEdges more
      × IsSetOfEdges fewer
      × (has k more ≡ ite (edge_dec (key from_id to_id kind) k) true (has k deps))
      × (has k fewer ≡ ite (edge_dec (key from_id to_id kind) k) false (has k deps))
      × (added ≡ not (has (key from_id to_id kind) deps))
dep_lem from_id to_id kind deps k u =
    let (more, there, answer) = add_dep_lem from_id to_id kind deps k u in
    let (fewer, gone) = remove_dep_lem from_id to_id kind deps k u in
    (more, fewer, there, gone, answer)
