-- ===== src/Target/Selector/Select.antt =====
-- `select` of src/target/selector.ts: one query, or pages of `limit * 10` rows until enough of them
-- pass the meta filters. The engine's answer to a compiled selector and the test of a row against
-- the meta operations are parameters.
use decompi.Base.{
  ℕ, zero, suc, ◌+◌, ◌*◌, ◌≡◌, Bool, List, [], ◌∷◌, ◌++◌, Option, none, some, leb, if◌then◌else◌,
  length, take, drop,
}
use decompi.Core.Store.{query}
use decompi.Target.Selector.{
  Selector, CompiledSelector, compile_selector, build_selector_sql, over_fetch_factor, meta_of,
}

module _ {MetaOp R : Type 0} (ask : CompiledSelector MetaOp → List R)
    (passes : List MetaOp → R → Bool) where
  -- `applyMetaFilters`
  abbrev pub apply_meta_filters : List R → List MetaOp → List R
  apply_meta_filters rows [] = rows
  apply_meta_filters rows (op ∷ ops) = query (passes (op ∷ ops)) rows

  -- The `for (;;)` loop, with fuel for its rounds; `none` is a loop that is still running.
  unfoldable pub pages : ℕ → Selector MetaOp → (limit offset : ℕ) → List R → Option (List R)
  pages zero s limit offset collected = none
  pages (suc fuel) s limit offset collected =
      let page_size = limit * over_fetch_factor in
      let rows = ask (build_selector_sql s (some page_size) (some offset)) in
      let collected' = collected ++ apply_meta_filters rows (meta_of s.filter) in
      let rest = pages fuel s limit (offset + page_size) collected' in
      elim rows [
        | [] ↦ some collected
        | _ ∷ _ ↦ if leb limit (length collected') then some collected' else rest
      ]

  unfoldable pub limited : Option ℕ → List R → List R
  limited none rows = rows
  limited (some n) rows = take n rows

  unfoldable pub finish : ℕ → Option (List R) → Option (List R)
  finish n none = none
  finish n (some collected) = some (take n collected)

  unfoldable pub select : ℕ → Selector MetaOp → Option (List R)
  unfolding limited pages finish
  select fuel s = elim (meta_of s.filter) [
    | [] ↦ some (limited s.limit (ask (compile_selector s)))
    | _ ∷ _ ↦ elim s.limit [
      | none ↦ some (apply_meta_filters (ask (compile_selector s)) (meta_of s.filter))
      | some limit ↦ finish limit (pages fuel s limit 0 [])
    ]
  ]

  -- The engine answers a LIMIT and an OFFSET with that part of all matching rows, in their order,
  -- which the primary key makes the same for every page.
  abbrev pub Honest : Selector MetaOp → List R → Type 0
  Honest s all =
      (n offset : ℕ) → ask (build_selector_sql s (some n) (some offset)) ≡ take n (drop offset all)
