-- ===== src/Target/Selector/Paging.antt =====
-- The pages of `select` in src/target/selector.ts against one pass over all matching rows.
use mathlib.Core.List.{append-nil, append_assoc}
use decompi.Base.{
  ℕ, zero, suc, ◌+◌, ◌*◌, ◌≤◌, ◌<◌, ◌≡◌, refl, sym, ap, ◌∙◌, ◌⊎◌, inl, inr, Bool, List, [], ◌∷◌,
  ◌++◌, some, arith, leb, length, take, drop, Bool-cases, take-append-drop, length-append,
}
use decompi.Core.Store.{query}
use decompi.Target.Selector.{
  Selector, CompiledSelector, build_selector_sql, over_fetch_factor, meta_of,
}
use decompi.Target.Selector.Select.{pages, select, finish, Honest}

module _ {ℓ} {A : Type ℓ} where
  drop-nil : (n : ℕ) → drop {A = A} n [] ≡ []
  drop-nil zero = refl
  drop-nil (suc n) = refl

  drop-suc : (k j : ℕ) (x : A) (xs : List A) → k ≡ suc j → drop k (x ∷ xs) ≡ drop j xs
  drop-suc k j x xs e = rw e

  drop-drop : (m n : ℕ) (xs : List A) → drop n (drop m xs) ≡ drop (m + n) xs
  drop-drop zero n xs = ap (λ k. drop k xs) (omega arith)
  drop-drop (suc m) n [] = drop-nil n ∙ sym (drop-nil (suc m + n))
  drop-drop (suc m) n (x ∷ xs) =
      drop-drop m n xs ∙ sym (drop-suc (suc m + n) (m + n) x xs (omega arith))

  take-append_left : (n : ℕ) (xs ys : List A) → n ≤ length xs → take n (xs ++ ys) ≡ take n xs
  take-append_left zero xs ys h = refl
  take-append_left (suc n) [] ys h = absurd (omega arith)
  take-append_left (suc n) (x ∷ xs) ys h = ap (◌∷◌ x) (take-append_left n xs ys (omega arith))

  query-append : (p : A → Bool) (xs ys : List A) → query p (xs ++ ys) ≡ query p xs ++ query p ys
  unfolding query
  query-append p [] ys = refl
  query-append p (x ∷ xs) ys = ground (arith, query-append p xs ys)

  take-eq-nil : (n : ℕ) (xs : List A) → 0 < n → take n xs ≡ [] → xs ≡ []
  take-eq-nil zero xs h e = absurd (omega arith)
  take-eq-nil (suc n) [] h e = refl
  take-eq-nil (suc n) (x ∷ xs) h e = cc

  List-cases : (xs : List A) → (xs ≡ []) ⊎ ((x : A) × (r : List A) × (xs ≡ x ∷ r))
  List-cases [] = inl refl
  List-cases (x ∷ r) = inr (x, r, refl)

module _ {MetaOp R : Type 0} (ask : CompiledSelector MetaOp → List R)
    (passes : List MetaOp → R → Bool) (s : Selector MetaOp) (all : List R) (op : MetaOp)
    (ops : List MetaOp) (honest : Honest ask passes s all) (filtered : meta_of s.filter ≡ op ∷ ops)
    (limit : ℕ) (positive : 0 < limit) where
  unfoldable pub kept : List R → List R
  kept = query (passes (op ∷ ops))

  pages-kept :
      (fuel offset : ℕ) (collected : List R)
      → length (drop offset all) < fuel
      → (c : List R) × (pages ask passes fuel s limit offset collected ≡ some c)
        × (take limit c ≡ take limit (collected ++ kept (drop offset all)))
  unfolding kept pages query
  pages-kept zero offset collected h = absurd (omega arith)
  pages-kept (suc fuel) offset collected h = elim (List-cases (take size post)) [
    | inl e ↦ (
      collected,
      ground (arith, asked, e),
      ap (take limit) (sym (ap (λ l. collected ++ kept l) (empty e) ∙ append-nil collected)),
    )
    | inr (x, r, e) ↦ elim (Bool-cases (leb limit (length collected'))) [
      | inl enough ↦ (
        collected',
        ground (arith, asked, e, filtered),
        sym (take-append_left limit collected' (kept (drop (offset + size) all)) (ground arith))
            ∙ ap (take limit) whole,
      )
      | inr more ↦
          let (c, run, same) = pages-kept fuel (offset + size) collected' (shorter x r e) in
          (c, ground (arith, asked, e, filtered, more, run), same ∙ ap (take limit) whole)
    ]
  ]
    where
      size : ℕ
      size = limit * over_fetch_factor

      post : List R
      post = drop offset all

      collected' : List R
      collected' = collected ++ kept (take size post)

      asked : ask (build_selector_sql s (some size) (some offset)) ≡ take size post
      asked = honest size offset

      empty : take size post ≡ [] → post ≡ []
      empty e = take-eq-nil size post (omega arith) e

      rest : drop (offset + size) all ≡ drop size post
      rest = sym (drop-drop offset size all)

      whole : collected' ++ kept (drop (offset + size) all) ≡ collected ++ kept post
      whole = rw (
        rest,
        append_assoc collected (kept (take size post)) (kept (drop size post)),
        sym (query-append (passes (op ∷ ops)) (take size post) (drop size post)),
        take-append-drop size post,
      )

      shorter :
          (x : R) (r : List R) → take size post ≡ x ∷ r → length (drop (offset + size) all) < fuel
      shorter x r e = rw rest (
          omega (
            arith,
            ap length e,
            ap length (take-append-drop size post),
            length-append (take size post) (drop size post),
          ))

  -- With a positive limit and some meta filters, and an engine that answers each LIMIT and OFFSET
  -- with that part of the same list of matching rows, `select` gives what one pass would: the
  -- first `limit` of all matching rows that pass the meta filters, so none is lost below the
  -- limit. One round more than there are matching rows is fuel enough.
  pub select-one_pass :
      s.limit ≡ some limit
      → (fuel : ℕ) → length all < fuel
      → select ask passes fuel s ≡ some (take limit (kept all))
  unfolding select finish
  select-one_pass l fuel h =
      let (c, run, same) = pages-kept fuel 0 [] h in ground (arith, run, same, filtered, l)
