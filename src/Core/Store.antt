-- ===== src/Core/Store.antt =====
-- src/core/store: what one SQL statement of the program does to the rows of a table. Without an
-- ORDER BY the order of rows has no meaning, so a new row simply stands first.
pub mod Keys
pub mod Counts
pub mod Transaction
pub mod Ordering
use decompi.Base.{
  ℕ, suc, ◌≡◌, Bool, true, false, List, [], ◌∷◌, Option, none, some, ite, decide, any,
  if◌then◌else◌,
}

module _ {ℓ} {A : Type ℓ} where
  -- SELECT * FROM t WHERE p
  unfoldable pub query : (A → Bool) → List A → List A
  query p [] = []
  query p (r ∷ rs) = let rest = query p rs in if p r then r ∷ rest else rest

  -- DELETE FROM t WHERE p: the rows left, and the number deleted.
  unfoldable pub delete_where : (A → Bool) → List A → List A × ℕ
  delete_where p [] = ([], 0)
  delete_where p (r ∷ rs) =
      let (rest, changes) = delete_where p rs in
      if p r then (rest, suc changes) else (r ∷ rest, changes)

  -- UPDATE t SET f WHERE p: the rows after, and the number updated.
  unfoldable pub update_where : (A → Bool) → (A → A) → List A → List A × ℕ
  update_where p f [] = ([], 0)
  update_where p f (r ∷ rs) =
      let (rest, changes) = update_where p f rs in
      if p r then (f r ∷ rest, suc changes) else (r ∷ rest, changes)

module _ {ℓ κ} {A : Type ℓ} {K : Type κ} (dec : Discrete K) (key : A → K) where
  -- The row of a primary key.
  unfoldable pub find : K → List A → Option A
  find k [] = none
  find k (r ∷ rs) = ite (dec (key r) k) (some r) (find k rs)

  -- INSERT, with a conflict on the primary key reported as `false` (`insertIgnore`).
  unfoldable pub insert_ignore : A → List A → List A × Bool
  unfolding find
  insert_ignore r rs = elim (find (key r) rs) [ none ↦ (r ∷ rs, true) | some _ ↦ (rs, false) ]
