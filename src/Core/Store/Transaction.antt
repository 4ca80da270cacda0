-- ===== src/Core/Store/Transaction.antt =====
-- `runOuterTransaction` of src/core/store/sqlite.ts, where BEGIN, COMMIT and ROLLBACK succeed: the tables
-- after are those of a callback that returns, and those before where it throws. And ORDER BY, as an
-- insertion of each row behind those that stand before it.
use decompi.Base.{Bool, List, [], ◌∷◌, if◌then◌else◌}
use decompi.Base.Results.{Result, ok, err}

unfoldable pub transaction {ℓ} : {D E A : Type ℓ} → (D → Result E (D × A)) → D → D × Result E A
transaction fn db = elim (fn db) [ ok (db', a) ↦ (db', ok a) | err e ↦ (db, err e) ]

module _ {ℓ} {A : Type ℓ} (before : A → A → Bool) where
  unfoldable pub put_ordered : A → List A → List A
  put_ordered r [] = r ∷ []
  put_ordered r (s ∷ rs) =
      let rest = put_ordered r rs in if before r s then r ∷ s ∷ rs else s ∷ rest

  unfoldable pub order_by : List A → List A
  unfolding put_ordered
  order_by [] = []
  order_by (r ∷ rs) = put_ordered r (order_by rs)
