-- ===== src/Core/Store/Ordering.antt =====
-- An order of the rows of src/core/store keeps their keys, and what a lookup by key finds.
use decompi.Base.{
  suc, length, ◌≡◌, refl, sym, ◌∙◌, ◌≢◌, Bool, List, [], ◌∷◌, arith, Bool-cases, inl, inr,
}
use decompi.Core.Store.{find}
use decompi.Core.Store.Keys.{Absent, Unique}
use decompi.Core.Store.Transaction.{put_ordered, order_by}

module _ {ℓ} {A : Type ℓ} (before : A → A → Bool) where
  length-put_ordered : (r : A) (rs : List A) → length (put_ordered before r rs) ≡ suc (length rs)
  unfolding put_ordered
  length-put_ordered r [] = refl
  length-put_ordered r (s ∷ rs) = ground (arith, length-put_ordered r rs)

  pub length-order_by : (rs : List A) → length (order_by before rs) ≡ length rs
  unfolding order_by
  length-order_by [] = refl
  length-order_by (r ∷ rs) =
      omega (arith, length-put_ordered r (order_by before rs), length-order_by rs)

module _ {ℓ κ} {A : Type ℓ} {K : Type κ} (key : A → K) (before : A → A → Bool) where
  put_ordered-Absent :
      (k : K) (r : A) (rs : List A)
      → key r ≢ k
      → Absent key k rs
      → Absent key k (put_ordered before r rs)
  unfolding put_ordered
  put_ordered-Absent k r [] n h = (n, tt)
  put_ordered-Absent k r (s ∷ rs) n h = ground (arith, put_ordered-Absent k r rs n h.1)

  put_ordered-Unique :
      (r : A) (rs : List A)
      → Absent key (key r) rs
      → Unique key rs
      → Unique key (put_ordered before r rs)
  unfolding put_ordered
  put_ordered-Unique r [] n u = (tt, tt)
  put_ordered-Unique r (s ∷ rs) n u = elim (Bool-cases (before r s)) [
    | inl e ↦ rw e (n, u)
    | inr e ↦
        rw e
          (put_ordered-Absent (key s) r rs (λ p. n.0 (sym p)) u.0, put_ordered-Unique r rs n.1 u.1)
  ]

  order_by-Absent : (k : K) (rs : List A) → Absent key k rs → Absent key k (order_by before rs)
  unfolding order_by
  order_by-Absent k [] h = tt
  order_by-Absent k (r ∷ rs) h =
      put_ordered-Absent k r (order_by before rs) h.0 (order_by-Absent k rs h.1)

  pub order_by-Unique : (rs : List A) → Unique key rs → Unique key (order_by before rs)
  unfolding order_by
  order_by-Unique [] u = tt
  order_by-Unique (r ∷ rs) u =
      put_ordered-Unique r (order_by before rs) (order_by-Absent (key r) rs u.0)
        (order_by-Unique rs u.1)

  module _ (dec : Discrete K) where
    find-put_ordered :
        (k : K) (r : A) (rs : List A)
        → Absent key (key r) rs
        → find dec key k (put_ordered before r rs) ≡ find dec key k (r ∷ rs)
    unfolding find put_ordered
    find-put_ordered k r [] n = refl
    find-put_ordered k r (s ∷ rs) n = ground (arith, find-put_ordered k r rs n.1, n.0)

    pub find-order_by :
        (k : K) (rs : List A)
        → Unique key rs
        → find dec key k (order_by before rs) ≡ find dec key k rs
    unfolding find order_by
    find-order_by k [] u = refl
    find-order_by k (r ∷ rs) u =
        find-put_ordered k r (order_by before rs) (order_by-Absent (key r) rs u.0)
        ∙ ground (arith, find-order_by k rs u.1)
