-- ===== src/Core/Store/Counts.antt =====
-- How many rows a statement changes, where only the row of one key can match.
use mathlib.Core.Path.{subst}
use decompi.Base.{◌≡◌, refl, Bool, true, List, [], ◌∷◌, if◌then◌else◌, arith}
use decompi.Core.Store.{delete_where, update_where, find}
use decompi.Core.Store.Keys.{Absent, Unique, fits}

module _ {ℓ κ} {A : Type ℓ} {K : Type κ} (key : A → K) (k : K) (p : A → Bool)
    (only : (r : A) → p r ≡ true → key r ≡ k) where
  update_where-count-eq-zero :
      (f : A → A) (rs : List A) → Absent key k rs → (update_where p f rs).1 ≡ 0
  unfolding update_where
  update_where-count-eq-zero f [] h = refl
  update_where-count-eq-zero f (r ∷ rs) h =
      ground (arith, only r, update_where-count-eq-zero f rs h.1)

  delete_where-count-eq-zero : (rs : List A) → Absent key k rs → (delete_where p rs).1 ≡ 0
  unfolding delete_where
  delete_where-count-eq-zero [] h = refl
  delete_where-count-eq-zero (r ∷ rs) h = ground (arith, only r, delete_where-count-eq-zero rs h.1)

  module _ (dec : Discrete K) where
    pub update_where-count :
        (f : A → A) (rs : List A)
        → Unique key rs
        → (update_where p f rs).1 ≡ (if fits p (find dec key k rs) then 1 else 0)
    unfolding update_where find
    update_where-count f [] u = refl
    update_where-count f (r ∷ rs) u = elim (dec (key r) k) [
      | yes e ↦
          let rest = update_where-count-eq-zero f rs (subst (λ j. Absent key j rs) e u.0) in
          ground (arith, rest)
      | no n ↦ ground (arith, only r, update_where-count f rs u.1)
    ]

    pub delete_where-count :
        (rs : List A)
        → Unique key rs
        → (delete_where p rs).1 ≡ (if fits p (find dec key k rs) then 1 else 0)
    unfolding delete_where find
    delete_where-count [] u = refl
    delete_where-count (r ∷ rs) u = elim (dec (key r) k) [
      | yes e ↦
          let rest = delete_where-count-eq-zero rs (subst (λ j. Absent key j rs) e u.0) in
          ground (arith, rest)
      | no n ↦ ground (arith, only r, delete_where-count rs u.1)
    ]
