-- ===== src/Core/Store/Keys.antt =====
-- Primary keys: statements keep them distinct, and what a lookup by key sees after a statement.
use mathlib.Core.Path.{subst}
use mathlib.Core.Logic.{if_pos, if_neg}
use decompi.Base.{
  ◌⊎◌, false, ◌<◌, true, ◌≡◌, refl, sym, ◌≢◌, inl, inr, Bool, List, [], ◌∷◌, Option, none, some,
  or_else, if◌then◌else◌, arith, Bool-cases, Option-cases,
}
use decompi.Core.Store.{delete_where, update_where, find, insert_ignore}

module _ {ℓ} {A : Type ℓ} where
  abbrev pub unless : (A → Bool) → Option A → Option A
  unless p none = none
  unless p (some r) = if p r then none else some r

  abbrev pub updated : (A → Bool) → (A → A) → Option A → Option A
  updated p f none = none
  updated p f (some r) = some (if p r then f r else r)

  -- The row is there and fits.
  abbrev pub fits : (A → Bool) → Option A → Bool
  fits p none = false
  fits p (some r) = p r

module _ {ℓ κ} {A : Type ℓ} {K : Type κ} (key : A → K) where
  -- No row has the key.
  abbrev pub Absent : K → List A → Type κ
  Absent k [] = Unit
  Absent k (r ∷ rs) = (key r ≢ k) × Absent k rs

  -- No two rows have the same key.
  abbrev pub Unique : List A → Type κ
  Unique [] = Unit
  Unique (r ∷ rs) = Absent (key r) rs × Unique rs

  pub delete_where-Absent :
      (k : K) (p : A → Bool) (rs : List A) → Absent k rs → Absent k (delete_where p rs).0
  unfolding delete_where
  delete_where-Absent k p [] h = tt
  delete_where-Absent k p (r ∷ rs) h = ground (arith, delete_where-Absent k p rs h.1)

  pub delete_where-Unique : (p : A → Bool) (rs : List A) → Unique rs → Unique (delete_where p rs).0
  unfolding delete_where
  delete_where-Unique p [] h = tt
  delete_where-Unique p (r ∷ rs) h =
      ground (arith, delete_where-Absent (key r) p rs h.0, delete_where-Unique p rs h.1)

  module _ (p : A → Bool) (f : A → A) (keeps : (r : A) → key (f r) ≡ key r) where
    pub update_where-Absent : (k : K) (rs : List A) → Absent k rs → Absent k (update_where p f rs).0
    unfolding update_where
    update_where-Absent k [] h = tt
    update_where-Absent k (r ∷ rs) h = ground (arith, keeps r, update_where-Absent k rs h.1)

    pub update_where-Unique : (rs : List A) → Unique rs → Unique (update_where p f rs).0
    unfolding update_where
    update_where-Unique [] h = tt
    update_where-Unique (r ∷ rs) h = elim (Bool-cases (p r)) [
      | inl e ↦ rw e (
        subst (λ k. Absent k (update_where p f rs).0) (sym (keeps r))
            (update_where-Absent (key r) rs h.0),
        update_where-Unique rs h.1,
      )
      | inr e ↦ rw e (update_where-Absent (key r) rs h.0, update_where-Unique rs h.1)
    ]

  module _ (dec : Discrete K) where
    pub find-Absent : (k : K) (rs : List A) → find dec key k rs ≡ none → Absent k rs
    unfolding find
    find-Absent k [] h = tt
    find-Absent k (r ∷ rs) h = ground (arith, find-Absent k rs)

    pub find-eq-none : (k : K) (rs : List A) → Absent k rs → find dec key k rs ≡ none
    unfolding find
    find-eq-none k [] h = refl
    find-eq-none k (r ∷ rs) h = ground (arith, find-eq-none k rs h.1)

    pub find-key : (k : K) (rs : List A) (x : A) → find dec key k rs ≡ some x → key x ≡ k
    unfolding find
    find-key k [] x h = cc
    find-key k (r ∷ rs) x h = ground (arith, find-key k rs x)

    pub insert_ignore-Unique :
        (r : A) (rs : List A) → Unique rs → Unique (insert_ignore dec key r rs).0
    unfolding insert_ignore
    insert_ignore-Unique r rs h = elim (Option-cases (find dec key (key r) rs)) [
      | inl e ↦ rw (e, insert_ignore) (find-Absent (key r) rs e, h)
      | inr (x, e) ↦ rw (e, insert_ignore) h
    ]

    -- An insertion adds the row, or finds one with its key and leaves the table alone.
    pub insert_ignore-cases :
        (r : A) (rs : List A)
        → (insert_ignore dec key r rs ≡ (r ∷ rs, true)) × (find dec key (key r) rs ≡ none)
          ⊎ ((x : A) × (insert_ignore dec key r rs ≡ (rs, false))
              × (find dec key (key r) rs ≡ some x))
    unfolding insert_ignore
    insert_ignore-cases r rs = elim (Option-cases (find dec key (key r) rs)) [
      | inl e ↦ inl (rw (e, insert_ignore), e)
      | inr (x, e) ↦ inr (x, rw (e, insert_ignore), e)
    ]

    -- A lookup after a deletion, in a table with distinct keys.
    pub find-delete_where :
        (k : K) (p : A → Bool) (rs : List A)
        → Unique rs
        → find dec key k (delete_where p rs).0 ≡ unless p (find dec key k rs)
    unfolding find delete_where
    find-delete_where k p [] u = refl
    find-delete_where k p (r ∷ rs) u = elim (dec (key r) k) [
      | yes e ↦
          let gone =
            find-eq-none k (delete_where p rs).0
              (delete_where-Absent k p rs (subst (λ j. Absent j rs) e u.0)) in
          ground (arith, gone)
      | no n ↦ ground (arith, find-delete_where k p rs u.1)
    ]

    -- A lookup after an insertion: a row that was there wins.
    pub find-insert_ignore_self :
        (r : A) (rs : List A)
        → find dec key (key r) (insert_ignore dec key r rs).0
          ≡ some (or_else (find dec key (key r) rs) r)
    unfolding insert_ignore find
    find-insert_ignore_self r rs = ground arith

    pub find-insert_ignore_ne :
        (k : K) (r : A) (rs : List A)
        → key r ≢ k
        → find dec key k (insert_ignore dec key r rs).0 ≡ find dec key k rs
    unfolding insert_ignore find
    find-insert_ignore_ne k r rs n = ground arith

    -- A lookup after an update that leaves keys alone.
    pub find-update_where :
        (k : K) (p : A → Bool) (f : A → A) (keeps : (r : A) → key (f r) ≡ key r) (rs : List A)
        → find dec key k (update_where p f rs).0 ≡ updated p f (find dec key k rs)
    unfolding find update_where
    find-update_where k p f keeps [] = refl
    find-update_where k p f keeps (r ∷ rs) =
        ground (arith, keeps r, find-update_where k p f keeps rs)

    -- An update that changes a row, where only rows of the key `k` can match, changed the row of
    -- `k`; one that changes none found no match there.
    pub update_where-hit :
        (k : K) (p : A → Bool) (f : A → A) (rs : List A)
        → ((r : A) → p r ≡ true → key r ≡ k)
        → Unique rs
        → 0 < (update_where p f rs).1
        → (r : A) × (find dec key k rs ≡ some r) × (p r ≡ true)
    unfolding find update_where
    update_where-hit k p f [] only u hit = absurd (omega arith)
    update_where-hit k p f (r ∷ rs) only u hit = elim (Bool-cases (p r)) [
      | inl e ↦ (r, rw (if_pos _ (only r e)), e)
      | inr e ↦
          let (x, at, px) = update_where-hit k p f rs only u.1 (rw e at hit) in
          (x, rw (if_neg _ (other x at)) at, px)
    ]
      where
        other : (x : A) → find dec key k rs ≡ some x → key r ≢ k
        other x at e = cc (find-eq-none k rs (subst (λ j. Absent j rs) e u.0))

module _ {ℓ} {A : Type ℓ} where
  -- An update that changes no row leaves the table as it was.
  pub update_where-miss :
      (p : A → Bool) (f : A → A) (rs : List A)
      → (update_where p f rs).1 ≡ 0
      → (update_where p f rs).0 ≡ rs
  unfolding update_where
  update_where-miss p f [] h = refl
  update_where-miss p f (r ∷ rs) h = ground (arith, update_where-miss p f rs)
