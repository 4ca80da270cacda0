-- ===== src/Target/Claim/Swap.antt =====
-- `claim` of src/target/claim.ts as a compare-and-swap on a lease: success, re-arming, refusal.
use mathlib.Core.Path.{subst}
use decompi.Base.{
  if◌then◌else◌, false, false, false, false, false, false, ◌===◌, ◌≤◌, any, List, Bool, ℕ, zero,
  suc, ◌+◌, ◌<◌, ◌≡◌, refl, ◌≢◌, ◌∙◌, ◌∷◌, ◌⊎◌, inl, inr, true, false, none, some, String, arith,
  str_dec, ℕ-cases,
}
use decompi.Core.Store.{find, update_where}
use decompi.Core.Store.Keys.{
  update_where-miss, Unique, update_where-Unique, update_where-hit, find-update_where,
}
use decompi.Target.Claim.{
  Outcome, invalid_owner, owner_pattern, add_run, claim_row, ClaimRequest, claim, ClaimRow, Tables,
  returns, throws, no_such_work_item, item_of, lease_of, held_by, live_for, re_arm, insert_claim,
  claim_loop,
}

-- One lease a work item: the primary key of `claims`.
abbrev pub IsKeyed : Tables → Type 0
IsKeyed db = Unique item_of db.claims

-- The lease of a row's item belongs to the row's owner and epoch and runs as long as the row says.
abbrev pub HeldAs : ClaimRow → Tables → Type 0
HeldAs row db =
    (r : ClaimRow) × (lease_of row.work_item_id db.claims ≡ some r)
    × (r.owner ≡ row.owner)
    × (r.epoch ≡ row.epoch)
    × (r.expires_at ≡ row.expires_at)
    × (r.allowed_paths ≡ row.allowed_paths)

held_by-item :
    (item owner epoch : String) (r : ClaimRow)
    → held_by item owner epoch r ≡ true
    → (r.work_item_id ≡ item) × (r.owner ≡ owner) × (r.epoch ≡ epoch)
held_by-item item owner epoch r h = ground arith

-- The guarded update, when it changes a row.
re_arm-HeldAs :
    (row : ClaimRow) (db : Tables)
    → IsKeyed db
    → 0 < (update_where (live_for row) (re_arm row) db.claims).1
    → HeldAs row (record db { claims = (update_where (live_for row) (re_arm row) db.claims).0 })
re_arm-HeldAs row db u hit =
    let (r, at, live) =
      update_where-hit item_of str_dec row.work_item_id (live_for row) (re_arm row) db.claims
        (λ x h. (live_for-item x h).0) u hit in
    (
      re_arm row r,
      (find-update_where item_of str_dec row.work_item_id (live_for row) (re_arm row) (λ x. refl)
            db.claims)
          ∙ rw (at, live),
      (live_for-item r live).1,
      (live_for-item r live).2,
      refl,
      refl,
    )
  where
    live_for-item :
        (x : ClaimRow)
        → live_for row x ≡ true
        → (x.work_item_id ≡ row.work_item_id) × (x.owner ≡ row.owner) × (x.epoch ≡ row.epoch)
    live_for-item x h = ground arith

insert_claim-cases :
    (row : ClaimRow) (db : Tables)
    → (insert_claim row db ≡ (db, returns false)) × (lease_of row.work_item_id db.claims ≢ none)
      ⊎ (insert_claim row db ≡ (record db { claims = row ∷ db.claims }, returns true))
        × (lease_of row.work_item_id db.claims ≡ none)
      ⊎ (insert_claim row db ≡ (db, throws no_such_work_item))
unfolding insert_claim
insert_claim-cases row db = ground arith

new_row-HeldAs :
    (row : ClaimRow) (db : Tables) → HeldAs row (record db { claims = row ∷ db.claims })
unfolding find
new_row-HeldAs row db = (row, ground arith, refl, refl, refl, refl)

claim_loop-HeldAs :
    (others : ℕ → Tables → Tables)
    → ((gap : ℕ) (db : Tables) → IsKeyed db → IsKeyed (others gap db))
    → (attempts gap : ℕ) (row : ClaimRow) (db after : Tables) → IsKeyed db
    → claim_loop others attempts gap row db ≡ (after, returns true)
    → HeldAs row after
unfolding claim_loop
claim_loop-HeldAs others keeps zero gap row db after u h = absurd (ground arith)
claim_loop-HeldAs others keeps (suc n) gap row db after u h = elim (insert_claim-cases row db) [
  | inl (e, _) ↦ elim (ℕ-cases (update_where (live_for row) (re_arm row) now.claims).1) [
    | inl none_hit ↦
        claim_loop-HeldAs others keeps n (gap + 2) row (others (gap + 1) (rearmed now)) after
          (keeps (gap + 1) (rearmed now) (
            update_where-Unique item_of (live_for row) (re_arm row) (λ x. refl) now.claims
              (keeps gap db u)))
          (ground arith)
    | inr (m, hit) ↦
        let e' : rearmed now ≡ after = ground arith in
        subst (HeldAs row) e' (re_arm-HeldAs row now (keeps gap db u) (omega arith))
  ]
  | inr (inl (e, free)) ↦
      let e' : with_row ≡ after = ground arith in subst (HeldAs row) e' (new_row-HeldAs row db)
  | inr (inr e) ↦ absurd (ground arith)
]
  where
    now : Tables
    now = others gap db

    with_row : Tables
    with_row = record db { claims = row ∷ db.claims }

    rearmed : Tables → Tables
    rearmed t = record t { claims = (update_where (live_for row) (re_arm row) t.claims).0 }

-- If `claim` returns true then, in a table with at most one lease a work item and whatever other
-- writers did to the tables between its statements as long as they kept it so, the item's lease
-- now carries the claim's owner and epoch, its full term from `now`, and its allowed paths.
pub claim-HeldAs :
    (others : ℕ → Tables → Tables)
    → ((gap : ℕ) (db : Tables) → IsKeyed db → IsKeyed (others gap db))
    → (now : ℕ) (item : ClaimRequest) (db after : Tables) → IsKeyed db
    → claim others now item db ≡ (after, returns true)
    → HeldAs (claim_row now item) after
unfolding claim
claim-HeldAs others keeps now item db after u h =
    claim_loop-HeldAs others keeps 3 0 (claim_row now item)
      (record db { runs = add_run (claim_row now item).run_id db.runs }) after u (ground arith)

-- No other writer between the statements: the store daemon runs its calls one after the other.
abbrev pub quiet : ℕ → Tables → Tables
quiet gap db = db

-- A statement guarded by the key alone changes nothing where the guard fails on the key's row.
idle :
    (item : String) (p : ClaimRow → Bool) (f : ClaimRow → ClaimRow) (rs : List ClaimRow)
    (r : ClaimRow)
    → ((x : ClaimRow) → p x ≡ true → x.work_item_id ≡ item)
    → Unique item_of rs
    → lease_of item rs ≡ some r
    → p r ≡ false
    → (update_where p f rs).1 ≡ 0
idle item p f rs r only u at no_match = elim (ℕ-cases (update_where p f rs).1) [
  | inl e ↦ e
  | inr (m, e) ↦
      let (x, at', px) = update_where-hit item_of str_dec item p f rs only u (omega arith) in
      absurd (ground arith)
]

claim_loop_refused :
    (attempts gap : ℕ) (row : ClaimRow) (db : Tables) (r : ClaimRow)
    → IsKeyed db
    → lease_of row.work_item_id db.claims ≡ some r
    → live_for row r ≡ false
    → claim_loop quiet attempts gap row db ≡ (db, returns false)
unfolding claim_loop insert_claim
claim_loop_refused zero gap row db r u at dead = refl
claim_loop_refused (suc n) gap row db r u at dead = ground (
  arith,
  idle row.work_item_id (live_for row) (re_arm row) db.claims r (λ x h. (ground arith)) u at dead,
  update_where-miss (live_for row) (re_arm row) db.claims,
  claim_loop_refused n (gap + 2) row db r u at dead,
)

-- In a table with at most one lease a work item, and with no writer between its statements, a
-- well-formed claim of an item whose lease is another owner's, another epoch's, or no longer live
-- (it ends at `now` or before) returns false and leaves every lease as it was, also a dead one
-- that nobody has swept yet.
pub claim_refused :
    (now : ℕ) (item : ClaimRequest) (db : Tables) (r : ClaimRow)
    → IsKeyed db
    → owner_pattern item.owner ≡ true
    → lease_of item.work_item_id db.claims ≡ some r
    → (r.owner ≢ item.owner) ⊎ (r.epoch ≢ item.epoch) ⊎ (r.expires_at ≤ now)
    → ((claim quiet now item db).1 ≡ returns false)
      × ((claim quiet now item db).0.claims ≡ db.claims)
unfolding claim claim_row
claim_refused now item db r u valid at dead = ground (
  arith,
  claim_loop_refused 3 0 (claim_row now item)
      (record db { runs = add_run (claim_row now item).run_id db.runs }) r u at,
)

-- A claim of an item that has no lease: a malformed owner throws and changes nothing; else an item
-- that does not exist throws, and one that does gets the lease that was asked for. No other lease
-- changes.
pub claim_free :
    (others : ℕ → Tables → Tables) (now : ℕ) (item : ClaimRequest) (db : Tables)
    → lease_of item.work_item_id db.claims ≡ none
    → let known = any (λ i. i === item.work_item_id) db.work_items in
      let (after, outcome) = claim others now item db in
      let result : List ClaimRow × Outcome = (after.claims, outcome) in
      let found : List ClaimRow × Outcome =
        if known
        then (claim_row now item ∷ db.claims, returns true)
        else (db.claims, throws no_such_work_item) in
      result ≡ (if owner_pattern item.owner then found else (db.claims, throws invalid_owner))
unfolding claim claim_loop insert_claim claim_row
claim_free others now item db free = ground arith
