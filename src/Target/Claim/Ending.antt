-- ===== src/Target/Claim/Ending.antt =====
-- The ends of a lease in src/target/claim.ts: heartbeats, releases and sweeps.
use decompi.Core.Store.Counts.{update_where-count, delete_where-count}
use decompi.Target.Claim.Swap.{IsKeyed, quiet, claim_refused}
use decompi.Base.{
  false, false, false, false, false, false, ltb, ℕ, ◌+◌, ◌≡◌, refl, inr, true, false, some, String,
  arith, str_dec,
}
use decompi.Core.Store.Keys.{updated, fits, find-delete_where, unless, find-update_where}
use decompi.Target.Claim.{
  release, reap_expired, heartbeat, owner_pattern, ClaimRequest, claim, ClaimRow, Tables, returns,
  item_of, lease_of, held_by,
}

held_by-item :
    (item owner epoch : String) (r : ClaimRow)
    → held_by item owner epoch r ≡ true
    → r.work_item_id ≡ item
held_by-item item owner epoch r h = ground arith

heartbeat_lease :
    (now : ℕ) (item owner epoch : String) (ttl_ms : ℕ) (db : Tables)
    → IsKeyed db
    → let (after, answer) = heartbeat now item owner epoch ttl_ms db in
      (answer ≡ fits (held_by item owner epoch) (lease_of item db.claims))
      × (lease_of item after.claims
          ≡ updated
              (held_by item owner epoch)
              (λ r. record r { expires_at = now + ttl_ms; heartbeat_at = now })
              (lease_of item db.claims))
unfolding heartbeat
heartbeat_lease now item owner epoch ttl_ms db u =
    let p = held_by item owner epoch in
    let f : ClaimRow → ClaimRow = λ r. record r { expires_at = now + ttl_ms; heartbeat_at = now } in
    (
      ground (
        arith,
        update_where-count item_of item p (held_by-item item owner epoch) str_dec f db.claims u,
      ),
      find-update_where item_of str_dec item p f (λ x. refl) db.claims,
    )

release_lease :
    (item owner epoch : String) (db : Tables)
    → IsKeyed db
    → let (after, answer) = release item owner epoch db in
      (answer ≡ fits (held_by item owner epoch) (lease_of item db.claims))
      × (lease_of item after.claims ≡ unless (held_by item owner epoch) (lease_of item db.claims))
unfolding release
release_lease item owner epoch db u =
    let p = held_by item owner epoch in
    (
      ground (
        arith,
        delete_where-count item_of item p (held_by-item item owner epoch) str_dec db.claims u,
      ),
      find-delete_where item_of str_dec item p db.claims u,
    )

-- In a table with at most one lease a work item, `heartbeat` and `release` answer true exactly when the
-- item's lease is the caller's. Then a heartbeat makes the lease end `ttl_ms` after `now`, even if it
-- had already run out, and a release leaves the item free; otherwise the lease stays as it was.
pub holder_lem :
    (now : ℕ) (item owner epoch : String) (ttl_ms : ℕ) (db : Tables)
    → IsKeyed db
    → let (beaten, heard) = heartbeat now item owner epoch ttl_ms db in
      let (freed, gone) = release item owner epoch db in
      (heard ≡ fits (held_by item owner epoch) (lease_of item db.claims))
      × (gone ≡ fits (held_by item owner epoch) (lease_of item db.claims))
      × (lease_of item beaten.claims
          ≡ updated
              (held_by item owner epoch)
              (λ r. record r { expires_at = now + ttl_ms; heartbeat_at = now })
              (lease_of item db.claims))
      × (lease_of item freed.claims ≡ unless (held_by item owner epoch) (lease_of item db.claims))
holder_lem now item owner epoch ttl_ms db u =
    let (heard, beaten) = heartbeat_lease now item owner epoch ttl_ms db u in
    let (gone, freed) = release_lease item owner epoch db u in (heard, gone, beaten, freed)

-- In a table with at most one lease a work item, a sweep at `now` removes an item's lease exactly
-- when it ended before `now`.
pub reap_expired_lease :
    (now : ℕ) (item : String) (db : Tables)
    → IsKeyed db
    → lease_of item (reap_expired now db).0.claims
      ≡ unless (λ r. ltb r.expires_at now) (lease_of item db.claims)
unfolding reap_expired
reap_expired_lease now item db u =
    find-delete_where item_of str_dec item (λ r. ltb r.expires_at now) db.claims u

-- In a table with at most one lease a work item, at the very instant `now` at which a lease ends a
-- well-formed claim of the item returns false, its own owner's too, and a sweep leaves the lease
-- in place.
expiry_instant :
    (now : ℕ) (item : ClaimRequest) (db : Tables) (r : ClaimRow)
    → IsKeyed db
    → owner_pattern item.owner ≡ true
    → lease_of item.work_item_id db.claims ≡ some r
    → r.expires_at ≡ now
    → ((claim quiet now item db).1 ≡ returns false)
      × (lease_of item.work_item_id (reap_expired now db).0.claims ≡ some r)
expiry_instant now item db r u valid at ends = (
  (claim_refused now item db r u valid at (inr (inr (omega arith)))).0,
  ground (arith, reap_expired_lease now item.work_item_id db u),
)
