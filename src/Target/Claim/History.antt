-- ===== src/Target/Claim/History.antt =====
-- Histories of calls on the lease table of src/target/claim.ts, one after the other.
use decompi.Base.{
  Bool-cases, ℕ, zero, suc, ◌+◌, ◌≤◌, ◌≡◌, refl, ◌≢◌, ◌⊎◌, inl, inr, false, List, [], ◌∷◌, some,
  String, arith, str_dec, All, ltb,
}
use decompi.Core.Store.{find, update_where}
use decompi.Core.Store.Keys.{
  update_where-Unique, delete_where-Unique, find-Absent, find-update_where, find-delete_where,
}
use decompi.Target.Claim.{
  ClaimRow, ClaimRequest, Tables, item_of, lease_of, held_by, live_for, re_arm, insert_claim,
  claim_loop, claim_row, claim, add_run, owner_pattern, heartbeat, release, reap_expired,
}
use decompi.Target.Claim.Swap.{IsKeyed, quiet}
use decompi.Target.Claim.Ending.{reap_expired_lease}

pub data Op : Type 0 where
  claims : (now : ℕ) → ClaimRequest → Op
  heartbeats : (now : ℕ) (item owner epoch : String) (ttl_ms : ℕ) → Op
  releases : (item owner epoch : String) → Op
  reaps : (now : ℕ) → Op

unfoldable pub step : Tables → Op → Tables
step db (claims now item) = (claim quiet now item db).0
step db (heartbeats now item owner epoch ttl_ms) = (heartbeat now item owner epoch ttl_ms db).0
step db (releases item owner epoch) = (release item owner epoch db).0
step db (reaps now) = (reap_expired now db).0

unfoldable pub run : Tables → List Op → Tables
unfolding step
run db [] = db
run db (op ∷ ops) = run (step db op) ops

-- Somebody else's call, for the lease `r`: another owner's or another epoch's, or a sweep no later
-- than the end of the lease.
abbrev pub Foreign : ClaimRow → Op → Type 0
Foreign r (claims now item) = (item.owner ≢ r.owner) ⊎ (item.epoch ≢ r.epoch)
Foreign r (heartbeats now item owner epoch ttl_ms) = (owner ≢ r.owner) ⊎ (epoch ≢ r.epoch)
Foreign r (releases item owner epoch) = (owner ≢ r.owner) ⊎ (epoch ≢ r.epoch)
Foreign r (reaps now) = now ≤ r.expires_at

insert_claim-IsKeyed : (row : ClaimRow) (db : Tables) → IsKeyed db → IsKeyed (insert_claim row db).0
unfolding insert_claim
insert_claim-IsKeyed row db u =
    ground (arith, find-Absent item_of str_dec row.work_item_id db.claims)

claim_loop-IsKeyed :
    (attempts gap : ℕ) (row : ClaimRow) (db : Tables)
    → IsKeyed db
    → IsKeyed (claim_loop quiet attempts gap row db).0
unfolding claim_loop
claim_loop-IsKeyed zero gap row db u = u
claim_loop-IsKeyed (suc n) gap row db u =
    let (db', outcome) = insert_claim row db in
    let u' = insert_claim-IsKeyed row db u in
    let v = update_where-Unique item_of (live_for row) (re_arm row) (λ x. refl) db'.claims u' in
    let (claims', changes) = update_where (live_for row) (re_arm row) db'.claims in
    ground (arith, u', v, claim_loop-IsKeyed n (gap + 2) row (record db' { claims = claims' }) v)

-- Every call keeps at most one lease a work item.
pub step-IsKeyed : (db : Tables) (op : Op) → IsKeyed db → IsKeyed (step db op)
unfolding step claim heartbeat release reap_expired
step-IsKeyed db (claims now item) u = elim (Bool-cases (owner_pattern item.owner)) [
  | inl e ↦
      rw (e, step, claim)
        (claim_loop-IsKeyed 3 0 (claim_row now item)
          (record db { runs = add_run (claim_row now item).run_id db.runs }) u)
  | inr e ↦ rw (e, step, claim) u
]
step-IsKeyed db (heartbeats now item owner epoch ttl_ms) u =
    update_where-Unique item_of (held_by item owner epoch) _ (λ x. refl) db.claims u
step-IsKeyed db (releases item owner epoch) u =
    delete_where-Unique item_of (held_by item owner epoch) db.claims u
step-IsKeyed db (reaps now) u = delete_where-Unique item_of (λ r. ltb r.expires_at now) db.claims u

claim_loop-lease :
    (attempts gap : ℕ) (row : ClaimRow) (db : Tables) (item : String) (r : ClaimRow)
    → lease_of item db.claims ≡ some r
    → live_for row r ≡ false
    → lease_of item (claim_loop quiet attempts gap row db).0.claims ≡ some r
unfolding claim_loop insert_claim find
claim_loop-lease zero gap row db item r at foreign = at
claim_loop-lease (suc n) gap row db item r at foreign =
    let (claims', changes) = update_where (live_for row) (re_arm row) db.claims in
    let same =
      find-update_where item_of str_dec item (live_for row) (re_arm row) (λ x. refl) db.claims in
    ground (arith, same, claim_loop-lease n (gap + 2) row (record db { claims = claims' }) item r)

-- Nobody else's call touches a lease before a sweep may take it.
step-lease :
    (db : Tables) (op : Op) (item : String) (r : ClaimRow)
    → IsKeyed db
    → lease_of item db.claims ≡ some r
    → Foreign r op
    → lease_of item (step db op).claims ≡ some r
unfolding step claim claim_row heartbeat release
step-lease db (claims now q) item r u at f = ground (
  arith,
  claim_loop-lease 3 0 (claim_row now q)
      (record db { runs = add_run (claim_row now q).run_id db.runs }) item r at,
)
step-lease db (heartbeats now i owner epoch ttl_ms) item r u at f = ground (
  arith,
  find-update_where item_of str_dec item (held_by i owner epoch)
      (λ x. record x { expires_at = now + ttl_ms; heartbeat_at = now }) (λ x. refl) db.claims,
)
step-lease db (releases i owner epoch) item r u at f =
    ground (arith, find-delete_where item_of str_dec item (held_by i owner epoch) db.claims u)
step-lease db (reaps now) item r u at f = ground (arith, reap_expired_lease now item db u)

-- In a table with at most one lease a work item, and however long the history of other owners' and
-- other epochs' calls, and of sweeps no later than the end of a lease, the lease stays exactly as
-- it is: nobody else gets the item meanwhile.
pub run-lease :
    (db : Tables) (ops : List Op) (item : String) (r : ClaimRow)
    → IsKeyed db
    → lease_of item db.claims ≡ some r
    → All (Foreign r) ops
    → lease_of item (run db ops).claims ≡ some r
unfolding run
run-lease db [] item r u at f = at
run-lease db (op ∷ ops) item r u at f =
    run-lease (step db op) ops item r (step-IsKeyed db op u) (step-lease db op item r u at f.0) f.1

-- Every history keeps at most one lease a work item, where there was at most one.
pub run-IsKeyed : (db : Tables) (ops : List Op) → IsKeyed db → IsKeyed (run db ops)
unfolding run
run-IsKeyed db [] u = u
run-IsKeyed db (op ∷ ops) u = run-IsKeyed (step db op) ops (step-IsKeyed db op u)
