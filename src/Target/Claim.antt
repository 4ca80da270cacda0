-- ===== src/Target/Claim.antt =====
-- src/target/claim.ts: leases on work items, one `claims` row each, owned by owner and epoch.
-- Times are milliseconds where the source has ISO-8601 texts, whose order is that of time.
-- `allowed_paths` is the list itself, since the column holds its JSON. The tables that a claim
-- touches are `claims`, the ids of `runs`, and the ids of `work_items`, which a foreign key needs.
mod Owner
pub mod Swap
pub mod Ending
pub mod History
unfoldable pub use Owner.{parse_owner, owner_pattern}
use decompi.Base.{
  ℕ, zero, suc, ◌+◌, Bool, true, false, ◌&&◌, List, ◌∷◌, Option, none, some, String, ite, str_dec,
  or_else, if◌then◌else◌, ltb, ◌===◌, any, [],
}
use decompi.Core.Store.{query, delete_where, update_where, find, insert_ignore}

pub record ClaimRow : Type 0 where
  pub work_item_id : String
  pub owner : String
  pub run_id : Option String
  pub worker_seq : Option ℕ
  pub allowed_paths : List String
  pub epoch : String
  pub claimed_at : ℕ
  pub expires_at : ℕ
  pub heartbeat_at : ℕ

pub record ClaimRequest : Type 0 where
  pub work_item_id : String
  pub owner : String
  pub run_id : Option String
  pub worker_seq : Option ℕ
  pub allowed_paths : Option (List String)
  pub epoch : String
  pub ttl_ms : ℕ

pub record Tables : Type 0 where
  pub claims : List ClaimRow
  pub runs : List String
  pub work_items : List String

pub data ClaimError : Type 0 where
  -- `invalid claim owner`
  invalid_owner : ClaimError
  -- the engine's FOREIGN KEY failure: there is no such work item
  no_such_work_item : ClaimError

pub data Outcome : Type 0 where
  returns : Bool → Outcome
  throws : ClaimError → Outcome

abbrev pub item_of : ClaimRow → String
item_of r = r.work_item_id

abbrev pub lease_of : String → List ClaimRow → Option ClaimRow
lease_of = find str_dec item_of

-- `WHERE work_item_id = ? AND owner = ? AND epoch = ?`
abbrev pub held_by : String → String → String → ClaimRow → Bool
held_by item owner epoch r = (r.work_item_id === item) && (r.owner === owner) && (r.epoch === epoch)

-- `a ?? b`, where both may be missing.
abbrev or_some {ℓ} : {A : Type ℓ} → Option A → Option A → Option A
or_some none b = b
or_some (some a) b = some a

-- `INSERT INTO runs …` by `insertIgnore`; the default run id is the owner's, which is never null.
unfoldable pub add_run : Option String → List String → List String
add_run none runs = runs
add_run (some run) runs = (insert_ignore str_dec (λ r. r) run runs).0

-- `INSERT INTO claims …` by `insertIgnore`. A conflict on the key is found before the foreign key.
unfoldable pub insert_claim : ClaimRow → Tables → Tables × Outcome
unfolding find
insert_claim row db = elim (lease_of row.work_item_id db.claims) [
  | some _ ↦ (db, returns false)
  | none ↦
      if any (λ i. i === row.work_item_id) db.work_items
      then (record db { claims = row ∷ db.claims }, returns true)
      else (db, throws no_such_work_item)
]

-- The guarded UPDATE of `claim`: a live lease of the same owner and epoch.
abbrev pub live_for : ClaimRow → ClaimRow → Bool
live_for row r = held_by row.work_item_id row.owner row.epoch r && ltb row.claimed_at r.expires_at

abbrev pub re_arm : ClaimRow → ClaimRow → ClaimRow
re_arm row r = record r {
  expires_at = row.expires_at;
  heartbeat_at = row.heartbeat_at;
  allowed_paths = row.allowed_paths;
}

-- The loop of `claim`, with the attempts left. `others` is what other writers do to the tables at
-- each point where the loop waits, counted by `gap`.
unfoldable pub claim_loop : (ℕ → Tables → Tables) → ℕ → ℕ → ClaimRow → Tables → Tables × Outcome
claim_loop others zero gap row db = (db, returns false)
claim_loop others (suc attempts) gap row db =
    let (db', outcome) = insert_claim row db in
    elim outcome [
      | throws e ↦ (db', throws e)
      | returns true ↦ (db', returns true)
      | returns false ↦
          let now = others gap db' in
          let (claims, changes) = update_where (live_for row) (re_arm row) now.claims in
          let after : Tables = record now { claims = claims } in
          elim changes [
            | zero ↦ claim_loop others attempts (gap + 2) row (others (gap + 1) after)
            | suc _ ↦ (after, returns true)
          ]
    ]

-- The row that a request asks for at the time `now`.
unfoldable pub claim_row : ℕ → ClaimRequest → ClaimRow
claim_row now item =
    let parts = parse_owner item.owner in
    record {
      work_item_id = item.work_item_id;
      owner = item.owner;
      run_id = or_some item.run_id parts.0;
      worker_seq = or_some item.worker_seq parts.1;
      allowed_paths = or_else item.allowed_paths [];
      epoch = item.epoch;
      claimed_at = now;
      expires_at = now + item.ttl_ms;
      heartbeat_at = now;
    }

unfoldable pub claim : (ℕ → Tables → Tables) → ℕ → ClaimRequest → Tables → Tables × Outcome
claim others now item db =
    let row = claim_row now item in
    if owner_pattern item.owner
    then claim_loop others 3 0 row (record db { runs = add_run row.run_id db.runs })
    else (db, throws invalid_owner)

pub heartbeat : ℕ → String → String → String → ℕ → Tables → Tables × Bool
heartbeat now item owner epoch ttl_ms db =
    let (claims, changes) =
      update_where (held_by item owner epoch)
        (λ r. record r { expires_at = now + ttl_ms; heartbeat_at = now }) db.claims in
    (record db { claims = claims }, ltb 0 changes)

pub release : String → String → String → Tables → Tables × Bool
release item owner epoch db =
    let (claims, changes) = delete_where (held_by item owner epoch) db.claims in
    (record db { claims = claims }, ltb 0 changes)

pub reap_expired : ℕ → Tables → Tables × ℕ
reap_expired now db =
    let (claims, changes) = delete_where (λ r. ltb r.expires_at now) db.claims in
    (record db { claims = claims }, changes)

pub find_by_owner : String → Tables → List ClaimRow
find_by_owner owner db = query (λ r. r.owner === owner) db.claims

pub find_by_run_id : String → Tables → List ClaimRow
find_by_run_id run db = query (λ r. elim r.run_id [ none ↦ false | some j ↦ j === run ]) db.claims
