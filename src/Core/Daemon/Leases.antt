-- ===== src/Core/Daemon/Leases.antt =====
-- The calls of src/core/daemon.ts on leases: refused once the daemon is closed, and otherwise made
-- under the daemon's epoch, one after the other in the order of its write queue. `none` is the
-- rejection "store daemon: closed".
pub mod Generations
use decompi.Base.{ℕ, Bool, List, [], ◌∷◌, Option, none, some, String, if◌then◌else◌}
use decompi.Target.Claim.{ClaimRequest, Tables, Outcome, claim, heartbeat, release, reap_expired}

pub record StoreDaemon : Type 0 where
  pub epoch : String
  pub closed : Bool

-- `ClaimRequest` without the epoch.
pub record ClaimArgs : Type 0 where
  pub work_item_id : String
  pub owner : String
  pub run_id : Option String
  pub worker_seq : Option ℕ
  pub allowed_paths : Option (List String)
  pub ttl_ms : ℕ

-- `{ ...args, epoch: this.epoch }`
abbrev pub with_epoch : StoreDaemon → ClaimArgs → ClaimRequest
with_epoch d args = record {
  work_item_id = args.work_item_id;
  owner = args.owner;
  run_id = args.run_id;
  worker_seq = args.worker_seq;
  allowed_paths = args.allowed_paths;
  epoch = d.epoch;
  ttl_ms = args.ttl_ms;
}

-- No other writer comes between the statements of a call: the queue runs one call at a time.
abbrev pub alone : ℕ → Tables → Tables
alone gap db = db

unfoldable pub daemon_claim : StoreDaemon → ℕ → ClaimArgs → Tables → Tables × Option Outcome
daemon_claim d now args db =
    let (after, outcome) = claim alone now (with_epoch d args) db in
    if d.closed then (db, none) else (after, some outcome)

unfoldable pub daemon_heartbeat :
    StoreDaemon → ℕ → (item owner : String) → ℕ → Tables → Tables × Option Bool
daemon_heartbeat d now item owner ttl_ms db =
    let (after, answer) = heartbeat now item owner d.epoch ttl_ms db in
    if d.closed then (db, none) else (after, some answer)

unfoldable pub daemon_release : StoreDaemon → (item owner : String) → Tables → Tables × Option Bool
daemon_release d item owner db =
    let (after, answer) = release item owner d.epoch db in
    if d.closed then (db, none) else (after, some answer)

unfoldable pub daemon_reap_expired : StoreDaemon → ℕ → Tables → Tables × Option ℕ
daemon_reap_expired d now db =
    let (after, swept) = reap_expired now db in if d.closed then (db, none) else (after, some swept)
