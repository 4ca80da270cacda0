-- ===== src/Core/Daemon/Leases/Generations.antt =====
-- A daemon of src/core/daemon.ts against the leases of another start of it.
use mathlib.Core.Path.{subst}
use decompi.Base.{
  ℕ, ◌≤◌, ◌≡◌, ◌≢◌, sym, Bool, true, false, List, [], ◌∷◌, some, String, All, inr, arith,
  if◌then◌else◌,
}
use decompi.Target.Claim.{ClaimRow, Tables, lease_of}
use decompi.Target.Claim.Swap.{IsKeyed}
use decompi.Target.Claim.History.{
  run, Op, Foreign, claims, heartbeats, releases, reaps, run-lease, run-IsKeyed,
}
use decompi.Core.Daemon.Leases.{
  StoreDaemon, ClaimArgs, with_epoch, daemon_claim, daemon_heartbeat, daemon_release,
  daemon_reap_expired,
}

pub data Call : Type 0 where
  claiming : (now : ℕ) → ClaimArgs → Call
  beating : (now : ℕ) (item owner : String) (ttl_ms : ℕ) → Call
  releasing : (item owner : String) → Call
  sweeping : (now : ℕ) → Call

unfoldable pub serve : StoreDaemon → Tables → Call → Tables
serve d db (claiming now args) = (daemon_claim d now args db).0
serve d db (beating now item owner ttl_ms) = (daemon_heartbeat d now item owner ttl_ms db).0
serve d db (releasing item owner) = (daemon_release d item owner db).0
serve d db (sweeping now) = (daemon_reap_expired d now db).0

unfoldable pub serve_all : StoreDaemon → Tables → List Call → Tables
unfolding serve
serve_all d db [] = db
serve_all d db (c ∷ cs) = serve_all d (serve d db c) cs

-- A sweep comes no later than the end of the lease.
abbrev pub InTime : ClaimRow → Call → Type 0
InTime r (sweeping now) = now ≤ r.expires_at
InTime r _ = Unit

abbrev op_of : StoreDaemon → Call → Op
op_of d (claiming now args) = claims now (with_epoch d args)
op_of d (beating now item owner ttl_ms) = heartbeats now item owner d.epoch ttl_ms
op_of d (releasing item owner) = releases item owner d.epoch
op_of d (sweeping now) = reaps now

serve-run :
    (d : StoreDaemon) (db : Tables) (c : Call)
    → serve d db c ≡ (if d.closed then db else run db (op_of d c ∷ []))
unfolding serve daemon_claim daemon_heartbeat daemon_release daemon_reap_expired run
serve-run d db (claiming now args) = ground arith
serve-run d db (beating now item owner ttl_ms) = ground arith
serve-run d db (releasing item owner) = ground arith
serve-run d db (sweeping now) = ground arith

-- In a table with at most one lease a work item, a daemon leaves a lease of another epoch exactly
-- as it is, whatever calls it serves for anyone, the lease's own worker among them, as long as no
-- sweep comes after the end of the lease.
pub serve_all-lease :
    (d : StoreDaemon) (db : Tables) (cs : List Call) (item : String) (r : ClaimRow)
    → d.epoch ≢ r.epoch
    → IsKeyed db
    → lease_of item db.claims ≡ some r
    → All (InTime r) cs
    → lease_of item (serve_all d db cs).claims ≡ some r
unfolding serve_all
serve_all-lease d db [] item r other u at h = at
serve_all-lease d db (c ∷ cs) item r other u at h =
    serve_all-lease d (serve d db c) cs item r other (kept.0) (kept.1) h.1
  where
    foreign : (c : Call) → InTime r c → Foreign r (op_of d c)
    foreign (claiming now args) t = inr other
    foreign (beating now item' owner ttl_ms) t = inr other
    foreign (releasing item' owner) t = inr other
    foreign (sweeping now) t = t

    choose :
        (b : Bool)
        → let after = if b then db else run db (op_of d c ∷ []) in
          IsKeyed after × (lease_of item after.claims ≡ some r)
    choose true = (u, at)
    choose false = (
      run-IsKeyed db (op_of d c ∷ []) u,
      run-lease db (op_of d c ∷ []) item r u at (foreign c h.0, tt),
    )

    kept : IsKeyed (serve d db c) × (lease_of item (serve d db c).claims ≡ some r)
    kept =
        subst (λ t. IsKeyed t × (lease_of item t.claims ≡ some r)) (sym (serve-run d db c))
          (choose d.closed)
