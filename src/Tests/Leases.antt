-- ===== src/Tests/Leases.antt =====
-- Leases on the items of a small store.
use decompi.Base.{
  ◌≢◌, ne_of_test, String, str_dec, ◌≡◌, refl, false, true, List, [], ◌∷◌, none, some, inl, inr,
  arith,
}
use decompi.Core.Store.{find, update_where}
use decompi.Core.Daemon.Leases.{StoreDaemon}
use decompi.Core.Daemon.Leases.Generations.{
  Call, beating, releasing, sweeping, serve_all, serve_all-lease,
}
use decompi.Target.Claim.{
  ClaimRow, ClaimRequest, Tables, claim, claim_loop, insert_claim, add_run, claim_row,
  owner_pattern, lease_of, returns,
}
use decompi.Target.Claim.Swap.{IsKeyed, HeldAs, quiet, claim-HeldAs, claim_refused}
use decompi.Target.Claim.History.{Op, claims, heartbeats, reaps, run, run-lease}

-- A lease from 100 to 600.
abbrev held : ClaimRow
held = record {
  work_item_id = "f";
  owner = "r:1";
  run_id = some "r";
  worker_seq = some 1;
  allowed_paths = [];
  epoch = "e";
  claimed_at = 100;
  expires_at = 600;
  heartbeat_at = 100;
}

abbrev tables : Tables
tables = record { claims = held ∷ []; runs = "r" ∷ []; work_items = "f" ∷ "g" ∷ [] }

abbrev empty : Tables
empty = record { claims = []; runs = []; work_items = "f" ∷ "g" ∷ [] }

abbrev wanted : ClaimRequest
wanted = record {
  work_item_id = "f";
  owner = "r:1";
  run_id = none;
  worker_seq = none;
  allowed_paths = some ("src" ∷ []);
  epoch = "e";
  ttl_ms = 500;
}

abbrev tables-IsKeyed : IsKeyed tables
tables-IsKeyed = (tt, tt)

re_armed : claim quiet 200 wanted tables ≡ ((claim quiet 200 wanted tables).0, returns true)
unfolding claim claim_loop insert_claim claim_row add_run find owner_pattern str_dec update_where
re_armed = refl

claim-HeldAs_example : HeldAs (claim_row 200 wanted) (claim quiet 200 wanted tables).0
claim-HeldAs_example =
    claim-HeldAs quiet (λ gap db u. u) 200 wanted tables (claim quiet 200 wanted tables).0 (tt, tt)
      re_armed

is_owner : owner_pattern "r:1" ≡ true
unfolding owner_pattern
is_owner = refl

held_lease : lease_of "f" tables.claims ≡ some held
unfolding find str_dec
held_lease = refl

claim_refused_example :
    ((claim quiet 900 wanted tables).1 ≡ returns false)
    × ((claim quiet 900 wanted tables).0.claims ≡ tables.claims)
claim_refused_example =
    claim_refused 900 wanted tables held (tt, tt) is_owner held_lease (inr (inr (omega arith)))

-- Another worker and another daemon try to get the item, and a sweep comes just in time.
abbrev others : List Op
others =
    claims 200 (record wanted { owner = "r:2" })
    ∷ heartbeats 300 "f" "r:1" "e2" 500
    ∷ reaps 600
    ∷ []

other_worker : ◌≢◌ {A = String} "r:2" "r:1"
unfolding str_dec
other_worker = ne_of_test "r:2" "r:1" refl

other_daemon : ◌≢◌ {A = String} "e2" "e"
unfolding str_dec
other_daemon = ne_of_test "e2" "e" refl

run-lease_example : lease_of "f" (run tables others).claims ≡ some held
run-lease_example =
    run-lease tables others "f" held (tt, tt) held_lease
      (inl other_worker, (inr other_daemon, (omega arith, tt)))

-- The daemon that was started after the one that gave the lease.
abbrev restarted : StoreDaemon
restarted = record { epoch = "e2"; closed = false }

-- The worker of the lease asks the new daemon, which then sweeps in time.
abbrev asked_again : List Call
asked_again = beating 300 "f" "r:1" 500 ∷ releasing "f" "r:1" ∷ sweeping 600 ∷ []

serve_all-lease_example : lease_of "f" (serve_all restarted tables asked_again).claims ≡ some held
serve_all-lease_example =
    serve_all-lease restarted tables asked_again "f" held other_daemon (tt, tt) held_lease
      (tt, (tt, (omega arith, tt)))
