-- ===== src/Controller/ClaimHandler.antt =====
-- `netboxClaimHandler` as the `ClaimHandler` of pkg/ipamutil, and `ClaimHandlerFor` of the adapter.
pub mod Stuck
use cluster_api_ipam_provide.Base.{Option, none, some, Result, ok, err, if◌then◌else◌}
use cluster_api_ipam_provide.Base.Text.{is_empty}
use cluster_api_ipam_provide.Base.Errors.{Error, nil_dereference}
use cluster_api_ipam_provide.Api.{Pool, IpAddressClaim, IpAddress}
use cluster_api_ipam_provide.Cluster.{Mutated, Outcome}
use cluster_api_ipam_provide.Ipamutil.Reconciler.{ClaimHandler, Fetched, done}
use cluster_api_ipam_provide.Controller.Handler.{Adapter, Failure, fetch_pool, ensure_address}
use cluster_api_ipam_provide.Controller.Releasing.{release_address}

abbrev pub fetched : Result Error Pool → Fetched
fetched (ok pool) = record { pool = some pool; requeue = none; error = none }
fetched (err e) = record { pool = none; requeue = none; error = some e }

-- `h.pool`, which is assigned where a pool is found
abbrev pub held : Result Error Pool → Option Pool
held (ok pool) = some pool
held (err e) = none

abbrev pub mutated : IpAddress → Result Failure IpAddress → Mutated
mutated address (ok a) = record { address = a; requeue = none; error = none }
mutated address (err f) = record { address = address; requeue = f.requeue; error = some f.cause }

abbrev pub outcome : Result Failure (Unit {0}) → Outcome
outcome (ok u) = done
outcome (err f) = record { requeue = f.requeue; error = some f.cause }

module _ {W : Type 0} (A : Adapter W) (claim : IpAddressClaim) where
  -- Without a pool, an address that is set is left as it is, and any other dereferences nil.
  abbrev ensure_held : Option Pool → IpAddress → W → Mutated × W
  ensure_held none address w =
      let failed = if is_empty address.address then some nil_dereference else none in
      (record { address = address; requeue = none; error = failed }, w)
  ensure_held (some pool) address w =
      let (r, w') = ensure_address A claim pool address w in (mutated address r, w')

  unfoldable pub claim_handler_for : ClaimHandler W
  claim_handler_for = record {
    State = Option Pool;
    start = none;
    fetch_pool = λ state w. let (r, w') = fetch_pool A claim w in (fetched r, held r, w');
    ensure_address = ensure_held;
    release_address = λ state w. let (r, w') = release_address A claim state w in (outcome r, w');
  }
