-- ===== src/Controller/Ledger/Refinement.antt =====
-- The handler's calls refine the ledger; and what follows for the addresses that a claim is given.
use cluster_api_ipam_provide.Base.{
  true, List, [], ◌∷◌, none, some, Result, ok, err, ◌≡◌, ◌⊎◌, inl, inr, Bool-cases, After,
}
use cluster_api_ipam_provide.Base.Text.{is_empty}
use cluster_api_ipam_provide.Api.{Pool, IpAddressClaim, IpAddress}
use cluster_api_ipam_provide.Netbox.Wire.{AllocatedAddress}
use cluster_api_ipam_provide.Controller.Handler.{Adapter, Failure, ensure_address}
use cluster_api_ipam_provide.Controller.Releasing.{release_address}
use cluster_api_ipam_provide.Controller.Ledger.{
  Ledger, Answer, gives, Step, Trace, Call, ensures, releases, ensured, released, perform, run,
  Keeps,
}
use cluster_api_ipam_provide.Controller.Ledger.Ensuring.{ensure_address-Given}
use cluster_api_ipam_provide.Controller.Ledger.Connecting.{Given, Missed}
use cluster_api_ipam_provide.Controller.Ledger.Releasing.{Remains, release_address-Remains}

module _ {W : Type 0} (A : Adapter W) (claim : IpAddressClaim) (pool : Pool)
    (Holds : W → Ledger → Type 0) (K : Keeps A claim pool Holds) where
  -- a step of the ledger that the state follows
  abbrev Refined : Ledger → Answer → W → Type 0
  Refined l answer w = (l' : Ledger) × Step l answer l' × Holds w l'

  Given-Refined :
      (l : Ledger) (r : IpAddress) (w : W)
      → Given Holds l r w
      → Refined l (gives r.address r.prefix) w
  Given-Refined l r w g = rw (g.address, g.prefix) (some g.a, step l g.a g.was, g.holds)
    where
      step :
          (k : Ledger) (a : AllocatedAddress)
          → (k ≡ none) ⊎ (k ≡ some a)
          → Step k (gives a.address (some a.prefix)) (some a)
      step k a (inl e) = rw e (Step.allocated a)
      step k a (inr e) = rw e (Step.found a)

  ensured-Refined :
      (l : Ledger) (address : IpAddress) (r : Result Failure IpAddress) (w : W)
      → is_empty address.address ≡ true
      → After (Given Holds l) (λ f. Missed Holds l) r w
      → Refined l (ensured address r) w
  ensured-Refined l address (ok r) w e g = rw e (Given-Refined l r w g)
  ensured-Refined l address (err f) w e (inl h) = (l, Step.not_ensured l, h)
  ensured-Refined l address (err f) w e (inr (n, (a, h))) = (some a, rw n (Step.unconfirmed a), h)

  released-Refined :
      (l : Ledger) (r : Result Failure (Unit {0})) (w : W)
      → After (λ u v. Holds v none) (λ f. Remains A claim pool Holds K l) r w
      → Refined l (released r) w
  released-Refined l (ok u) w h = (none, Step.freed l, h)
  released-Refined l (err f) w (inr h) = (l, Step.not_released l, h)
  released-Refined none (err f) w (inl h) = (none, Step.not_released none, h)
  released-Refined (some a) (err f) w (inl h) = (none, Step.unanswered a, h)

  perform-Refined :
      (call : Call) (l : Ledger) (w : W)
      → Holds w l
      → Refined l (perform A claim pool call w).0 (perform A claim pool call w).1
  unfolding perform ensure_address
  perform-Refined (ensures address) l w h = elim (Bool-cases (is_empty address.address)) [
    | inl e ↦
        ensured-Refined l address (ensure_address A claim pool address w).0
          (ensure_address A claim pool address w).1 e
          (ensure_address-Given A claim pool Holds K address l e w h)
    | inr set ↦ rw set (rw set (l, Step.kept l, h))
  ]
  perform-Refined releases l w h =
      released-Refined l (release_address A claim (some pool) w).0
        (release_address A claim (some pool) w).1
        (release_address-Remains A claim pool Holds K l w h)

  -- Any calls of EnsureAddress and ReleaseAddress for a claim, one after another, whether they succeed
  -- or fail, answer as the ledger of at most one address does, for a NetBox that finds its record of
  -- the claim by the claim's UID, and changes it only where it allocates or deletes; and NetBox's
  -- record is then that of the ledger.
  pub run_refines :
      (calls : List Call) (l : Ledger) (w : W)
      → Holds w l
      → (l' : Ledger) × Trace l (run A claim pool calls w).0 l'
        × Holds (run A claim pool calls w).1 l'
  unfolding run
  run_refines [] l w h = (l, Trace.stop l, h)
  run_refines (call ∷ calls) l w h =
      let (l1, step, h1) = perform-Refined call l w h in
      let (answer, w1) = perform A claim pool call w in
      let (l2, path, h2) = run_refines calls l1 w1 h1 in
      (l2, Trace.next l l1 l2 answer (run A claim pool calls w1).0 step path, h2)
