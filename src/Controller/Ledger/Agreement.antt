-- ===== src/Controller/Ledger/Agreement.antt =====
-- What EnsureAddress gives when it is tried again and again.
use cluster_api_ipam_provide.Base.{
  String, List, [], ◌∷◌, Option, some, Result, ok, err, ◌≡◌, refl, ◌∙◌, map, Bool-cases, inl, inr,
}
use mathlib.Core.List.{Memᴰ}
use cluster_api_ipam_provide.Base.Text.{is_empty}
use cluster_api_ipam_provide.Base.Int.{ℤ}
use cluster_api_ipam_provide.Api.{Pool, IpAddressClaim, IpAddress}
use cluster_api_ipam_provide.Netbox.Wire.{AllocatedAddress}
use cluster_api_ipam_provide.Controller.Handler.{Adapter, Failure, ensure_address}
use cluster_api_ipam_provide.Controller.Ledger.{
  Ledger, Answer, gives, keeps, ensure_fails, Step, Trace, ensures, ensured, perform, run, Keeps,
}
use cluster_api_ipam_provide.Controller.Ledger.Refinement.{run_refines}

-- Answers to calls of EnsureAddress alone.
data Ensuring : List Answer → Type 0 where
  done : Ensuring []
  given :
      (s : String) (p : Option ℤ) {rest : List Answer} → Ensuring rest → Ensuring (gives s p ∷ rest)
  kept : {rest : List Answer} → Ensuring rest → Ensuring (keeps ∷ rest)
  failed : {rest : List Answer} → Ensuring rest → Ensuring (ensure_fails ∷ rest)

-- a record, once made, stays
Trace-stays :
    (a : AllocatedAddress) {answers : List Answer} (l l' : Ledger)
    → l ≡ some a
    → Ensuring answers
    → Trace l answers l'
    → l' ≡ some a
Trace-stays a l l' e E (Trace.stop k) = e
Trace-stays a l l' e (given s p E) (Trace.next k l1 l2 b bs step path) =
    Trace-stays a l1 l' (given_same k l1 s p step e) E path
  where
    given_same :
        (k l1 : Ledger) (s : String) (p : Option ℤ)
        → Step k (gives s p) l1
        → k ≡ some a
        → l1 ≡ some a
    given_same k l1 s p (Step.allocated b) f = absurd (cc)
    given_same k l1 s p (Step.found b) f = f
Trace-stays a l l' e (kept E) (Trace.next k l1 l2 b bs step path) =
    Trace-stays a l1 l' (kept_same k l1 step e) E path
  where
    kept_same : (k l1 : Ledger) → Step k keeps l1 → k ≡ some a → l1 ≡ some a
    kept_same k l1 (Step.kept m) f = f
Trace-stays a l l' e (failed E) (Trace.next k l1 l2 b bs step path) =
    Trace-stays a l1 l' (failed_same k l1 step e) E path
  where
    failed_same : (k l1 : Ledger) → Step k ensure_fails l1 → k ≡ some a → l1 ≡ some a
    failed_same k l1 (Step.not_ensured m) f = f
    failed_same k l1 (Step.unconfirmed b) f = absurd (cc)

-- an address that is given is that of the record at the end
Trace-last :
    (s : String) (p : Option ℤ) {answers : List Answer} (l l' : Ledger)
    → Ensuring answers
    → Trace l answers l'
    → Memᴰ (gives s p) answers
    → (a : AllocatedAddress) × (l' ≡ some a) × (s ≡ a.address) × (p ≡ some a.prefix)
Trace-last s p l l' done path m = elim m [ ]
Trace-last s p l l' (given t q E) (Trace.next k l1 l2 b bs step path) (Memᴰ.head e) =
    let (a, f, es, ep) = record_of k l1 t q step in
    (a, Trace-stays a l1 l' f E path, text e ∙ es, size e ∙ ep)
  where
    text : {s t : String} {p q : Option ℤ} → gives s p ≡ gives t q → s ≡ t
    text e = cc

    size : {s t : String} {p q : Option ℤ} → gives s p ≡ gives t q → p ≡ q
    size e = cc

    record_of :
        (k l1 : Ledger) (t : String) (q : Option ℤ)
        → Step k (gives t q) l1
        → (a : AllocatedAddress) × (l1 ≡ some a) × (t ≡ a.address) × (q ≡ some a.prefix)
    record_of k l1 t q (Step.allocated b) = (b, refl, refl, refl)
    record_of k l1 t q (Step.found b) = (b, refl, refl, refl)
Trace-last s p l l' (kept E) (Trace.next k l1 l2 b bs step path) (Memᴰ.head e) = absurd (cc)
Trace-last s p l l' (failed E) (Trace.next k l1 l2 b bs step path) (Memᴰ.head e) = absurd (cc)
Trace-last s p l l' (given t q E) (Trace.next k l1 l2 b bs step path) (Memᴰ.tail m) =
    Trace-last s p l1 l' E path m
Trace-last s p l l' (kept E) (Trace.next k l1 l2 b bs step path) (Memᴰ.tail m) =
    Trace-last s p l1 l' E path m
Trace-last s p l l' (failed E) (Trace.next k l1 l2 b bs step path) (Memᴰ.tail m) =
    Trace-last s p l1 l' E path m

ensured-Ensuring :
    (address : IpAddress) (r : Result Failure IpAddress) {rest : List Answer}
    → Ensuring rest
    → Ensuring (ensured address r ∷ rest)
ensured-Ensuring address (err f) E = failed E
ensured-Ensuring address (ok r) E = elim (Bool-cases (is_empty address.address)) [
  | inl e ↦ rw e (given r.address r.prefix E)
  | inr e ↦ rw e (kept E)
]

module _ {W : Type 0} (A : Adapter W) (claim : IpAddressClaim) (pool : Pool) where
  run-Ensuring :
      (addresses : List IpAddress) (w : W) → Ensuring (run A claim pool (map ensures addresses) w).0
  unfolding run perform
  run-Ensuring [] w = done
  run-Ensuring (address ∷ addresses) w =
      let (r, w1) = ensure_address A claim pool address w in
      ensured-Ensuring address r (run-Ensuring addresses w1)

  -- However often EnsureAddress is tried for a claim, and whichever of the tries fail, all that it gives
  -- is one address with its prefix length, that of NetBox's record of the claim at the end, for a
  -- NetBox that finds its record by the claim's UID, and changes it only where it allocates or deletes.
  pub given_is_recorded :
      (Holds : W → Ledger → Type 0)
      → Keeps A claim pool Holds
      → (addresses : List IpAddress) (l : Ledger) (w : W) (s : String) (p : Option ℤ) → Holds w l
      → Memᴰ (gives s p) (run A claim pool (map ensures addresses) w).0
      → (a : AllocatedAddress) × Holds (run A claim pool (map ensures addresses) w).1 (some a)
        × (s ≡ a.address)
        × (p ≡ some a.prefix)
  given_is_recorded Holds K addresses l w s p h m =
      let (l', path, h') = run_refines A claim pool Holds K (map ensures addresses) l w h in
      let (a, e, es, ep) = Trace-last s p l l' (run-Ensuring addresses w) path m in
      (a, rw e at h', es, ep)
