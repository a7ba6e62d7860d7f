-- ===== src/Tests/Protected.antt =====
-- An example of a claim that has its finalizer, for a list of finalizers that is searched before it grows.
use cluster_api_ipam_provide.Base.{
  ℕ, String, Bool, true, false, ◌||◌, List, [], ◌∷◌, ◌≡◌, refl, inl, inr, ◌=ˢ◌, eq_iff, Bool-cases,
}
use mathlib.Core.List.{Memᴰ}
use cluster_api_ipam_provide.Api.{IpAddressClaim}
use cluster_api_ipam_provide.Cluster.{Controllerutil}
use cluster_api_ipam_provide.Ipamutil.Reconciler.{release_address_finalizer}
use cluster_api_ipam_provide.Ipamutil.Reconcile.{reconcile_and_patch}
use cluster_api_ipam_provide.Ipamutil.Reconcile.Protected.{
  AddsFinalizers, Course, reconcile_and_patch_protected,
}
use cluster_api_ipam_provide.Controller.ClaimHandler.{claim_handler_for}
use cluster_api_ipam_provide.Tests.World.{kube, util, adapter, a_claim}

abbrev has : String → List String → Bool
has f [] = false
has f (g ∷ gs) = f =ˢ g || has f gs

has-Memᴰ : (f : String) (fs : List String) → has f fs ≡ true → Memᴰ f fs
has-Memᴰ f [] h = absurd (cc)
has-Memᴰ f (g ∷ gs) h = elim (Bool-cases (f =ˢ g)) [
  | inl same ↦ Memᴰ.head ((eq_iff f g).0 same)
  | inr other ↦ Memᴰ.tail (has-Memᴰ f gs (rw other at h))
]

abbrev added : Bool → String → List String → List String × Bool
added true f fs = (fs, false)
added false f fs = (f ∷ fs, true)

abbrev add : String → List String → List String × Bool
add f fs = added (has f fs) f fs

abbrev searching : Controllerutil ℕ
searching = record util { add_finalizer = add }

searching-AddsFinalizers : AddsFinalizers searching
searching-AddsFinalizers = record {
  unchanged = λ f fs h. unchanged f fs (has f fs) h;
  present = λ f fs h. has-Memᴰ f fs (found f fs (has f fs) h);
}
  where
    unchanged :
        (f : String) (fs : List String) (b : Bool)
        → (added b f fs).1 ≡ false
        → (added b f fs).0 ≡ fs
    unchanged f fs true h = refl
    unchanged f fs false h = absurd (cc)

    found : (f : String) (fs : List String) (b : Bool) → (added b f fs).1 ≡ false → b ≡ true
    found f fs true h = refl
    found f fs false h = absurd (cc)

abbrev protected_claim : IpAddressClaim
protected_claim = record a_claim { finalizers = release_address_finalizer ∷ [] }

reconcile_and_patch_protected_example :
    Course kube searching
      (claim_handler_for adapter)
      protected_claim
      0
      (reconcile_and_patch kube searching (claim_handler_for adapter) protected_claim 0)
reconcile_and_patch_protected_example =
    reconcile_and_patch_protected kube searching (claim_handler_for adapter) protected_claim
      searching-AddsFinalizers 0
