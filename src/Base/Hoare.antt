-- ===== src/Base/Hoare.antt =====
-- What a call ensures of the state it leaves, on success and on failure, from a condition on the state
-- before: the rules by which a chain of calls is followed.
use cluster_api_ipam_provide.Base.Tests.{if◌then◌else◌}
use mathlib.Core.Bool.{Bool, true, false}
use cluster_api_ipam_provide.Base.Fallible.{
  Result, ok, err, Effect, wrapping, continue, map_err, ◌>>=◌, pure, fail, lift,
}

module _ {W E A : Type 0} (Q : A → W → Type 0) (R : E → W → Type 0) where
  -- `Q` of a value that is returned, or `R` of an error
  abbrev pub After : Result E A → W → Type 0
  After (ok a) w = Q a w
  After (err e) w = R e w

  abbrev pub Ensures : (W → Type 0) → Effect W E A → Type 0
  Ensures P m = (w : W) → P w → After (m w).0 (m w).1

module _ {W E A : Type 0} where
  -- a condition that does not look at the result
  pub After-any :
      (P : W → Type 0) (r : Result E A) (w : W) → P w → After (λ a. P) (λ (e : E). P) r w
  After-any P (ok a) w p = p
  After-any P (err e) w p = p

  pub After-weaken :
      (Q Q' : A → W → Type 0) (R R' : E → W → Type 0) (r : Result E A) (w : W)
      → ((a : A) → Q a w → Q' a w)
      → ((e : E) → R e w → R' e w)
      → After Q R r w
      → After Q' R' r w
  After-weaken Q Q' R R' (ok a) w f g h = f a h
  After-weaken Q Q' R R' (err e) w f g h = g e h

module _ {W E F A : Type 0} (Q : A → W → Type 0) (R : F → W → Type 0) where
  After-map_err :
      (g : E → F) (r : Result E A) (w : W) → After Q (λ e. R (g e)) r w → After Q R (map_err g r) w
  After-map_err g (ok a) w h = h
  After-map_err g (err e) w h = h

  pub Ensures-wrapping :
      {P : W → Type 0} (g : E → F) (m : Effect W E A)
      → Ensures Q (λ e. R (g e)) P m
      → Ensures Q R P (wrapping g m)
  Ensures-wrapping g m h w p = After-map_err g (m w).0 (m w).1 (h w p)

module _ {W E A B : Type 0} (Q : A → W → Type 0) (S : B → W → Type 0) (R : E → W → Type 0) where
  After-continue :
      (f : A → Effect W E B) (r : Result E A) (w : W)
      → After Q R r w
      → ((a : A) → Ensures S R (Q a) (f a))
      → After S R (continue r f w).0 (continue r f w).1
  After-continue f (ok a) w h k = k a w h
  After-continue f (err e) w h k = h

  pub Ensures-bind :
      {P : W → Type 0} (m : Effect W E A) (f : A → Effect W E B)
      → Ensures Q R P m
      → ((a : A) → Ensures S R (Q a) (f a))
      → Ensures S R P (m >>= f)
  Ensures-bind m f h k w p = After-continue f (m w).0 (m w).1 (h w p) k

-- The call keeps `P`, whatever it gives.
pub record Keeping {W E A : Type 0} (P : W → Type 0) (m : Effect W E A) : Type 0 where
  pub at : (w : W) → P w → P (m w).1

module _ {W E A : Type 0} {P : W → Type 0} where
  pub Keeping-pure : (a : A) → Keeping {E = E} P (pure a)
  Keeping-pure a = record { at = λ w p. p }

  pub Keeping-fail : (e : E) → Keeping {A = A} P (fail e)
  Keeping-fail e = record { at = λ w p. p }

  pub Keeping-lift : (r : Result E A) → Keeping P (lift r)
  Keeping-lift r = record { at = λ w p. p }

  pub Keeping-if :
      (b : Bool) (m n : Effect W E A) → Keeping P m → Keeping P n → Keeping P (if b then m else n)
  Keeping-if true m n h k = h
  Keeping-if false m n h k = k

  pub Keeping-wrapping :
      {F : Type 0} (g : E → F) (m : Effect W E A) → Keeping P m → Keeping P (wrapping g m)
  Keeping-wrapping g m h = record { at = h.at }

module _ {W E A B : Type 0} {P : W → Type 0} where
  continue-Keeping :
      (f : A → Effect W E B) (r : Result E A)
      → ((a : A) → Keeping P (f a))
      → Keeping P (continue r f)
  continue-Keeping f (ok a) k = k a
  continue-Keeping f (err e) k = record { at = λ w p. p }

  pub Keeping-bind :
      (m : Effect W E A) (f : A → Effect W E B)
      → Keeping P m
      → ((a : A) → Keeping P (f a))
      → Keeping P (m >>= f)
  Keeping-bind m f h k = record { at = λ w p. (continue-Keeping f (m w).0 k).at (m w).1 (h.at w p) }

pub ruleset keeping_rules =
    (Keeping-pure, Keeping-fail, Keeping-lift, Keeping-if, Keeping-wrapping, Keeping-bind)
