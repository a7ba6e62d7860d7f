-- ===== src/Base/Fallible.antt =====
-- Calls that may fail, and calls that may fail and also act on a world: a network, a cluster.
-- What a call did to the world before it failed stays done, so the world comes back with the error.
use mathlib.Core.Path.{◌≡◌, refl, ap}
use mathlib.Core.Logic.{◌⊎◌, inl, inr}

pub data Result {ℓ κ} (E : Type ℓ) (A : Type κ) : Type (ℓ ⊔ κ) where
  ok : A → Result E A
  err : E → Result E A

pub Result-cases {ℓ κ} :
    {E : Type ℓ} {A : Type κ} (r : Result E A) → ((a : A) × (r ≡ ok a)) ⊎ ((e : E) × (r ≡ err e))
Result-cases (ok a) = inl (a, refl)
Result-cases (err e) = inr (e, refl)

-- what a call gave, with the state it left
pub Answered-cases :
    {W E A : Type 0} (q : Result E A × W)
    → ((a : A) × ((w : W) × (q ≡ (ok a, w)))) ⊎ ((e : E) × ((w : W) × (q ≡ (err e, w))))
Answered-cases (ok a, w) = inl (a, (w, refl))
Answered-cases (err e, w) = inr (e, (w, refl))

infixl 5 ◌>>=ʳ◌
abbrev pub ◌>>=ʳ◌ {ℓ κ μ} :
    {E : Type ℓ} {A : Type κ} {B : Type μ} → Result E A → (A → Result E B) → Result E B
ok a >>=ʳ f = f a
err e >>=ʳ f = err e

abbrev pub map_err {ℓ κ μ} :
    {E : Type ℓ} {F : Type μ} {A : Type κ} → (E → F) → Result E A → Result F A
map_err f (ok a) = ok a
map_err f (err e) = err (f e)

abbrev pub map_ok {ℓ κ μ} :
    {E : Type ℓ} {A : Type κ} {B : Type μ} → (A → B) → Result E A → Result E B
map_ok f (ok a) = ok (f a)
map_ok f (err e) = err e

abbrev pub Effect : Type 0 → Type 0 → Type 0 → Type 0
Effect W E A = W → Result E A × W

module _ {W E A : Type 0} where
  abbrev pub pure : A → Effect W E A
  pure a w = (ok a, w)

  abbrev pub fail : E → Effect W E A
  fail e w = (err e, w)

  abbrev pub lift : Result E A → Effect W E A
  lift r w = (r, w)

module _ {W E F A : Type 0} where
  -- `fmt.Errorf("…: %w", err)` at a call's error
  abbrev pub wrapping : (E → F) → Effect W E A → Effect W F A
  wrapping f m w = let (r, w') = m w in (map_err f r, w')

module _ {W E A B : Type 0} where
  abbrev pub continue : Result E A → (A → Effect W E B) → Effect W E B
  continue (ok a) f w = f a w
  continue (err e) f w = (err e, w)

  infixl 5 ◌>>=◌ ◌>>◌
  abbrev pub ◌>>=◌ : Effect W E A → (A → Effect W E B) → Effect W E B
  ◌>>=◌ m f w = let (r, w') = m w in continue r f w'

  abbrev pub ◌>>◌ : Effect W E A → Effect W E B → Effect W E B
  m >> n = m >>= λ _. n

module _ {W E A B : Type 0} where
  continue_ok :
      (r : Result E A) (f : A → Effect W E B) (w w' : W) (b : B)
      → continue r f w ≡ (ok b, w')
      → (a : A) × (r ≡ ok a) × (f a w ≡ (ok b, w'))
  continue_ok (ok a) f w w' b h = (a, refl, h)
  continue_ok (err e) f w w' b h = absurd (cc)

  -- A chain that succeeds went through the success of its first part.
  pub >>=_ok :
      (m : Effect W E A) (f : A → Effect W E B) (w w' : W) (b : B)
      → (m >>= f) w ≡ (ok b, w')
      → (a : A) × (w1 : W) × (m w ≡ (ok a, w1)) × (f a w1 ≡ (ok b, w'))
  >>=_ok m f w w' b h =
      let (r, w1) = m w in
      let (a, e, k) = continue_ok r f w1 w' b h in (a, w1, ap (λ q. (q, w1)) e, k)

module _ {E F A : Type 0} where
  pub map_err_ok : (g : E → F) (r : Result E A) (a : A) → map_err g r ≡ ok a → r ≡ ok a
  map_err_ok g (ok b) a h = cc
  map_err_ok g (err e) a h = absurd (cc)

  map_err_err : (g : E → F) (r : Result E A) (f : F) → map_err g r ≡ err f → (e : E) × (f ≡ g e)
  map_err_err g (ok b) f h = absurd (cc)
  map_err_err g (err e) f h = (e, cc)

module _ {W E F A : Type 0} where
  pub wrapping_ok :
      (g : E → F) (m : Effect W E A) (w w' : W) (a : A)
      → wrapping g m w ≡ (ok a, w')
      → m w ≡ (ok a, w')
  wrapping_ok g m w w' a h =
      let (r, w1) = m w in
      let e : map_err g r ≡ ok a = cc in let k : w1 ≡ w' = cc in cc (map_err_ok g r a e)

  pub wrapping_err :
      (g : E → F) (m : Effect W E A) (w w' : W) (f : F)
      → wrapping g m w ≡ (err f, w')
      → (e : E) × (f ≡ g e)
  wrapping_err g m w w' f h =
      let (r, w1) = m w in let e : map_err g r ≡ err f = cc in map_err_err g r f e

pub ok_injective :
    {W E A : Type 0} {a b : A} {w v : W}
    → ◌≡◌ {A = Result E A × W} (ok a, w) (ok b, v)
    → (a ≡ b) × (w ≡ v)
ok_injective h = (cc, cc)

module _ {E A B : Type 0} where
  pub >>=ʳ_ok :
      (m : Result E A) (f : A → Result E B) (b : B)
      → (m >>=ʳ f) ≡ ok b
      → (a : A) × (m ≡ ok a) × (f a ≡ ok b)
  >>=ʳ_ok (ok a) f b h = (a, refl, h)
  >>=ʳ_ok (err e) f b h = absurd (cc)
