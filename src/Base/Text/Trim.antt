-- ===== src/Base/Text/Trim.antt =====
-- What `strings.Trim`, `strings.TrimFunc` and `strings.TrimSpace` leave of a text.
use cluster_api_ipam_provide.Base.Tests.{if◌then◌else◌, Bool-cases}
use cluster_api_ipam_provide.Base.Text.{is_empty, trim_left, trim_right, trim}
use Prim.Native.Nat.{ℕ}
use Prim.Native.Char.{Char, code}
use Prim.Native.String.{String, [], ◌∷◌}
use mathlib.Core.Path.{◌≡◌, refl, ap, ◌∙◌}
use mathlib.Core.Logic.{inl, inr}
use mathlib.Core.Bool.{Bool, false, ◌&&◌}
use native.Mathlib.Omega.{arith}

-- Every character of a text.
abbrev pub Chars : (ℕ → Type 0) → String → Type 0
Chars P [] = Unit
Chars P (c ∷ s) = P (code c) × Chars P s

module _ (p : ℕ → Bool) where
  -- The first character, if there is one, is not cut.
  abbrev pub StartsKept : String → Type 0
  StartsKept [] = Unit
  StartsKept (c ∷ s) = p (code c) ≡ false

  -- The last character, if there is one, is not cut.
  abbrev pub EndsKept : String → Type 0
  EndsKept [] = Unit
  EndsKept (c ∷ []) = p (code c) ≡ false
  EndsKept (c ∷ d ∷ s) = EndsKept (d ∷ s)

  trim_left-StartsKept : (s : String) → StartsKept (trim_left p s)
  unfolding trim_left
  trim_left-StartsKept [] = tt
  trim_left-StartsKept (c ∷ s) = ground (arith, trim_left-StartsKept s)

  EndsKept-cut :
      (c : Char) (r : String)
      → EndsKept r
      → EndsKept (if is_empty r && p (code c) then [] else c ∷ r)
  EndsKept-cut c [] h = elim (Bool-cases (p (code c))) [ inl e ↦ rw e tt | inr e ↦ rw e e ]
  EndsKept-cut c (d ∷ s) h = h

  trim_right-StartsKept : (s : String) → StartsKept s → StartsKept (trim_right p s)
  unfolding trim_right
  trim_right-StartsKept [] h = tt
  trim_right-StartsKept (c ∷ s) h = ground arith

  trim_right-EndsKept : (s : String) → EndsKept (trim_right p s)
  unfolding trim_right
  trim_right-EndsKept [] = tt
  trim_right-EndsKept (c ∷ s) = EndsKept-cut c (trim_right p s) (trim_right-EndsKept s)

  trim_right_id : (s : String) → EndsKept s → trim_right p s ≡ s
  unfolding trim_right
  trim_right_id [] h = refl
  trim_right_id (c ∷ []) h = ground arith
  trim_right_id (c ∷ d ∷ s) h = rw (trim_right_id (d ∷ s) h)

  Chars-trim_left : (P : ℕ → Type 0) (s : String) → Chars P s → Chars P (trim_left p s)
  unfolding trim_left
  Chars-trim_left P [] h = tt
  Chars-trim_left P (c ∷ s) h = ground (arith, Chars-trim_left P s h.1)

  Chars-trim_right : (P : ℕ → Type 0) (s : String) → Chars P s → Chars P (trim_right p s)
  unfolding trim_right
  Chars-trim_right P [] h = tt
  Chars-trim_right P (c ∷ s) h = ground (arith, Chars-trim_right P s h.1)

  -- A trimmed text starts and ends with a character that is kept.
  pub trim-Kept : (s : String) → StartsKept (trim p s) × EndsKept (trim p s)
  unfolding trim
  trim-Kept s = (
    trim_right-StartsKept (trim_left p s) (trim_left-StartsKept s),
    trim_right-EndsKept (trim_left p s),
  )

  -- Trimming keeps what holds of every character.
  pub Chars-trim : (P : ℕ → Type 0) (s : String) → Chars P s → Chars P (trim p s)
  unfolding trim
  Chars-trim P s h = Chars-trim_right P (trim_left p s) (Chars-trim_left P s h)

  trim_left_id : (s : String) → StartsKept s → trim_left p s ≡ s
  unfolding trim_left
  trim_left_id [] h = refl
  trim_left_id (c ∷ s) h = ground arith

  pub trim_idem : (s : String) → trim p (trim p s) ≡ trim p s
  unfolding trim
  trim_idem s =
      let (a, b) = trim-Kept s in
      ap (trim_right p) (trim_left_id (trim p s) a) ∙ trim_right_id (trim p s) b
