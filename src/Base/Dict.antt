-- ===== src/Base/Dict.antt =====
-- Go's `map[string]V` as an association list. A map has one entry for each key, so `lookup` is all
-- that a program sees of it, apart from the order of an iteration, which Go leaves open.
use cluster_api_ipam_provide.Base.Tests.{if◌then◌else◌}
use Prim.Native.String.{String}
use mathlib.Core.Path.{◌≡◌, refl}
use mathlib.Core.Option.{Option, none, some}
use mathlib.Core.List.{List, [], ◌∷◌}
use native.Mathlib.Omega.{arith}
use text.Mathlib.Text.{◌==◌}
use text.Mathlib.TextEquality.{eq_iff}

abbrev pub Dict : Type 0 → Type 0
Dict V = List (String × V)

module _ {V : Type 0} where
  unfoldable pub lookup : String → Dict V → Option V
  lookup k [] = none
  lookup k ((j, v) ∷ d) = if j == k then some v else lookup k d

  -- `m[k] = v`
  unfoldable pub insert : String → V → Dict V → Dict V
  insert k v [] = (k, v) ∷ []
  insert k v ((j, w) ∷ d) = if j == k then (k, v) ∷ d else (j, w) ∷ insert k v d

  -- `maps.Copy(d, m)`: each entry of `m` is written into `d`, here the last one first
  unfoldable pub copy_into : Dict V → Dict V → Dict V
  copy_into d [] = d
  copy_into d ((k, v) ∷ m) = insert k v (copy_into d m)

  pub lookup-nil : (k : String) → lookup k [] ≡ none
  unfolding lookup
  lookup-nil k = refl

  pub lookup-insert :
      (k j : String) (v : V) (d : Dict V)
      → lookup j (insert k v d) ≡ (if k == j then some v else lookup j d)
  unfolding lookup insert
  lookup-insert k j v [] = refl
  lookup-insert k j v ((i, w) ∷ d) =
      ground (arith, eq_iff k j, eq_iff i k, eq_iff i j, lookup-insert k j v d)

  abbrev pub or_else : Option V → Option V → Option V
  or_else none o = o
  or_else (some v) o = some v

  pub lookup-copy_into :
      (j : String) (d m : Dict V) → lookup j (copy_into d m) ≡ or_else (lookup j m) (lookup j d)
  unfolding lookup copy_into
  lookup-copy_into j d [] = refl
  lookup-copy_into j d ((k, v) ∷ m) =
      ground (arith, lookup-insert k j v (copy_into d m), lookup-copy_into j d m)
