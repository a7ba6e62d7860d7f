-- ===== src/Base/Text.antt =====
-- Go's `strings` functions that the program calls, over sequences of code points.
pub mod Trim
pub mod Slash
use cluster_api_ipam_provide.Base.Tests.{leb, ◌==◌, if◌then◌else◌, is_some}
use Prim.Native.Nat.{ℕ}
use Prim.Native.Char.{Char, code}
use Prim.Native.String
use Prim.Native.String.{String, [], ◌∷◌}
use mathlib.Core.Bool.{Bool, true, false, ◌||◌, ◌&&◌}
use mathlib.Core.Option.{Option, none, some}
use mathlib.Core.List.{List, [], ◌∷◌}
use text.Mathlib.Text.{find?}

-- `unicode.IsSpace`
abbrev pub is_space : ℕ → Bool
is_space c =
    (leb 9 c && leb c 13)
    || (c == 0x20)
    || (c == 0x85)
    || (c == 0xA0)
    || (c == 0x1680)
    || (leb 0x2000 c && leb c 0x200A)
    || (c == 0x2028)
    || (c == 0x2029)
    || (c == 0x202F)
    || (c == 0x205F)
    || (c == 0x3000)

abbrev pub is_empty : String → Bool
is_empty [] = true
is_empty (c ∷ s) = false

-- `strings.TrimLeftFunc` and `strings.TrimRightFunc`
unfoldable pub trim_left : (ℕ → Bool) → String → String
trim_left p [] = []
trim_left p (c ∷ s) = let rest = trim_left p s in if p (code c) then rest else c ∷ s

unfoldable pub trim_right : (ℕ → Bool) → String → String
trim_right p [] = []
trim_right p (c ∷ s) =
    let rest = trim_right p s in if is_empty rest && p (code c) then [] else c ∷ rest

unfoldable pub trim : (ℕ → Bool) → String → String
unfolding trim_left trim_right
trim p s = trim_right p (trim_left p s)

-- `strings.TrimSpace`
unfoldable pub trim_space : String → String
unfolding trim
trim_space = trim is_space

abbrev pub push_front : Char → List String → List String
push_front c [] = (c ∷ []) ∷ []
push_front c (part ∷ parts) = (c ∷ part) ∷ parts

-- `strings.Split(s, sep)` for a separator of one character
unfoldable pub split : ℕ → String → List String
split sep [] = [] ∷ []
split sep (c ∷ s) =
    let parts = split sep s in if code c == sep then [] ∷ parts else push_front c parts

-- `strings.SplitN(s, sep, 2)`, when it has two parts
unfoldable pub cut : ℕ → String → Option (String × String)
cut sep [] = none
cut sep (c ∷ s) =
    let rest = cut sep s in
    if code c == sep
    then some ([], s)
    else elim rest [ none ↦ none | some (before, after) ↦ some (c ∷ before, after) ]

-- `strings.Join(parts, sep)`
unfoldable pub join : String → List String → String
join sep [] = []
join sep (part ∷ []) = part
join sep (part ∷ next ∷ parts) = String.◌++◌ part (String.◌++◌ sep (join sep (next ∷ parts)))

-- `strings.Contains`
unfoldable pub contains : String → String → Bool
contains s part = is_some (find? s part)
