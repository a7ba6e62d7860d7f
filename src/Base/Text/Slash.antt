-- ===== src/Base/Text/Slash.antt =====
-- A text that is cut at its first slash.
use Prim.Native.Char.{Char}
use Prim.Native.String.{String, [], ◌∷◌, ◌++◌ as ◌<>◌}
use mathlib.Core.Path.{◌≡◌, refl, ◌∙◌, ap}
use mathlib.Core.Bool.{false}
use mathlib.Core.Option.{some}
use text.Mathlib.TextLemmas.{nil-append, cons-append}
use cluster_api_ipam_provide.Base.Tests.{◌==◌}
use cluster_api_ipam_provide.Base.Text.{cut}
use cluster_api_ipam_provide.Base.Text.Trim.{Chars}

-- No character is a slash.
abbrev pub NoSlash : String → Type 0
NoSlash = Chars (λ c. (c == b'/') ≡ false)

-- the slash as a character
abbrev slash : Char
slash = "/"

slash_front : (s : String) → "/" <> s ≡ slash ∷ s
slash_front s = cons-append slash [] s ∙ ap (λ r. slash ∷ r) (nil-append s)

cut_front : (s : String) → cut b'/' (slash ∷ s) ≡ some ("", s)
unfolding cut
cut_front s = refl

pub cut_slash : (host s : String) → NoSlash host → cut b'/' (host <> ("/" <> s)) ≡ some (host, s)
unfolding cut
cut_slash [] s h = ap (cut b'/') (nil-append ("/" <> s) ∙ slash_front s) ∙ cut_front s
cut_slash (c ∷ host) s (e, h) =
    ap (cut b'/') (cons-append c host ("/" <> s)) ∙ rw e (rw (cut_slash host s h) refl)
