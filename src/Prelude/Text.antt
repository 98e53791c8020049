-- ===== src/Prelude/Text.antt =====
-- Texts that are put together: `format!`, `join` on a slice of texts, and the codes of the result.
use Prim.Native.String.{String}
use Prim.Native.String.append
use Prim.Native.String.{◌++◌ as text_append}
use Prim.Native.Char.{code}
use mathlib.Core.Path.{◌≡◌, ap, ◌∙◌}
use mathlib.Core.List.{List, [], ◌∷◌, ◌++◌}
use mxfactorial.Prelude.Numeral.{codes}

-- `format!`: its literals and arguments, in order.
abbrev pub format : List String → String
format [] = ""
format (s ∷ rest) = text_append s (format rest)

-- `join`: the separator between each two.
abbrev pub join : String → List String → String
join separator [] = ""
join separator (s ∷ []) = s
join separator (s ∷ t ∷ rest) = text_append s (text_append separator (join separator (t ∷ rest)))

pub codes-append : (s t : String) → codes (text_append s t) ≡ codes s ++ codes t
codes-append String.[] t = ap codes (append.nil t)
codes-append (String.◌∷◌ c s) t =
    ap codes (append.cons c s t) ∙ ap (λ l. code c ∷ l) (codes-append s t)
