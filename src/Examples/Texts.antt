-- ===== src/Examples/Texts.antt =====
-- The theorems on texts that are shown, at short ones.
use swayr.Examples.Data.{floats}
use swayr.Base.Texts.{◌<>◌}
use swayr.Util.{chosen, has_nul, select}
use swayr.Util.Laws.{select-chosen}
use swayr.Base.{[], ◌∷◌, ◌++◌, Outcome, ret, Option, some, String, true, ◌≡◌, refl}
use swayr.Fmt.{FmtArg, maybe_html_escape}
use swayr.Fmt.Laws.{escape_each, maybe_html_escape_lem}

-- The entity is escaped once more.
escaped_twice : maybe_html_escape true "a<b" ≡ "a&amp;lt;b"
unfolding maybe_html_escape
escaped_twice = refl

maybe_html_escape_lem_example : maybe_html_escape true "a<b" ≡ escape_each "a<b"
maybe_html_escape_lem_example = maybe_html_escape_lem "a<b"

-- A format that keeps five characters of a longer text.
abbrev five : String → FmtArg floats → Option String
five fmt arg = some "Hello"

abbrev itself : String → Outcome String
itself s = ret s

-- The second of three entries is chosen.
select-chosen_example :
    select itself (("web" ∷ []) ++ "mail" ∷ "chat" ∷ []) ("mail" <> "\n") ≡ ret (chosen "mail")
unfolding has_nul
select-chosen_example =
    select-chosen itself (λ s. s) ("web" ∷ []) ("chat" ∷ []) "mail"
      ((refl, refl), ((refl, refl), ((refl, refl), tt))) (refl, tt)
