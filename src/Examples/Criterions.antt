-- ===== src/Examples/Criterions.antt =====
-- The theorems on criteria at two windows, with patterns that match equal texts.
use swayr.Base.{◌≡◌, string_eq, arith}
use swayr.Criteria.Syntax.{RegexOrFocused, Criterion, Criteria, nil, cons}
use swayr.Criteria.Parser.{parse_criteria, criterion, space, whole, ◌>>◌, size_of}
use swayr.Criteria.Parser.Fuel.{parse_criteria-fuel}
use swayr.Examples.Data.{externs}

abbrev mail : Criteria
mail = cons (Criterion.app_id (RegexOrFocused.regex "foot")) (cons Criterion.floating nil)

-- A text with nested lists.
parse_criteria-fuel_example :
    parse_criteria externs "[or [! tiling] floating]"
    ≡ whole ((space >> criterion externs 100) "[or [! tiling] floating]")
unfolding size_of
parse_criteria-fuel_example =
    parse_criteria-fuel externs "[or [! tiling] floating]" 100 (omega arith)
