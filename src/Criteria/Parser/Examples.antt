-- ===== src/Criteria/Parser/Examples.antt =====
-- criteria.rs: the parser on the texts of the program's own tests, and on some more.
use swayr.Base.{◌≡◌, refl, true, false, none, some, pos}
use swayr.Swayipc.{ShellType}
use swayr.Criteria.Syntax.{
  Externs, RegexOrFocused, I64OrFocused, ShellTypeOrFocused, Criterion, nil, cons,
}
use swayr.Criteria.Parser.{parse_criteria}

abbrev all_compile : Externs
all_compile = record {
  compiles = λ s. true;
  is_match = λ p s. false;
  first_group = λ p s. none;
  node_beq = λ a b. false;
}

parse_empty :
    (parse_criteria all_compile "[]" ≡ some (Criterion.and nil))
    × (parse_criteria all_compile "[and]" ≡ some (Criterion.and nil))
    × (parse_criteria all_compile "[&&]" ≡ some (Criterion.and nil))
    × (parse_criteria all_compile "[or]" ≡ some (Criterion.or nil))
    × (parse_criteria all_compile "[||]" ≡ some (Criterion.or nil))
unfolding parse_criteria
parse_empty = (refl, refl, refl, refl, refl)

parse_not :
    (parse_criteria all_compile "not tiling" ≡ some (Criterion.negated Criterion.tiling))
    × (parse_criteria all_compile "!tiling" ≡ some (Criterion.negated Criterion.tiling))
    × (parse_criteria all_compile "! tiling" ≡ some (Criterion.negated Criterion.tiling))
unfolding parse_criteria
parse_not = (refl, refl, refl)

parse_many :
    parse_criteria all_compile
      "[tiling floating app_id=__focused__ instance = \"the.instance\" con_id=17 shell=\"xwayland\"]"
    ≡ some (
        Criterion.and (
          cons Criterion.tiling (
            cons Criterion.floating (
              cons (Criterion.app_id RegexOrFocused.focused) (
                cons (Criterion.instance_name (RegexOrFocused.regex "the.instance")) (
                  cons (Criterion.con_id (I64OrFocused.i64 (pos 17))) (
                    cons
                      (Criterion.shell (ShellTypeOrFocused.shell_type ShellType.xwayland))
                      nil)))))))
unfolding parse_criteria
parse_many = refl

parse_fails :
    (parse_criteria all_compile "pid=2147483648" ≡ none)
    × (parse_criteria all_compile "tiling " ≡ none)
    × (parse_criteria all_compile "[tiling" ≡ none)
unfolding parse_criteria
parse_fails = (refl, refl, refl)
