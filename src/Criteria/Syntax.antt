-- ===== src/Criteria/Syntax.antt =====
-- swayr/src/criteria.rs: the criteria. A compiled regular expression is known by its pattern. The
-- crate `regex` and the comparison of whole nodes are parameters.
use swayr.Base.{ℤ, Bool, String, Option}
use swayr.Swayipc.{ShellType, Node}

-- The crate `regex`: whether a pattern compiles, whether it matches somewhere in a text, and the text
-- of its first group in the leftmost match; and `PartialEq` of `swayipc::Node`.
pub record Externs : Type 0 where
  pub compiles : String → Bool
  pub is_match : String → String → Bool
  pub first_group : String → String → Option String
  pub node_beq : Node → Node → Bool

pub data RegexOrFocused : Type 0 where
  regex : String → RegexOrFocused
  focused : RegexOrFocused

pub data I64OrFocused : Type 0 where
  i64 : ℤ → I64OrFocused
  focused : I64OrFocused

pub data ShellTypeOrFocused : Type 0 where
  shell_type : ShellType → ShellTypeOrFocused
  focused : ShellTypeOrFocused

mutual
  pub data Criterion : Type 0 where
    and or : Criteria → Criterion
    negated : Criterion → Criterion
    app_id class instance_name app_name title : RegexOrFocused → Criterion
    con_mark : String → Criterion
    con_id : I64OrFocused → Criterion
    pid : ℤ → Criterion
    workspace : RegexOrFocused → Criterion
    shell : ShellTypeOrFocused → Criterion
    floating tiling : Criterion

  pub data Criteria : Type 0 where
    nil : Criteria
    cons : Criterion → Criteria → Criteria
