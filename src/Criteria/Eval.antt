-- ===== src/Criteria/Eval.antt =====
-- swayr/src/criteria.rs: `eval_criterion` and `criterion_to_predicate`.
pub mod Laws
use swayr.Base.{
  ℤ, Bool, true, false, not, ◌&&◌, Option, none, some, String, List, [], ◌∷◌, Outcome, ret, panic,
  ◌>>=◌, any, find, if◌then◌else◌, PartialEq, ◌==◌, int_eq, string_eq, option_beq, option_eq,
}
use swayr.Swayipc.{ShellType, WindowProperties, Info, Node, info, shell_eq}
use swayr.Ipc.{Kind, get_app_name, get_name, is_floating, wp_class, wp_instance}
use swayr.Tree.Build.{get_parent_node_of_type}
use swayr.Tree.Listing.{DisplayNode}
use swayr.Criteria.Syntax.{
  Externs, RegexOrFocused, I64OrFocused, ShellTypeOrFocused, Criterion, Criteria, nil, cons,
}

unfoldable pub is_some_and_rx_matches : Externs → Option String → String → Bool
is_some_and_rx_matches x none rx = false
is_some_and_rx_matches x (some s) rx = x.is_match rx s

unfoldable pub are_some_and_equal : {A : Type 0} → (A → A → Bool) → Option A → Option A → Bool
are_some_and_equal beq (some a) (some b) = beq a b
are_some_and_equal beq _ _ = false

abbrev text_beq : String → String → Bool
text_beq s t = s == t

-- The tests of a text that a node may have: by a pattern, or by the text of the focused window.
unfoldable pub eval_text :
    Externs → (Info → Option String) → RegexOrFocused → Info → Option Info → Bool
unfolding is_some_and_rx_matches are_some_and_equal
eval_text x field (RegexOrFocused.regex rx) w focused = is_some_and_rx_matches x (field w) rx
eval_text x field RegexOrFocused.focused w none = false
eval_text x field RegexOrFocused.focused w (some win) =
    are_some_and_equal text_beq (field w) (field win)

unfoldable pub eval_app_name : Externs → RegexOrFocused → Node → Option Node → Bool
unfolding get_app_name
eval_app_name x (RegexOrFocused.regex rx) w focused = x.is_match rx (get_app_name w)
eval_app_name x RegexOrFocused.focused w none = false
eval_app_name x RegexOrFocused.focused w (some win) = not (get_app_name w == get_app_name win)

abbrev shell_is : ShellType → ShellType → Bool
shell_is s t = s == t

unfoldable pub eval_shell : ShellTypeOrFocused → Info → Option Info → Bool
unfolding are_some_and_equal
eval_shell (ShellTypeOrFocused.shell_type t) w focused = option_beq w.shell (some t)
eval_shell ShellTypeOrFocused.focused w none = false
eval_shell ShellTypeOrFocused.focused w (some win) = are_some_and_equal shell_is w.shell win.shell

unfoldable pub eval_con_id : I64OrFocused → Info → Bool
eval_con_id (I64OrFocused.i64 id) w = w.id == id
eval_con_id I64OrFocused.focused w = w.focused

abbrev workspace_of : DisplayNode → Outcome (Option Node)
workspace_of w = get_parent_node_of_type w.tree (info w.shown).id Kind.workspace

abbrev name_of : Option Node → Option String
name_of none = none
name_of (some ws) = some (get_name ws)

unfoldable pub eval_workspace :
    Externs → RegexOrFocused → DisplayNode → Option DisplayNode → Outcome Bool
unfolding get_parent_node_of_type get_name is_some_and_rx_matches are_some_and_equal
eval_workspace x (RegexOrFocused.regex rx) w focused = do
  ws ← workspace_of w
  ret (is_some_and_rx_matches x (name_of ws) rx)
eval_workspace x RegexOrFocused.focused w none = ret false
eval_workspace x RegexOrFocused.focused w (some win) = do
  a ← workspace_of w
  b ← workspace_of win
  ret (are_some_and_equal x.node_beq a b)

abbrev info_of : Option DisplayNode → Option Info
info_of none = none
info_of (some d) = some (info d.shown)

abbrev node_of : Option DisplayNode → Option Node
node_of none = none
node_of (some d) = some d.shown

-- `all` and `any` stop at the first criterion that decides.
unfoldable mutual
  unfolding eval_text eval_app_name eval_shell eval_con_id eval_workspace is_floating

  pub eval_criterion : Externs → Criterion → DisplayNode → Option DisplayNode → Outcome Bool
  eval_criterion x (Criterion.and cs) w focused = eval_all x cs w focused
  eval_criterion x (Criterion.or cs) w focused = eval_any x cs w focused
  eval_criterion x (Criterion.negated c) w focused = do
    b ← eval_criterion x c w focused
    ret (not b)
  eval_criterion x (Criterion.app_id val) w focused =
      ret (eval_text x (λ n. n.app_id) val (info w.shown) (info_of focused))
  eval_criterion x (Criterion.app_name val) w focused =
      ret (eval_app_name x val w.shown (node_of focused))
  eval_criterion x (Criterion.class val) w focused =
      ret (eval_text x wp_class val (info w.shown) (info_of focused))
  eval_criterion x (Criterion.instance_name val) w focused =
      ret (eval_text x wp_instance val (info w.shown) (info_of focused))
  eval_criterion x (Criterion.shell val) w focused =
      ret (eval_shell val (info w.shown) (info_of focused))
  eval_criterion x (Criterion.con_id val) w focused = ret (eval_con_id val (info w.shown))
  eval_criterion x (Criterion.con_mark rx) w focused =
      ret (any (λ m. x.is_match rx m) (info w.shown).marks)
  eval_criterion x (Criterion.pid p) w focused = ret (option_beq (info w.shown).pid (some p))
  eval_criterion x (Criterion.workspace val) w focused = eval_workspace x val w focused
  eval_criterion x Criterion.floating w focused = ret (is_floating w.shown)
  eval_criterion x Criterion.tiling w focused = ret (not (is_floating w.shown))
  eval_criterion x (Criterion.title val) w focused =
      ret (eval_text x (λ n. n.name) val (info w.shown) (info_of focused))

  pub eval_all : Externs → Criteria → DisplayNode → Option DisplayNode → Outcome Bool
  eval_all x nil w focused = ret true
  eval_all x (cons c cs) w focused =
      let rest = eval_all x cs w focused in
      eval_criterion x c w focused >>= λ b. if b then rest else ret false

  pub eval_any : Externs → Criteria → DisplayNode → Option DisplayNode → Outcome Bool
  eval_any x nil w focused = ret false
  eval_any x (cons c cs) w focused =
      let rest = eval_any x cs w focused in
      eval_criterion x c w focused >>= λ b. if b then ret true else rest

unfoldable pub criterion_to_predicate :
    Externs → Criterion → List DisplayNode → DisplayNode → Outcome Bool
unfolding eval_criterion
criterion_to_predicate x c all_windows w =
    eval_criterion x c w (find (λ d. (info d.shown).focused) all_windows)
