-- ===== src/Swayipc.antt =====
-- The types of the crate `swayipc` that the program reads: the node tree that sway reports. Only
-- the fields and variants that the program names are kept; `other` stands for every other variant.
use swayr.Base.{Bool, ℕ, ℤ, Option, String, List, [], ◌∷◌, ◌≡◌, PartialEq, nat_beq, arith}
use mathlib.Core.Bool.{true, false}
use mathlib.Core.Logic.{◌↔◌}

pub data NodeType : Type 0 where
  root output workspace con floating_con : NodeType
  other : ℕ → NodeType

pub data NodeLayout : Type 0 where
  split_h split_v stacked tabbed no_layout : NodeLayout
  other : ℕ → NodeLayout

pub data ShellType : Type 0 where
  xdg_shell xwayland : ShellType
  other : ℕ → ShellType

pub record WindowProperties : Type 0 where
  pub class : Option String
  pub instance_name : Option String

-- A node without its children.
pub record Info : Type 0 where
  pub id : ℤ
  pub name : Option String
  pub node_type : NodeType
  pub layout : NodeLayout
  pub width : ℤ
  pub focused : Bool
  pub urgent : Bool
  pub marks : List String
  pub app_id : Option String
  pub pid : Option ℤ
  pub shell : Option ShellType
  pub window_properties : Option WindowProperties

-- `nodes` and `floating_nodes` are the children.
mutual
  pub data Node : Type 0 where
    node : Info → Nodes → Nodes → Node

  pub data Nodes : Type 0 where
    nil : Nodes
    cons : Node → Nodes → Nodes

abbrev pub info : Node → Info
info (node d ns fs) = d

abbrev pub to_list : Nodes → List Node
to_list nil = []
to_list (cons n ns) = n ∷ to_list ns

-- The fields `nodes` and `floating_nodes`.
abbrev pub nodes : Node → List Node
nodes (node d ns fs) = to_list ns

abbrev pub floating_nodes : Node → List Node
floating_nodes (node d ns fs) = to_list fs

-- `retain` on the field `nodes`.
abbrev pub of_list : List Node → Nodes
of_list [] = nil
of_list (n ∷ ns) = cons n (of_list ns)

abbrev pub with_nodes : Node → List Node → Node
with_nodes (node d ns fs) l = node d (of_list l) fs

abbrev pub layout_beq : NodeLayout → NodeLayout → Bool
layout_beq NodeLayout.split_h NodeLayout.split_h = true
layout_beq NodeLayout.split_v NodeLayout.split_v = true
layout_beq NodeLayout.stacked NodeLayout.stacked = true
layout_beq NodeLayout.tabbed NodeLayout.tabbed = true
layout_beq NodeLayout.no_layout NodeLayout.no_layout = true
layout_beq (NodeLayout.other a) (NodeLayout.other b) = nat_beq a b
layout_beq _ _ = false

abbrev pub shell_beq : ShellType → ShellType → Bool
shell_beq ShellType.xdg_shell ShellType.xdg_shell = true
shell_beq ShellType.xwayland ShellType.xwayland = true
shell_beq (ShellType.other a) (ShellType.other b) = nat_beq a b
shell_beq _ _ = false

pub shell_beq_iff : (a b : ShellType) → (shell_beq a b ≡ true) ↔ (a ≡ b)
shell_beq_iff ShellType.xdg_shell b = ground arith
shell_beq_iff ShellType.xwayland b = ground arith
shell_beq_iff (ShellType.other a) b = ground arith

instance abbrev pub shell_eq : PartialEq ShellType
shell_eq = record { is_eq = shell_beq; is_eq_iff = shell_beq_iff }
