-- ===== src/Examples/Data.antt =====
-- A tree with one output, its workspace and three windows, and the focus data for it.
use swayr.Criteria.Syntax.{Externs}
use swayr.Tree.Listing.{DisplayNode, fixed}
use swayr.Base.{int_eq, string_eq, ◌==◌, ◌*◌, ℕ, pos, Bool, true, false, none, some, [], ◌∷◌}
use swayr.Fmt.{Floats}
use swayr.Base.Texts.{show_nat}
use swayr.Swayipc.{NodeType, NodeLayout, Info, Node, info, node, nil, cons}
use swayr.Wire.{Sway, Wire}
use swayr.Focus.{FocusData}

abbrev pub blank : Info
blank = record {
  id = pos 0;
  name = none;
  node_type = NodeType.con;
  layout = NodeLayout.no_layout;
  width = pos 400;
  focused = false;
  urgent = false;
  marks = [];
  app_id = none;
  pid = none;
  shell = none;
  window_properties = none;
}

abbrev pub window : ℕ → Bool → Bool → Node
window id focused urgent =
    node
      (record blank {
        id = pos id;
        name = some "title";
        app_id = some "foot";
        pid = some (pos (id * 10));
        focused = focused;
        urgent = urgent;
      })
      nil nil

-- The window 1 has the focus.
abbrev pub workspace : Node
workspace =
    node
      (record blank {
        id = pos 10;
        name = some "1:web";
        node_type = NodeType.workspace;
        layout = NodeLayout.split_h;
        width = pos 1000;
      })
      (cons (window 1 true false) (cons (window 2 false false) (cons (window 3 false false) nil)))
      nil

abbrev pub output : Node
output =
    node
      (record blank {
        id = pos 11;
        name = some "DP-1";
        node_type = NodeType.output;
        width = pos 1000;
      })
      (cons workspace nil) nil

abbrev pub root : Node
root =
    node (record blank { id = pos 12; name = some "root"; node_type = NodeType.root })
      (cons output nil) nil

abbrev pub sway : Sway
sway = record { connects = true; tree = some root; accepts = λ cmd. true }

abbrev pub wire : Wire
wire = record { sway = λ n. sway; now = 0; sent = [] }

-- The window 3 had the focus before the window 1 got it, and the window 2 before that.
abbrev pub fdata : FocusData
fdata = record {
  focus_tick_by_id = (pos 1, 7) ∷ (pos 2, 3) ∷ (pos 3, 5) ∷ [];
  focus_chan = [];
  receiving = true;
}

-- A session without sway.
abbrev pub deaf : Wire
deaf = record {
  sway = λ n. record { connects = false; tree = none; accepts = λ cmd. false };
  now = 0;
  sent = [];
}

-- Patterns that match equal texts only, and have no groups.
abbrev pub externs : Externs
externs = record {
  compiles = λ rx. true;
  is_match = λ rx s. rx == s;
  first_group = λ rx s. none;
  node_beq = λ a b. (info a).id == (info b).id;
}

abbrev pub display : Node → DisplayNode
display n = record {
  shown = n;
  tree = record { root = root; maps = record { id_node = []; id_parent = [] } };
  indent_level = fixed 0;
}

-- Floats that are natural numbers.
abbrev pub floats : Floats
floats = record { F32 = ℕ; F64 = ℕ; show_f32 = show_nat; show_f64 = show_nat }
