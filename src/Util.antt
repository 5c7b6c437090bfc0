-- ===== src/Util.antt =====
-- swayr/src/util.rs: `select_from_menu`, without the start of the menu program: its entries, and what
-- its answer selects.
pub mod Laws
pub mod Paths
pub mod Icons
use Prim.Native.Char.{code}
use Prim.Native.String.{[], ◌∷◌}
use swayr.Base.{
  Bool, false, ◌||◌, none, some, String, List, Outcome, ret, ◌>>=◌, if◌then◌else◌, nat_beq,
  string_eq,
}
use swayr.Base.Dict.{get, insert}

-- `s.contains('\0')`.
unfoldable pub has_nul : String → Bool
has_nul [] = false
has_nul (c ∷ s) = nat_beq (code c) 0 || has_nul s

-- `s.split('\0').next()`.
unfoldable pub before_nul : String → String
before_nul [] = []
before_nul (c ∷ s) = let rest = before_nul s in if nat_beq (code c) 0 then [] else c ∷ rest

-- `String::pop`.
unfoldable pub pop : String → String
pop [] = []
pop (c ∷ []) = []
pop (c ∷ d ∷ s) = c ∷ pop (d ∷ s)

-- What `select_from_menu` returns: a choice, or the text that matches none.
pub data Selected {ℓ} (A : Type ℓ) : Type ℓ where
  chosen : A → Selected A
  typed : String → Selected A

module _ {A : Type 0} where
  unfoldable pub insert_entry : String → A → List (String × A) → List (String × A)
  unfolding insert has_nul before_nul
  insert_entry s c m = insert s c (if has_nul s then insert (before_nul s) c m else m)

  -- The `for` loop over the choices.
  unfoldable pub menu_map :
      (A → Outcome String) → List A → List (String × A) → Outcome (List (String × A))
  unfolding insert_entry
  menu_map format List.[] m = ret m
  menu_map format (List.◌∷◌ c choices) m = do
    s ← format c
    menu_map format choices (insert_entry s c m)

  unfoldable pub selected_by : List (String × A) → String → Selected A
  unfolding get
  selected_by m choice = elim (get choice m) [ some c ↦ chosen c | none ↦ typed choice ]

  -- From what the menu program prints.
  unfoldable pub select : (A → Outcome String) → List A → String → Outcome (Selected A)
  unfolding menu_map selected_by pop
  select format choices stdout = do
    m ← menu_map format choices List.[]
    ret (selected_by m (pop stdout))
