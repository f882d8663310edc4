-- ===== src/Domain/TaskName.antt =====
-- `TaskName` of crates/tracker-domain/src/task.rs. A text is its list of Unicode scalar values.
pub mod Trim
pub mod Accepted
use time_tracker.Prelude.{
  ℕ, Bool, true, false, ◌||◌, ◌&&◌, List, [], ◌∷◌, Result, ok, err, ltb, leb, ◌==◌, if◌then◌else◌,
  any, length, list_eq,
}

-- `char::is_whitespace`: the property White_Space.
unfoldable pub is_whitespace : ℕ → Bool
is_whitespace c =
    (leb 9 c && leb c 13)
    || c == 32
    || c == 0x85
    || c == 0xa0
    || c == 0x1680
    || (leb 0x2000 c && leb c 0x200a)
    || c == 0x2028
    || c == 0x2029
    || c == 0x202f
    || c == 0x205f
    || c == 0x3000

-- `char::is_control`: the two blocks of controls and DEL.
unfoldable pub is_control : ℕ → Bool
is_control c = ltb c 32 || (leb 127 c && leb c 159)

unfoldable pub trim_start : List ℕ → List ℕ
trim_start [] = []
trim_start (c ∷ cs) = let rest = trim_start cs in if is_whitespace c then rest else c ∷ cs

-- A character before what is left of the text behind it.
unfoldable pub settle : ℕ → List ℕ → List ℕ
settle c [] = if is_whitespace c then [] else c ∷ []
settle c (d ∷ ds) = c ∷ d ∷ ds

unfoldable pub trim_end : List ℕ → List ℕ
unfolding settle
trim_end [] = []
trim_end (c ∷ cs) = settle c (trim_end cs)

unfoldable pub trim : List ℕ → List ℕ
unfolding trim_start trim_end
trim raw = trim_end (trim_start raw)

abbrev pub is_empty : List ℕ → Bool
is_empty [] = true
is_empty (c ∷ cs) = false

pub record TaskName : Type 0 where
  pub text : List ℕ

pub data TaskNameError : Type 0 where
  empty control too_long : TaskNameError

abbrev pub max_len : ℕ
max_len = 256

unfoldable pub new : List ℕ → Result TaskNameError TaskName
new raw =
    let trimmed = trim raw in
    if is_empty trimmed
    then err empty
    else if any is_control trimmed
    then err control
    else if ltb max_len (length trimmed)
    then err too_long
    else ok (record { text = trimmed })

-- The derived equality of two names.
unfoldable pub name_eq : TaskName → TaskName → Bool
unfolding list_eq
name_eq a b = list_eq a.text b.text
