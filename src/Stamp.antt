-- ===== src/Stamp.antt =====
-- cnftools/src/util/Stamp.h: a set of indices that is emptied by moving on to the next stamp.
-- The element type is given by its greatest value `top`; its least value is 0.
pub mod Sets
mod Tests
use ignore_gates.Prelude.{
  ℕ, suc, ◌-◌, Bool, List, [], ◌∷◌, ◌++◌, ◌==◌, ltb, if◌then◌else◌, length, get_or, set, replicate,
}

pub record Stamp : Type 0 where
  pub stamped : List ℕ
  pub stamp : ℕ

unfoldable pub clear : ℕ → Stamp → Stamp
clear top s =
    if ltb s.stamp top
    then record s { stamp = suc s.stamp }
    else record { stamped = replicate (length s.stamped) 0; stamp = 1 }

-- The constructor for `size` indices, after the one for none.
unfoldable pub init : ℕ → ℕ → Stamp
unfolding clear
init top size =
    let none = clear top (record { stamped = []; stamp = 0 }) in
    clear top (record { stamped = none.stamped ++ replicate size 0; stamp = 0 })

unfoldable pub grow : Stamp → Stamp
grow s = record s { stamped = s.stamped ++ (0 ∷ []) }

unfoldable pub grow_to : ℕ → Stamp → Stamp
grow_to size s =
    if ltb (length s.stamped) size
    then record s { stamped = s.stamped ++ replicate (size - length s.stamped) 0 }
    else s

abbrev pub size : Stamp → ℕ
size s = length s.stamped

-- Both assert that the index is below the size.
unfoldable pub unset : ℕ → Stamp → Stamp
unset index s = record s { stamped = set s.stamped index 0 }

unfoldable pub set_stamp : ℕ → Stamp → Stamp
set_stamp index s = record s { stamped = set s.stamped index s.stamp }

abbrev pub is_stamped : Stamp → ℕ → Bool
is_stamped s index = get_or s.stamped index 0 == s.stamp
