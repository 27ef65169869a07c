-- ===== src/Types/Lbool.antt =====
-- cnftools/src/util/SolverTypes.h, class `lbool`: a three-valued truth value in one byte, with
-- conjunction and disjunction by a shifted table.
use ignore_gates.Prelude.{
  ℕ, ◌+◌, ◌-◌, ◌*◌, ◌/◌, ◌%◌, ◌^◌, ◌≡◌, refl, Bool, true, ◌==◌, if◌then◌else◌,
}

-- The byte `value`: 0 is true, 1 is false, and 2 or 3 is undefined.
abbrev pub Lbool : Type 0
Lbool = ℕ

abbrev pub l_true : Lbool
l_true = 0

abbrev pub l_false : Lbool
l_false = 1

abbrev pub l_undef : Lbool
l_undef = 2

abbrev bit_2 : ℕ → ℕ
bit_2 v = v / 2 % 2

-- `operator ==`: `((b & 2) & (v & 2)) | (!(b & 2) & (v == b))`
unfoldable pub lbool_eq : Lbool → Lbool → Bool
lbool_eq v b = if bit_2 b == 1 then bit_2 v == 1 else v == b

-- `operator ^`
unfoldable pub lbool_xor : Lbool → Bool → Lbool
lbool_xor v b = if v == 2 then l_undef else if b then (if v % 2 == 0 then v + 1 else v - 1) else v

-- `sel` is a byte: `(value << 1) | (b.value << 3)`, for values below 4.
abbrev sel : Lbool → Lbool → ℕ
sel v b = (v * 2 + b * 8) % 2 ^ 8

-- `(0xF7F755F4 >> sel) & 3`
unfoldable pub lbool_and : Lbool → Lbool → Lbool
lbool_and v b = 0xF7F755F4 / 2 ^ sel v b % 4

-- `(0xFCFCF400 >> sel) & 3`
unfoldable pub lbool_or : Lbool → Lbool → Lbool
lbool_or v b = 0xFCFCF400 / 2 ^ sel v b % 4

-- The three truth values and their strong conjunction and disjunction.
pub data Truth : Type 0 where
  yes_value no_value unknown : Truth

abbrev pub and_truth : Truth → Truth → Truth
and_truth no_value _ = no_value
and_truth yes_value t = t
and_truth unknown no_value = no_value
and_truth unknown _ = unknown

abbrev pub or_truth : Truth → Truth → Truth
or_truth yes_value _ = yes_value
or_truth no_value t = t
or_truth unknown yes_value = yes_value
or_truth unknown _ = unknown

abbrev pub not_truth : Truth → Truth
not_truth yes_value = no_value
not_truth no_value = yes_value
not_truth unknown = unknown

-- The byte that stands for a truth value.
abbrev pub byte : Truth → Lbool
byte yes_value = l_true
byte no_value = l_false
byte unknown = l_undef

-- On the three named values, `&&` is the strong three-valued conjunction, `||` the disjunction,
-- and `^` with true the negation, which leaves the undefined value alone.
pub lbool_tables :
    (s t : Truth)
    → (lbool_eq (lbool_and (byte s) (byte t)) (byte (and_truth s t)) ≡ true)
      × (lbool_eq (lbool_or (byte s) (byte t)) (byte (or_truth s t)) ≡ true)
      × (lbool_xor (byte s) true ≡ byte (not_truth s))
unfolding lbool_and lbool_or lbool_xor lbool_eq
lbool_tables yes_value yes_value = (refl, refl, refl)
lbool_tables yes_value no_value = (refl, refl, refl)
lbool_tables yes_value unknown = (refl, refl, refl)
lbool_tables no_value yes_value = (refl, refl, refl)
lbool_tables no_value no_value = (refl, refl, refl)
lbool_tables no_value unknown = (refl, refl, refl)
lbool_tables unknown yes_value = (refl, refl, refl)
lbool_tables unknown no_value = (refl, refl, refl)
lbool_tables unknown unknown = (refl, refl, refl)
