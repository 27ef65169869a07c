-- ===== src/Types/Tests.antt =====
-- Runs of the truth values.
use ignore_gates.Prelude.{◌≡◌, true}
use ignore_gates.Types.Lbool.{
  lbool_eq, lbool_xor, lbool_and, lbool_or, yes_value, unknown, byte, and_truth, or_truth,
  not_truth, lbool_tables,
}

lbool_tables_example :
    (lbool_eq (lbool_and (byte yes_value) (byte unknown)) (byte (and_truth yes_value unknown))
      ≡ true)
    × (lbool_eq (lbool_or (byte yes_value) (byte unknown)) (byte (or_truth yes_value unknown))
        ≡ true)
    × (lbool_xor (byte yes_value) true ≡ byte (not_truth yes_value))
lbool_tables_example = lbool_tables yes_value unknown
