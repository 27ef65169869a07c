-- ===== src/Features/GateReport.antt =====
-- cnftools/src/features/GateStats.h: the counts of gate types, and the lines printed for the gates,
-- which are the whole output of the tool `aux` (cnftools/src/Main.cc). Text is a list of bytes.
use Prim.Native.Char.{code}
use Prim.Native.String.{String}
use ignore_gates.Prelude.{
  ℕ, zero, suc, ◌+◌, ◌/◌, ◌%◌, Bool, true, false, List, [], ◌∷◌, ◌++◌, ltb, if◌then◌else◌,
}
use ignore_gates.Gates.Recognition.{
  GateType, none_type, generic, mono, and_gate, or_gate, triv, eqiv, full,
}
use ignore_gates.Gates.Structure.{GateFormula}

abbrev pub Bytes : Type 0
Bytes = List ℕ

-- The bytes of an ASCII text.
abbrev pub codes : String → Bytes
codes String.[] = []
codes (String.◌∷◌ c s) = code c ∷ codes s

-- `%u` of `printf`, with at most `fuel` digits; ten are enough for 32 bits.
unfoldable pub digits : ℕ → ℕ → Bytes
digits zero n = []
digits (suc fuel) n =
    let more = digits fuel (n / 10) ++ ((b'0' + n % 10) ∷ []) in
    if ltb n 10 then (b'0' + n) ∷ [] else more

abbrev pub number : ℕ → Bytes
number = digits 10

-- The name that is printed for a type; for NONE and MONO nothing is.
abbrev pub type_name : GateType → Bytes
type_name none_type = []
type_name generic = b'G' ∷ b'E' ∷ b'N' ∷ []
type_name mono = []
type_name and_gate = b'A' ∷ b'N' ∷ b'D' ∷ []
type_name or_gate = b'O' ∷ b'R' ∷ []
type_name triv = b'T' ∷ b'R' ∷ b'I' ∷ []
type_name eqiv = b'E' ∷ b'Q' ∷ b'V' ∷ []
type_name full = b'F' ∷ b'U' ∷ b'L' ∷ []

abbrev pub is_printed : GateType → Bool
is_printed none_type = false
is_printed mono = false
is_printed _ = true

-- `printf("%u AND\n", i)` and its kin.
unfoldable pub gate_line : ℕ → GateType → Bytes
gate_line i type =
    if is_printed type then number i ++ (b' ' ∷ (type_name type ++ (b'\n' ∷ []))) else []

-- The numbers of gates of each type, by its case.
pub record Counts : Type 0 where
  pub n_none : ℕ
  pub n_generic : ℕ
  pub n_and : ℕ
  pub n_or : ℕ
  pub n_triv : ℕ
  pub n_equiv : ℕ
  pub n_full : ℕ

abbrev pub no_counts : Counts
no_counts = record {
  n_none = 0;
  n_generic = 0;
  n_and = 0;
  n_or = 0;
  n_triv = 0;
  n_equiv = 0;
  n_full = 0;
}

-- One turn of the `switch`; MONO falls to its default.
abbrev pub count_type : Counts → GateType → Counts
count_type c none_type = record c { n_none = suc c.n_none }
count_type c generic = record c { n_generic = suc c.n_generic }
count_type c mono = c
count_type c and_gate = record c { n_and = suc c.n_and }
count_type c or_gate = record c { n_or = suc c.n_or }
count_type c triv = record c { n_triv = suc c.n_triv }
count_type c eqiv = record c { n_equiv = suc c.n_equiv }
count_type c full = record c { n_full = suc c.n_full }

-- The loop `for (unsigned i = 1; i <= n_vars; i++)`: the counts and the text printed.
unfoldable pub gate_report : GateFormula → ℕ → Counts × Bytes
unfolding gate_line
gate_report g zero = (no_counts, [])
gate_report g (suc n) =
    let (counts, text) = gate_report g n in
    let type = (g.gates (suc n)).type in (count_type counts type, text ++ gate_line (suc n) type)
