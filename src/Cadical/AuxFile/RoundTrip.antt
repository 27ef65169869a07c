-- ===== src/Cadical/AuxFile/RoundTrip.antt =====
-- The tools agree on the file of auxiliary variables: what `cnftools aux` prints, the solver reads.
use ignore_gates.Prelude.{
  ℕ, zero, suc, ◌+◌, ◌-◌, ◌≤◌, ◌<◌, ◌≡◌, refl, ap, ◌∙◌, sym, inl, inr, Bool, true, false, ◌||◌,
  Option, none, some, List, [], ◌∷◌, ◌++◌, arith, ◌==◌, if◌then◌else◌, Bool-cases, append_assoc,
  append-nil, length, length-append, elem, elem-append,
}
use ignore_gates.Gates.Recognition.{
  GateType, none_type, generic, mono, and_gate, or_gate, triv, eqiv, full,
}
use ignore_gates.Gates.Structure.{GateFormula}
use ignore_gates.Features.GateReport.{
  Bytes, number, type_name, is_printed, gate_line, Counts, count_type, gate_report,
}
use ignore_gates.Cadical.AuxFile.{
  Kind, KindCounts, eqv, and_kind, ful, or_kind, tri, gen, count_kind, AuxState, parsed, no_kinds,
  is_digit, int_max, parse_kind, end_line, parse_entry, entry, parse_aux_loop, parse_aux,
  fresh_state,
}
use ignore_gates.Cadical.AuxFile.Numbers.{parse_positive_int-number, digits-head}

-- The kind that the solver counts for a type that is printed.
abbrev pub kind_of : GateType → Option Kind
kind_of none_type = none
kind_of generic = some gen
kind_of mono = none
kind_of and_gate = some and_kind
kind_of or_gate = some or_kind
kind_of triv = some tri
kind_of eqiv = some eqv
kind_of full = some ful

abbrev pub is_reported : GateFormula → ℕ → Bool
is_reported g v = is_printed (g.gates v).type

-- The variables up to `n` whose gates are printed.
pub reported : GateFormula → ℕ → List ℕ
reported g zero = []
reported g (suc n) = if is_reported g (suc n) then reported g n ++ (suc n ∷ []) else reported g n

abbrev pub kinds_of : Counts → KindCounts
kinds_of c = record no_kinds {
  num_eqv = c.n_equiv;
  num_and = c.n_and;
  num_ful = c.n_full;
  num_or = c.n_or;
  num_tri = c.n_triv;
  num_gen = c.n_generic;
}

-- What the solver should hold after the report for the variables up to `n`.
pub report_state : GateFormula → ℕ → AuxState
report_state g n = record {
  aux = reported g n;
  num_parsed = length (reported g n);
  current_line = suc (length (reported g n));
  kinds = kinds_of (gate_report g n).0;
}

-- One line, read by a solver that does not know its number yet.
abbrev line_state : AuxState → ℕ → GateType → AuxState
line_state s v type = record s {
  aux = s.aux ++ (v ∷ []);
  num_parsed = suc s.num_parsed;
  kinds = count_kind s.kinds (kind_of type);
  current_line = suc s.current_line;
}

parse_kind-type_name :
    (type : GateType) (rest : Bytes)
    → is_printed type ≡ true
    → parse_kind (type_name type ++ rest) ≡ some (kind_of type, rest)
unfolding parse_kind
parse_kind-type_name none_type rest e = ground arith
parse_kind-type_name generic rest e = refl
parse_kind-type_name mono rest e = ground arith
parse_kind-type_name and_gate rest e = refl
parse_kind-type_name or_gate rest e = refl
parse_kind-type_name triv rest e = refl
parse_kind-type_name eqiv rest e = refl
parse_kind-type_name full rest e = refl

parse_entry-line :
    (s : AuxState) (v : ℕ) (type : GateType) (rest : Bytes) {c : ℕ} {ds : Bytes}
    → v ≤ int_max
    → is_printed type ≡ true
    → elem v s.aux ≡ false
    → number v ≡ c ∷ ds
    → is_digit c ≡ true
    → parse_entry s c (ds ++ (b' ' ∷ (type_name type ++ (b'\n' ∷ rest))))
      ≡ entry (line_state s v type) rest
unfolding parse_entry end_line
parse_entry-line s v type rest h p new e d = rw (
  parse_positive_int-number v (type_name type ++ (b'\n' ∷ rest)) h e d,
  parse_kind-type_name type (b'\n' ∷ rest) p,
  new,
  parse_entry,
)

line_text :
    (v : ℕ) (type : GateType) (rest : Bytes) {c : ℕ} {ds : Bytes}
    → is_printed type ≡ true
    → number v ≡ c ∷ ds
    → gate_line v type ++ rest ≡ c ∷ (ds ++ (b' ' ∷ (type_name type ++ (b'\n' ∷ rest))))
unfolding gate_line
line_text v type rest {c} {ds} p e = rw (
  p,
  e,
  append_assoc ds (b' ' ∷ (type_name type ++ (b'\n' ∷ []))) rest,
  append_assoc (type_name type) (b'\n' ∷ []) rest,
)

parse_aux_loop-entry :
    (fuel : ℕ) (s : AuxState) (c : ℕ) (input : Bytes) {t : AuxState} {rest : Bytes}
    → is_digit c ≡ true
    → parse_entry s c input ≡ entry t rest
    → parse_aux_loop (suc fuel) s (c ∷ input) ≡ parse_aux_loop fuel t rest
unfolding parse_aux_loop
parse_aux_loop-entry fuel s c input d e =
    let space : (c == b' ' || c == b'\t') ≡ false = ground (arith, d) in rw (space, d, e)

parse_aux_loop-line :
    (fuel : ℕ) (s : AuxState) (v : ℕ) (type : GateType) (rest : Bytes)
    → v ≤ int_max
    → is_printed type ≡ true
    → elem v s.aux ≡ false
    → parse_aux_loop (suc fuel) s (gate_line v type ++ rest)
      ≡ parse_aux_loop fuel (line_state s v type) rest
parse_aux_loop-line fuel s v type rest h p new =
    let (c, (ds, (e, d))) = digits-head 9 v in
    ap (parse_aux_loop (suc fuel) s) (line_text v type rest p e)
    ∙ parse_aux_loop-entry fuel s c _ d (parse_entry-line s v type rest h p new e d)

length-snoc : (xs : List ℕ) (x : ℕ) → length (xs ++ (x ∷ [])) ≡ suc (length xs)
length-snoc xs x = length-append xs (x ∷ []) ∙ omega arith

kinds_of-count :
    (c : Counts) (type : GateType)
    → is_printed type ≡ true
    → count_kind (kinds_of c) (kind_of type) ≡ kinds_of (count_type c type)
kinds_of-count c none_type p = ground arith
kinds_of-count c generic p = refl
kinds_of-count c mono p = ground arith
kinds_of-count c and_gate p = refl
kinds_of-count c or_gate p = refl
kinds_of-count c triv p = refl
kinds_of-count c eqiv p = refl
kinds_of-count c full p = refl

kinds_of-unprinted :
    (c : Counts) (type : GateType)
    → is_printed type ≡ false
    → kinds_of (count_type c type) ≡ kinds_of c
kinds_of-unprinted c none_type p = refl
kinds_of-unprinted c generic p = ground arith
kinds_of-unprinted c mono p = refl
kinds_of-unprinted c and_gate p = ground arith
kinds_of-unprinted c or_gate p = ground arith
kinds_of-unprinted c triv p = ground arith
kinds_of-unprinted c eqiv p = ground arith
kinds_of-unprinted c full p = ground arith

reported-elem : (g : GateFormula) (n v : ℕ) → n < v → elem v (reported g n) ≡ false
unfolding reported
reported-elem g zero v h = refl
reported-elem g (suc n) v h = elim (Bool-cases (is_reported g (suc n))) [
  | inl e ↦
      rw (e, elem-append v (reported g n) (suc n ∷ []), reported-elem g n v (omega (arith, h)))
        (ground (arith, h))
  | inr e ↦ rw e (reported-elem g n v (omega (arith, h)))
]

report_state-elem : (g : GateFormula) (n : ℕ) → elem (suc n) (report_state g n).aux ≡ false
unfolding report_state
report_state-elem g n = reported-elem g n (suc n) (omega arith)

-- The state that the parser keeps for a set and its kinds.
abbrev state_of : List ℕ → KindCounts → AuxState
state_of aux kinds = record {
  aux = aux;
  num_parsed = length aux;
  current_line = suc (length aux);
  kinds = kinds;
}

report_state-printed :
    (g : GateFormula) (n : ℕ)
    → is_reported g (suc n) ≡ true
    → line_state (report_state g n) (suc n) (g.gates (suc n)).type ≡ report_state g (suc n)
unfolding report_state reported gate_report
report_state-printed g n e = rw (
  e,
  length-snoc (reported g n) (suc n),
  ← kinds_of-count (gate_report g n).0 (g.gates (suc n)).type e,
)

report_state-unprinted :
    (g : GateFormula) (n : ℕ)
    → is_reported g (suc n) ≡ false
    → report_state g n ≡ report_state g (suc n)
unfolding report_state reported gate_report
report_state-unprinted g n e =
    rw (e, kinds_of-unprinted (gate_report g n).0 (g.gates (suc n)).type e)

length-printed :
    (g : GateFormula) (n : ℕ)
    → is_reported g (suc n) ≡ true
    → length (reported g (suc n)) ≡ suc (length (reported g n))
unfolding reported
length-printed g n e = rw e (length-snoc (reported g n) (suc n))

length-unprinted :
    (g : GateFormula) (n : ℕ)
    → is_reported g (suc n) ≡ false
    → length (reported g (suc n)) ≡ length (reported g n)
unfolding reported
length-unprinted g n e = rw e refl

-- The report is the one before and one more line.
gate_report-suc :
    (g : GateFormula) (n : ℕ) (rest : Bytes)
    → (gate_report g (suc n)).1 ++ rest
      ≡ (gate_report g n).1 ++ (gate_line (suc n) (g.gates (suc n)).type ++ rest)
unfolding gate_report
gate_report-suc g n rest =
    append_assoc (gate_report g n).1 (gate_line (suc n) (g.gates (suc n)).type) rest

gate_line-unprinted : (v : ℕ) (type : GateType) → is_printed type ≡ false → gate_line v type ≡ []
unfolding gate_line
gate_line-unprinted v type e = rw e refl

parse_aux_loop-zero :
    (g : GateFormula) (fuel : ℕ) (rest : Bytes)
    → parse_aux_loop (length (reported g 0) + fuel) fresh_state ((gate_report g 0).1 ++ rest)
      ≡ parse_aux_loop fuel (report_state g 0) rest
unfolding gate_report report_state reported
parse_aux_loop-zero g fuel rest = ap (λ k. parse_aux_loop k fresh_state rest) (omega arith)

parse_aux_loop-report :
    (g : GateFormula) (n : ℕ) (fuel : ℕ) (rest : Bytes)
    → n ≤ int_max
    → parse_aux_loop (length (reported g n) + fuel) fresh_state ((gate_report g n).1 ++ rest)
      ≡ parse_aux_loop fuel (report_state g n) rest
parse_aux_loop-report g zero fuel rest h = parse_aux_loop-zero g fuel rest
parse_aux_loop-report g (suc n) fuel rest h =
    let type = (g.gates (suc n)).type in
    let line = gate_line (suc n) type in
    let text = (gate_report g n).1 in
    elim (Bool-cases (is_reported g (suc n))) [
      | inl e ↦
          let count : length (reported g (suc n)) + fuel ≡ length (reported g n) + suc fuel =
            omega (arith, length-printed g n e) in
          rw (count, gate_report-suc g n rest, ← report_state-printed g n e)
            (parse_aux_loop-report g n (suc fuel) (line ++ rest) (omega (arith, h))
              ∙ parse_aux_loop-line fuel (report_state g n) (suc n) type rest h e
                  (report_state-elem g n))
      | inr e ↦
          rw
            (
              length-unprinted g n e,
              gate_report-suc g n rest,
              gate_line-unprinted (suc n) type e,
              ← report_state-unprinted g n e,
            )
            (parse_aux_loop-report g n fuel rest (omega (arith, h)))
    ]

reported-short : (g : GateFormula) (n : ℕ) → length (reported g n) ≤ length (gate_report g n).1
unfolding gate_report gate_line reported
reported-short g zero = omega arith
reported-short g (suc n) =
    let name = type_name (g.gates (suc n)).type in
    elim (Bool-cases (is_reported g (suc n))) [
      | inl e ↦
          rw
            (
              e,
              length-snoc (reported g n) (suc n),
              length-append (gate_report g n).1 (number (suc n) ++ (b' ' ∷ (name ++ (b'\n' ∷ [])))),
              length-append (number (suc n)) (b' ' ∷ (name ++ (b'\n' ∷ []))),
            )
            (omega (arith, reported-short g n))
      | inr e ↦ rw (e, append-nil (gate_report g n).1) (reported-short g n)
    ]

parse_aux_loop-end : (fuel : ℕ) (s : AuxState) → parse_aux_loop (suc fuel) s [] ≡ parsed s
unfolding parse_aux_loop
parse_aux_loop-end fuel s = refl

-- Where the variables fit an `int`, the solver reads the whole report of the gates and then holds
-- exactly the variables with a printed gate type, once each, with one entry and one line counted for
-- each and the kinds counted as the report counts its types.
pub parse_aux-gate_report :
    (g : GateFormula) (n : ℕ)
    → n ≤ int_max
    → parse_aux (gate_report g n).1 ≡ parsed (report_state g n)
unfolding parse_aux
parse_aux-gate_report g n h =
    let text = (gate_report g n).1 in
    let spare = length text - length (reported g n) in
    let count : suc (length text) ≡ length (reported g n) + suc spare =
      omega (arith, reported-short g n) in
    rw count (
      ap (parse_aux_loop (length (reported g n) + suc spare) fresh_state) (sym (append-nil text))
      ∙ (parse_aux_loop-report g n (suc spare) [] h ∙ parse_aux_loop-end spare (report_state g n)))
