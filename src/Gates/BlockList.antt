-- ===== src/Gates/BlockList.antt =====
-- cnftools/src/gates/BlockList.h: an index of the clauses by their literals that counts, for each
-- literal, how many clauses at the front of its list are blocked by it.
-- The vectors are functions of the literal, as in the occurrence list; counters wrap at 16 bits.
pub mod Counter
mod Tests
use ignore_gates.Prelude.{
  ℕ, zero, suc, ◌+◌, ◌-◌, ◌*◌, ◌%◌, ◌^◌, Bool, true, false, not, ◌&&◌, Option, none, some, List, [],
  ◌∷◌, ◌++◌, ◌==◌, ltb, if◌then◌else◌, length, all, filter_if,
}
use ignore_gates.Types.{Cl, neg, lit}
use ignore_gates.Formula.{Clause, For, CnfFormula, n_vars}
use ignore_gates.Gates.Occurrences.{Index, update, is_blocked, push_lits}

pub record BlockList : Type 0 where
  pub variables : ℕ
  pub index : Index
  pub unitc : For
  pub num_blocked : ℕ → ℕ

-- `num_blocked[l] = n`, of type uint16_t.
abbrev pub set_blocked : BlockList → ℕ → ℕ → BlockList
set_blocked b l n = record b { num_blocked = λ k. if k == l then n % 2 ^ 16 else b.num_blocked k }

-- `isBlocked(o, clause)`
unfoldable pub is_blocked_by : Index → ℕ → Clause → Bool
is_blocked_by ix o c = all (λ c2. is_blocked o c.lits c2.lits) (ix (neg o))

-- The last entry comes to the front: what the swap makes of the entries after `i` up to `j`.
unfoldable pub last_first : For → For
last_first [] = []
last_first (c ∷ cs) = elim (last_first cs) [ [] ↦ c ∷ [] | d ∷ ds ↦ d ∷ c ∷ ds ]

-- The loop of `initBlockingCounter`: the entries from `i` to `j`, and those after `j`. The result has
-- the entries from `i` on and by how much `i` grows. The fuel is the number of entries in play.
unfoldable pub partition : ℕ → (Clause → Bool) → For → For → For × ℕ
unfolding last_first
partition fuel test [] tail = (tail, 0)
partition zero test (c ∷ mid) tail = (c ∷ mid ++ tail, 0)
partition (suc fuel) test (c ∷ mid) tail =
    let (cs, n) = partition fuel test mid tail in
    let swapped = partition fuel test (last_first mid) (c ∷ tail) in
    if test c then (c ∷ cs, suc n) else swapped

-- The last lines of `initBlockingCounter`, where `num_blocked[o]` was set, and of `remove`.
abbrev pub all_blocked : BlockList → ℕ → BlockList
all_blocked b o =
    if b.num_blocked o == length (b.index o)
    then set_blocked b (neg o) (length (b.index (neg o)))
    else b

unfoldable pub init_blocking_counter : BlockList → ℕ → BlockList
unfolding partition is_blocked_by
init_blocking_counter b o =
    let (cs, n) = partition (length (b.index o)) (is_blocked_by b.index o) (b.index o) [] in
    all_blocked (set_blocked (record b { index = update b.index o cs }) o n) o

-- The constructor.
add_clause : BlockList → Clause → BlockList
add_clause b c =
    if length c.lits == 1
    then record b { unitc = b.unitc ++ (c ∷ []) }
    else record b { index = push_lits b.index c c.lits }

add_clauses : BlockList → For → BlockList
unfolding add_clause
add_clauses b [] = b
add_clauses b (c ∷ cs) = add_clauses (add_clause b c) cs

unfoldable pub init : CnfFormula → BlockList
unfolding add_clauses
init problem =
    add_clauses
      (record { variables = n_vars problem; index = λ _. []; unitc = []; num_blocked = λ _. 0 })
      problem.formula

-- `std::set<Lit>::insert`
insert_lit : ℕ → List ℕ → List ℕ
insert_lit l [] = l ∷ []
insert_lit l (k ∷ ks) =
    let rest = insert_lit l ks in
    if ltb k l then k ∷ rest else if k == l then k ∷ ks else l ∷ k ∷ ks

-- The place of a clause, which is the size where it is missing, and the list erase_all it.
erase_clause : ℕ → For → ℕ × For
erase_clause p [] = (0, [])
erase_clause p (c ∷ cs) =
    let (pos, ds) = erase_clause p cs in if c.ptr == p then (0, cs) else (suc pos, c ∷ ds)

-- The body of the innermost loop of `remove` for a literal of a clause.
remove_lit : ℕ → Clause → BlockList × List ℕ → ℕ → BlockList × List ℕ
unfolding erase_clause insert_lit
remove_lit olit c (b, literals) l =
    let (pos, cs) = erase_clause c.ptr (b.index l) in
    let b1 = record b { index = update b.index l cs } in
    if l == olit
    then (b, literals)
    else if ltb pos (b.num_blocked l)
    then (all_blocked (set_blocked b1 l (b.num_blocked l - 1)) l, literals)
    else if b.num_blocked l == length cs
    then (set_blocked b1 (neg l) (length (b1.index (neg l))), literals)
    else (b1, insert_lit (neg l) literals)

remove_lits : ℕ → Clause → BlockList × List ℕ → Cl → BlockList × List ℕ
unfolding remove_lit
remove_lits olit c s [] = s
remove_lits olit c s (l ∷ ls) = remove_lits olit c (remove_lit olit c s l) ls

remove_clauses : ℕ → BlockList × List ℕ → For → BlockList × List ℕ
unfolding remove_lits
remove_clauses olit s [] = s
remove_clauses olit s (c ∷ cs) = remove_clauses olit (remove_lits olit c s c.lits) cs

remove_side : BlockList × List ℕ → ℕ → BlockList × List ℕ
unfolding remove_clauses
remove_side (b, literals) olit =
    let (b1, later) = remove_clauses olit (b, literals) (b.index olit) in
    (set_blocked (record b1 { index = update b1.index olit [] }) olit 0, later)

abbrev pub is_blocked_set : BlockList → ℕ → Bool
is_blocked_set b o = length (b.index o) == b.num_blocked o

abbrev recount : BlockList → List ℕ → BlockList
recount b [] = b
recount b (l ∷ ls) = recount (if is_blocked_set b l then b else init_blocking_counter b l) ls

-- `remove(o)`
unfoldable pub remove : BlockList → ℕ → BlockList
unfolding remove_side init_blocking_counter lit
remove b o =
    let (b1, literals) = remove_side (remove_side (b, []) (lit o false)) (lit o true) in
    recount b1 literals

-- The state of `getMinimallyUnblockedLiteral`; `none` is `lit_Undef`.
pub record Minimum : Type 0 where
  pub list : BlockList
  pub least : ℕ
  pub result : Option ℕ

abbrev count_if_zero : BlockList → ℕ → BlockList
count_if_zero b l = if b.num_blocked l == 0 then init_blocking_counter b l else b

visit : Minimum → ℕ → Minimum
unfolding init_blocking_counter
visit m l =
    let b = count_if_zero m.list l in
    let diff = (length (m.list.index l) + 2 ^ 64 - b.num_blocked l) % 2 ^ 64 in
    if ltb 0 diff && ltb diff m.least
    then record { list = b; least = diff; result = some l }
    else record m { list = b }

-- The variables below `n`, downwards.
visit_below : ℕ → Minimum → Minimum
unfolding visit lit
visit_below zero m = m
visit_below (suc v) m =
    let rest = visit_below v (visit (visit m (lit v true)) (lit v false)) in
    if ltb 1 m.least then rest else m

-- It starts at `nVars() - 1`, so the last variable of the problem is not visited.
unfoldable pub get_minimally_unblocked_literal : BlockList → Minimum
unfolding visit_below
get_minimally_unblocked_literal b =
    visit_below b.variables (record { list = b; least = 2 ^ 16 - 1; result = none })

-- `h.erase(std::remove(...))`
abbrev pub erase_all : ℕ → For → For
erase_all p cs = filter_if (λ c. not (c.ptr == p)) cs

unfoldable pub strip_lits : ℕ → ℕ → Cl → BlockList → BlockList
strip_lits o p [] b = b
strip_lits o p (l ∷ ls) b =
    let b1 = record b { index = update b.index l (erase_all p (b.index l)) } in
    strip_lits o p ls (
      if l == o
      then set_blocked b1 (neg l) (length (b1.index (neg l)))
      else set_blocked (set_blocked b1 l 0) (neg l) 0)

unfoldable pub strip_clauses : ℕ → For → BlockList → BlockList
unfolding strip_lits
strip_clauses o [] b = b
strip_clauses o (c ∷ cs) b = strip_clauses o cs (strip_lits o c.ptr c.lits b)

unfoldable pub strip_unblocked_clauses : BlockList → ℕ → BlockList × For
unfolding strip_clauses is_blocked_by
strip_unblocked_clauses b o =
    let result = filter_if (λ c. not (is_blocked_by b.index o c)) (b.index o) in
    (strip_clauses o result b, result)

count_lits : BlockList → Cl → BlockList
unfolding init_blocking_counter
count_lits b [] = b
count_lits b (l ∷ ls) = count_lits (count_if_zero b l) ls

count_all : BlockList → For → BlockList
unfolding count_lits
count_all b [] = b
count_all b (c ∷ cs) = count_all (count_lits b c.lits) cs

take_literal : Minimum → BlockList × For
unfolding strip_unblocked_clauses
take_literal m = elim m.result [ none ↦ (m.list, []) | some l ↦ strip_unblocked_clauses m.list l ]

-- `estimateRoots()`
unfoldable pub estimate_roots : BlockList → BlockList × For
unfolding take_literal get_minimally_unblocked_literal count_all
estimate_roots b = elim b.unitc [
  | [] ↦
      let (b1, result) = take_literal (get_minimally_unblocked_literal b) in
      (count_all b1 result, result)
  | c ∷ cs ↦ (count_all (record b { unitc = [] }) (c ∷ cs), c ∷ cs)
]
