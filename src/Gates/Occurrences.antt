-- ===== src/Gates/Occurrences.antt =====
-- cnftools/src/gates/OccurrenceList.h: which clauses hold each literal.
-- `index` is a function from literals; in the source it is a vector of `size` entries, and every
-- literal of the problem is below `size`. Clauses are compared by their pointers.
pub mod Merge
pub mod Blocking
pub mod Live
pub mod Roots
use ignore_gates.Prelude.{
  ℕ, zero, suc, ◌+◌, ◌*◌, Bool, true, false, not, ◌&&◌, List, [], ◌∷◌, ◌++◌, ◌==◌, ltb,
  if◌then◌else◌, length, any, all,
}
use ignore_gates.Types.{Cl, neg, lit}
use ignore_gates.Formula.{Clause, For, CnfFormula, n_vars}

abbrev pub Index : Type 0
Index = ℕ → For

pub record OccurrenceList : Type 0 where
  pub index : Index
  pub size : ℕ
  pub unitc : For
  pub max_literal : ℕ

-- `index[l] = v`
abbrev pub update : Index → ℕ → For → Index
update ix l v k = if k == l then v else ix k

-- The clauses are sorted: `isBlocked(o, c1, c2)` where CLAUSES_ARE_SORTED is defined. The lists are
-- what `i` and `j` have not passed yet.
unfoldable pub is_blocked : ℕ → Cl → Cl → Bool
is_blocked o [] c2 = false
is_blocked o (a ∷ c1) [] = false
is_blocked o (a ∷ c1) (b ∷ c2) =
    let left = is_blocked o c1 (b ∷ c2) in
    let right = is_blocked o (a ∷ c1) c2 in
    if not (a == o) && a == neg b then true else if ltb a b then left else right

-- The same function where CLAUSES_ARE_SORTED is not defined.
abbrev pub is_blocked_unsorted : ℕ → Cl → Cl → Bool
is_blocked_unsorted o c1 c2 = any (λ l1. not (l1 == o) && any (λ l2. l1 == neg l2) c2) c1

unfoldable pub push_lits : Index → Clause → Cl → Index
push_lits ix c [] = ix
push_lits ix c (l ∷ ls) = push_lits (update ix l (ix l ++ (c ∷ []))) c ls

pub add_clause : OccurrenceList → Clause → OccurrenceList
unfolding push_lits
add_clause o c =
    if length c.lits == 1
    then record o { unitc = o.unitc ++ (c ∷ []) }
    else record o { index = push_lits o.index c c.lits }

pub add_clauses : OccurrenceList → For → OccurrenceList
unfolding add_clause
add_clauses o [] = o
add_clauses o (c ∷ cs) = add_clauses (add_clause o c) cs

-- The constructor.
unfoldable pub init : CnfFormula → OccurrenceList
unfolding add_clauses lit
init problem =
    add_clauses
      (record {
        index = λ _. [];
        size = 2 + 2 * n_vars problem;
        unitc = [];
        max_literal = lit (n_vars problem) true;
      })
      problem.formula

-- The two inner loops of `remove`, on a vector that is not empty: drop the clause with pointer `p`,
-- and the last one where no clause has it.
unfoldable pub erase_first : ℕ → For → For
erase_first p [] = []
erase_first p (c ∷ []) = []
erase_first p (c ∷ d ∷ cs) = if c.ptr == p then d ∷ cs else c ∷ erase_first p (d ∷ cs)

unfoldable pub remove_lits : Index → ℕ → Cl → Index
unfolding erase_first
remove_lits ix p [] = ix
remove_lits ix p (l ∷ ls) = remove_lits (update ix l (erase_first p (ix l))) p ls

unfoldable pub remove_all : Index → For → Index
unfolding remove_lits
remove_all ix [] = ix
remove_all ix (c ∷ cs) = remove_all (remove_lits ix c.ptr c.lits) cs

unfoldable pub remove : OccurrenceList → For → OccurrenceList
unfolding remove_all
remove o list = record o { index = remove_all o.index list }

-- `isBlockedSet(o)`
unfoldable pub is_blocked_set : OccurrenceList → ℕ → Bool
unfolding is_blocked
is_blocked_set l o =
    all (λ c1. all (λ c2. is_blocked o c1.lits c2.lits) (l.index (neg o))) (l.index o)

is_empty : For → Bool
is_empty [] = true
is_empty (c ∷ cs) = false

-- The loop that lowers `max_literal`.
pub lower : Index → ℕ → ℕ
unfolding is_empty
lower ix zero = zero
lower ix (suc m) = let down = lower ix m in if is_empty (ix (suc m)) then down else suc m

-- The branch of `estimateRoots` without unit clauses, at the lowered `max_literal`.
pub take_roots : OccurrenceList → ℕ → OccurrenceList × For
unfolding remove
take_roots l zero = (record l { max_literal = zero }, [])
take_roots l (suc m) = (
  remove (record l { index = update l.index (suc m) []; max_literal = suc m }) (l.index (suc m)),
  l.index (suc m),
)

-- `estimateRoots()`
unfoldable pub estimate_roots : OccurrenceList → OccurrenceList × For
unfolding is_empty lower take_roots
estimate_roots l =
    if is_empty l.unitc
    then take_roots l (lower l.index l.max_literal)
    else (record l { unitc = [] }, l.unitc)
