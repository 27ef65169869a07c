-- ===== src/Cadical/Bump.antt =====
-- `bump_variables` of cadical/src/analyze.cpp for the decision queue, where BRANCHAUX is defined
-- and where it is not. Literals are written as their codes. The sort by ranks, the stamps as
-- unsigned words, is an insertion sort, and `bump_also_all_reason_literals`, an option, is left
-- out.
mod Sorts
pub mod Keeps
mod Tests
use ignore_gates.Prelude.{ℕ, ◌-◌, ◌%◌, ◌^◌, Bool, true, false, ◌&&◌, [], ◌∷◌, ltb, if◌then◌else◌}
use ignore_gates.Types.{Cl, var}
use ignore_gates.Types.Int.{ℤ, pos, negsuc}
use ignore_gates.Cadical.Queue.{Internal, aux_var, bump_queue}

-- A stamp, which is an `int64_t`, as the `uint64_t` that `Type` of `analyze_bumped_rank` makes of it.
abbrev pub unsigned_rank : ℤ → ℕ
unsigned_rank (pos n) = n % 2 ^ 64
unsigned_rank (negsuc n) = 2 ^ 64 - 1 - n % 2 ^ 64

-- `analyze_bumped_rank`
abbrev pub analyze_bumped_rank : Internal → ℕ → ℕ
analyze_bumped_rank s a = unsigned_rank (s.btab (var a))

-- `analyze_bumped_smaller`
abbrev pub bumped_smaller : Internal → ℕ → ℕ → Bool
bumped_smaller s a b = ltb (analyze_bumped_rank s a) (analyze_bumped_rank s b)

insert_bumped : Internal → ℕ → Cl → Cl
insert_bumped s x [] = x ∷ []
insert_bumped s x (y ∷ ys) = if bumped_smaller s y x then y ∷ insert_bumped s x ys else x ∷ y ∷ ys

pub sort_bumped : Internal → Cl → Cl
unfolding insert_bumped
sort_bumped s [] = []
sort_bumped s (x ∷ xs) = insert_bumped s x (sort_bumped s xs)

-- The loop over `analyzed`.
pub bump_each : Bool → Internal → Cl → Internal
bump_each branchaux s [] = s
bump_each branchaux s (x ∷ xs) =
    bump_each branchaux (if branchaux && aux_var s (var x) then s else bump_queue s (var x)) xs

unfoldable pub bump_variables : Bool → Internal → Cl → Internal
unfolding sort_bumped bump_each
bump_variables branchaux s analyzed = bump_each branchaux s (sort_bumped s analyzed)
