-- ===== src/Lib.antt =====
-- A verification library for the gate tools of this repository: `cnftools` finds the gates of a
-- SAT problem in conjunctive normal form, and a changed CaDiCaL leaves the outputs of these gates
-- out of its decisions.
--
-- The parts, in the order in which data flows through them:
--
-- * `Types` (cnftools/src/util/SolverTypes.h): variables, literals and clauses. A literal is its
--   code `x`, a number; `Types/Lbool` has the three-valued `lbool`, `Types/Int` the signed DIMACS
--   numbers.
-- * `Formula` (cnftools/src/util/CNFFormula.h): `readClause` with its filter, `readClauses`,
--   `normalizeVariableNames`. A clause pointer is the clause with its number of insertion.
-- * `Gates/Occurrences` (cnftools/src/gates/OccurrenceList.h): which clauses hold each literal, the
--   blocked test, `remove` and `estimateRoots`.
-- * `Gates/Recognition` (cnftools/src/gates/GateAnalyzer.h): `constrainSameInputVariables`,
--   `fPattern`, `fSemantic` and `getInputLiterals`. The SAT solver behind ipasir.h is the parameter
--   `solve`, which gets the closed clauses and the assumptions.
-- * `Gates/Structure` (cnftools/src/gates/GateFormula.h): the gates found, roots, and marks.
-- * `Gates/Analyzer` (cnftools/src/gates/GateAnalyzer.h): `checkAddGate`, `gate_recognition` and
--   `analyze`, which join the three before.
-- * `Features/GateReport` (cnftools/src/features/GateStats.h): the lines that the tool `aux` prints.
-- * `Cadical/AuxFile` (cadical/src/parse.cpp, cadical/src/external.cpp): `parse_aux`, which reads
--   those lines, and the set `aux`.
-- * `Cadical/Queue` (cadical/src/queue.hpp, cadical/src/queue.cpp, cadical/src/decide.cpp and one
--   function each of analyze.cpp, backtrack.cpp and internal.hpp): the decision queue, and the search
--   that leaves gate outputs out.
-- * `Cadical/Heap` (cadical/src/heap.hpp) and `Cadical/Scores` (cadical/src/decide.cpp): the heap of
--   variables by score, and the search that pushes gate outputs down. Scores and their order are
--   parameters. A loop of the heap gets one round for each element and one more.
-- * `Cadical/NextVariable` (cadical/src/decide.cpp): `next_decision_variable`, over both searches.
-- * `Cadical/Analyze` (cadical/src/analyze.cpp): the derivation of the first-UIP clause from a
--   conflict, with the search that UIPAUX lets pass gate outputs, which runs down the trail, and the
--   loop that takes gate outputs out of the clause. A literal of the solver is its code there.
-- * `Cadical/Bump` (cadical/src/analyze.cpp): `bump_variables`, which leaves gate outputs out.
-- * `Cadical/Reluctant` (cadical/src/reluctant.hpp): reluctant doubling.
-- * `Cadical/Dimacs` (cadical/src/parse.cpp): the reader of DIMACS files, in its three modes.
-- * `Features/Levels` (cnftools/src/features/GateStats.h): the levels of the gates.
-- * `Features/CnfStats` (cnftools/src/features/CNFStats.h): the integer counters of the statistics.
-- * `Transform/Normalize` (cnftools/src/transform/Normalize.h): the normaliser of DIMACS files.
-- * `Gates/BlockList` (cnftools/src/gates/BlockList.h): the other index, with blocking counters.
-- * `Transform/IndependentSet` (cnftools/src/transform/IndependentSet.h): the independent-set problem.
-- * `StreamBuffer` (cnftools/src/util/StreamBuffer.h, `readDimacsFromFile` of
--   cnftools/src/util/CNFFormula.h): a file read through a buffer that ends with a word. Its loops
--   get one round for each byte not read yet and one more.
-- * `Stamp` (cnftools/src/util/Stamp.h): a set of indices that is emptied by its counter.
--
-- Loops whose rounds the source bounds by its data are recursions on that data. The two loops of
-- the analyzer run on fuel, a round for each clause and two more: each round but the last takes
-- clauses out of play. `parse_aux` and `parse_dimacs` get one round for each byte, and the search of
-- the queue one more than its length. The search by score runs on any fuel: each round takes a
-- variable out of the heap or lowers the score of a gate output, which a free variable in the heap
-- lets happen once for each; where only gate outputs are left no number of rounds is enough. The
-- loop of UIPAUX that cuts the learned clause gets a round for each of its literals and each variable
-- not seen. The clock, the resource limits and the order in which a hash set is walked are parameters
-- of the definitions that use them.
--
-- Not modelled: the rest of the solver, whose code is CaDiCaL's but for a guard in elim.cpp and some
-- counters, its INCCNF files, Kissat,
-- `getPrunedProblem`, the statistics on floating-point numbers, the operating-system limits, and the
-- command line.
pub mod Prelude
pub mod Types
pub mod Stamp
pub mod StreamBuffer
pub mod Transform
pub mod Formula
pub mod Gates
pub mod Features
pub mod Cadical
