-- ===== src/Search/Names.antt =====
-- The names of the algorithms in src/search.cpp.
use route_engine_cpp.Shared.{◌≡◌, refl, ap, ◌↔◌, ◌∙◌, Option, none, some, arith, if◌then◌else◌}
use route_engine_cpp.Fields.{Text, codes, equals, equals_iff}
use route_engine_cpp.Search.{
  Algorithm, dijkstra_algorithm, astar_zero_algorithm, astar_euclidean_algorithm,
}

abbrev pub algorithm_name : Algorithm → Text
algorithm_name dijkstra_algorithm = codes "dijkstra"
algorithm_name astar_zero_algorithm = codes "astar-zero"
algorithm_name astar_euclidean_algorithm = codes "astar-euclidean"

unfoldable pub parse_algorithm : Text → Option Algorithm
unfolding equals
parse_algorithm name =
    if equals name (codes "dijkstra")
    then some dijkstra_algorithm
    else if equals name (codes "astar-zero")
    then some astar_zero_algorithm
    else if equals name (codes "astar-euclidean")
    then some astar_euclidean_algorithm
    else none

named : (name : Text) (a : Algorithm) → parse_algorithm name ≡ some a → name ≡ algorithm_name a
unfolding parse_algorithm
named name a h = ground (
  arith,
  equals_iff name (codes "dijkstra"),
  equals_iff name (codes "astar-zero"),
  equals_iff name (codes "astar-euclidean"),
)

parse_algorithm-algorithm_name : (a : Algorithm) → parse_algorithm (algorithm_name a) ≡ some a
unfolding parse_algorithm
parse_algorithm-algorithm_name dijkstra_algorithm = refl
parse_algorithm-algorithm_name astar_zero_algorithm = refl
parse_algorithm-algorithm_name astar_euclidean_algorithm = refl

-- A text parses as an algorithm exactly when it is the name of this algorithm.
pub parse_algorithm_iff :
    (name : Text) (a : Algorithm) → (parse_algorithm name ≡ some a) ↔ (name ≡ algorithm_name a)
parse_algorithm_iff name a =
    (named name a, λ h. ap parse_algorithm h ∙ parse_algorithm-algorithm_name a)
