-- ===== src/Lib.antt =====
-- route-engine: a library and a command that find cheapest routes in a directed network of planar
-- points.
--
-- Parts and how they interact. A GraphBuilder (src/builder.cpp) collects nodes and arcs, checks each
-- of them, and builds a Graph (src/graph.cpp): the arcs in compressed sparse row form, and a metric
-- report (src/metric.cpp) that says whether each arc is at least as long as the straight line
-- between its ends. One search core (src/search.cpp), A* with lazy deletion, reads a Graph and
-- answers a query; Dijkstra is this core with the zero heuristic, and Euclidean A* is refused on a
-- graph whose report fails. The loader (src/csv.cpp) reads two CSV files into a GraphBuilder and
-- builds its Graph. The benchmark (src/benchmark.cpp) runs the three algorithms on one query set and
-- refuses to report if they disagree. The generator (src/generator.cpp) builds a lattice that meets
-- the metric contract. The command line (src/cli/main.cpp) parses its options, runs one of four
-- commands on these parts, and turns their results and exceptions into exit codes.
--
-- Files:
--   Shared          Boolean tests, lists and flags over the native numbers; Shared/Calls: how a
--                   call ends, with one constructor for each exception of include/route/errors.hpp
--                   and for each message.
--   Double          `double` as a parameter W with the operations the code uses; Double/Laws: the
--                   laws of IEEE arithmetic relied on, true with rounding; Double/Extended: tenths
--                   with an infinity, an instance on which the theorems are run.
--   Types           include/route/types.hpp; a uint32_t or uint64_t is a number with its
--                   wrap-around written out.
--   Metric          src/metric.cpp. Graph: src/graph.cpp and include/route/graph.hpp; Graph/Rows:
--                   the well-formed graphs and their rows; Graph/Contract: what the report says;
--                   Graph/Contract/Violations: the arcs that it counts.
--   Builder         src/builder.cpp and include/route/builder.hpp; Builder/Invariant: what every
--                   staged builder satisfies; Builder/Sort, Offsets, Build, Partition: the
--                   canonical order, the prefix sums and the rows they delimit; Builder/Result:
--                   the outcomes of `build`; Builder/Canonical: arcs that are sorted already;
--                   Builder/Order: the order by source, target and weight; Builder/Unordered: arcs
--                   added in another order, and what std::sort may return.
--   Search          src/search.cpp, include/route/search.hpp and include/route/heuristic.hpp;
--                   Search/Stats: the counters; Search/Queue: the pop order; Search/Walk: walks,
--                   their cost, and trails of parents; Search/Invariant: the loop invariant;
--                   Relax, Scan, Settle, Start: its preservation; Work, Loop: the fuel, with a
--                   round in Loop/Rounds; Correct, EntryPoints: the answers; Grounded, Sound,
--                   Sound/Rounds, Safe: what holds with any heuristic; Counters and
--                   Counters/Bounds: the statistics; Names: the names of the algorithms.
--   Fields          the text functions of src/csv.cpp, on lists of bytes; Fields/Plain: text that
--                   is read as it stands; Fields/Ids: the texts of ids. Csv: its Reader and
--                   `load_graph`; Csv/Nodes, Edges: what the lines of the two files give;
--                   Csv/Placed: the nodes set in the builder; Csv/Loads and Loads/Described: the
--                   graph of two files; Csv/Reads: lines without a fault.
--   Benchmark       src/benchmark.cpp and include/route/benchmark.hpp; Benchmark/Passes: the
--                   rotating repetitions; Benchmark/Rounding: `run_benchmark` as a whole, whatever
--                   the rounding; Benchmark/Queries: `make_query_pairs`; Benchmark/Median:
--                   `median_seconds`, and Median/Middle: where it stands.
--   Random          include/route/random.hpp; Random/Below: the rejection loop of `next_below`
--                   ends.
--   Generator       src/generator.cpp and include/route/generator.hpp; Generator/Lattice: how
--                   `generate` ends; Lattice/Passes: its loops; Generator/Write: `write_csv` on
--                   streams; Write/Sent: what a stream has got; Write/Lines: the lines of the two
--                   files; Write/Decimals: the numbers read back.
--   Options         the class Options of src/cli/main.cpp; Options/Parse: its parser and its check
--                   of the accepted options.
--   Cli             src/cli/main.cpp: the Exit of a run, and the Machine, a parameter for the
--                   conversions of double, the file system and the clock; Cli/Validate, Route,
--                   Generate, Measure: the four commands, with what they end with in their
--                   Outcomes; Cli/Input, Lookup, Violations: the loaded graph, its ids and its
--                   report; Generate/Numbers, Overwrite: its parameters and the files it opens;
--                   Cli/Main: `run` and `main`; Main/Exits: the exceptions of the commands;
--                   Main/Rounding: those that `main` catches.
--   Reference       tests/support/bellman_ford.hpp, by which the tests judge the search; Reference/Sweeps:
--                   what a round does; Reference/Agree: its distances and the answers of Dijkstra.
--                   Reference/Paths: tests/support/path_checker.hpp, the check of a route;
--                   Reference/Paths/Links: the first arc between two nodes; Reference/Paths/Checked:
--                   the routes of Dijkstra.
--   Reload          `write_csv` and then `load_graph`: Reload/Nodes, Edges: the lines as the
--                   loader reads them; Reload/Graphs: the graph of the two texts;
--                   Reload/RoundTrip: the whole way; Reload/Generated: from the parameters of
--                   `generate` on.
--   Tests           The program run on a small network, and the theorems at this network.
--
-- State and loops. A function that changes an object takes its state and returns the new one; the
-- local variables of `search` are the record Search.State. A loop is structural recursion on its
-- range, or on fuel that runs out as the result `out_of_fuel`: `arc_count + 2` rounds for the loop
-- of the search, as every push but the first is an arc of a node that is settled once, and
-- `node_count` steps for the walk back over the parents, as a trail settles each of its nodes at a
-- different time; `2 ^ 64` draws for `next_below`, as the state of the generator takes all of its
-- values. The theorems say `Returns` or `Ends`, which a run that ends for want of fuel does not
-- satisfy.
--
-- Numbers. Sums are the rounded sums of the code, from left to right; the laws do not contain
-- associativity, so a cost is compared with the cost of other walks as the code would add it up.
-- Nothing is said of the optimality of Euclidean A*, which would need exact sums.
--
-- Not modelled: the texts of messages, memory exhaustion and the limit on the length of a vector
-- (std::bad_alloc, std::length_error), and moved-from buffers beyond the lengths that `build`
-- leaves. Of the command line, the layout of what it prints, print_usage and print_stats.
pub mod Benchmark
pub mod Builder
pub mod Cli
pub mod Csv
pub mod Double
pub mod Fields
pub mod Generator
pub mod Graph
pub mod Metric
pub mod Options
pub mod Random
pub mod Reference
pub mod Reload
pub mod Search
pub mod Shared
pub mod Tests
pub mod Types
