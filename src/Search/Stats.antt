-- ===== src/Search/Stats.antt =====
-- SearchStats (include/route/search.hpp) and what src/search.cpp does to its counters.
use route_engine_cpp.Shared.{ℕ, max}
use route_engine_cpp.Types.{incr}

pub record SearchStats : Type 0 where
  pub pq_pushes : ℕ
  pub pq_pops : ℕ
  pub stale_pops : ℕ
  pub nodes_expanded : ℕ
  pub arcs_examined : ℕ
  pub relaxations : ℕ
  pub max_queue_size : ℕ

abbrev pub no_stats : SearchStats
no_stats = record {
  pq_pushes = 0;
  pq_pops = 0;
  stale_pops = 0;
  nodes_expanded = 0;
  arcs_examined = 0;
  relaxations = 0;
  max_queue_size = 0;
}

-- `++pq_pushes` and the update of `max_queue_size` after a push; and four other counters.
unfoldable pub count_push : ℕ → SearchStats → SearchStats
unfolding incr
count_push size t = record t {
  pq_pushes = incr t.pq_pushes;
  max_queue_size = max t.max_queue_size size;
}

unfoldable pub count_pop : SearchStats → SearchStats
unfolding incr
count_pop t = record t { pq_pops = incr t.pq_pops }

unfoldable pub count_stale : SearchStats → SearchStats
unfolding incr
count_stale t = record t { stale_pops = incr t.stale_pops }

unfoldable pub count_expanded : SearchStats → SearchStats
unfolding incr
count_expanded t = record t { nodes_expanded = incr t.nodes_expanded }

unfoldable pub count_arc : SearchStats → SearchStats
unfolding incr
count_arc t = record t { arcs_examined = incr t.arcs_examined }

unfoldable pub count_relaxation : SearchStats → SearchStats
unfolding incr
count_relaxation t = record t { relaxations = incr t.relaxations }
