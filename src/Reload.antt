-- ===== src/Reload.antt =====
-- `write_csv` of src/generator.cpp and then `load_graph` of src/csv.cpp: the graph that is read back.
pub mod Nodes
pub mod Edges
pub mod Graphs
pub mod RoundTrip
pub mod Generated
