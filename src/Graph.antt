-- ===== src/Graph.antt =====
-- frontend/src/components/DiGraph.tsx. `Edges` has the graph with its table of edges, `Drawing` what an edge
-- and a node draw. `Lookup` is about the table, `Drawn` about a change of one node, and `Followed` about
-- where the edges end.
pub mod Edges
pub mod Drawing
pub mod Lookup
pub mod Drawn
pub mod Followed
