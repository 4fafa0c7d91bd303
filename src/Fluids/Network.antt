-- ===== src/Fluids/Network.antt =====
-- python/feldspar/fluids/network.py: the Hardy Cross solver of a flow network. `Edges` decodes the
-- payload's edges, `Losses` has the head-loss laws, `Tree` the spanning tree, `Cycles` the cycle
-- basis, `Seed` the first flows, `Solve` the loop correction and `Paths` the queries. `Search` is what the
-- two breadth-first searches share.
pub mod Search
pub mod Edges
pub mod Losses
pub mod Ends
pub mod Tree
pub mod Cycles
pub mod Seed
pub mod Solve
pub mod Paths
