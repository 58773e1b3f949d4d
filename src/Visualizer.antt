-- ===== src/Visualizer.antt =====
-- visualizer/src: the browser's simulation of the gossip network.
pub mod Simulation
pub mod SimMetrics
pub mod GossipState
