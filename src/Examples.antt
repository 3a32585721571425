-- ===== src/Examples.antt =====
-- Runs of the model on small concrete inputs.
mod Libraries
mod Fleets
mod Specs
mod Worlds
mod Pools
mod Gates
mod Nodes
mod Installs
