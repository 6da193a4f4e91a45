-- ===== src/Tests.antt =====
-- Runs of the definitions at concrete inputs, and the theorems applied to them.
mod Shapes
mod Placements
mod Specs
mod Signatures
mod Operators
mod Stores
mod Conversions
mod Inference
mod Groups
mod Products
mod Sessions
mod Clusters
