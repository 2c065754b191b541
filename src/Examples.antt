-- ===== src/Examples.antt =====
-- Tests, and the witnesses of the theorems, on a small concrete node.
mod Toy
mod Data
mod Chain
mod Finality
mod Execution
mod Parts
mod Requests
mod Peers
mod Network
mod Node
mod App
mod Replay
mod Converge
