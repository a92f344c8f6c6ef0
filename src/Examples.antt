-- ===== src/Examples.antt =====
-- Runs of the modelled code at concrete inputs, and its theorems at inputs that meet their hypotheses.
-- A libuv and a floating point that satisfy what is assumed of them stand in `World`.
mod World
mod Timers
mod NestedTimers
mod NestedConnections
mod Connections
mod Packing
mod Params
mod Parsing
mod Services
mod Serving
mod Stacks
mod Texts
