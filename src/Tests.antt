-- ===== src/Tests.antt =====
-- Concrete runs of the code, and instances of the theorems.
mod Graphs
mod Images
mod Queues
mod Slots
mod Workers
mod Threads
mod Transforms
mod Gathers
mod Copies
mod Views
