-- ===== src/Pipeline.antt =====
-- src/buildstream/_pipeline.py: build plans and the selection of elements.
pub mod Dependencies
pub mod Planner
pub mod Selection
