-- ===== src/Tests.antt =====
-- Tests, and the theorems at concrete inputs.
mod SchedulerTests
mod PipelineTests
mod SelectionTests
mod OptionsTests
mod OverlapsTests
mod ElementsTests
mod VariablesTests
mod NodesTests
mod LoaderTests
mod LoadingTests
mod WorkspacesTests
