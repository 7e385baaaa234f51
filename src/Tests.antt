-- ===== src/Tests.antt =====
-- Runs of the definitions on inputs that can be followed in the source, and the theorems applied to
-- inputs that meet their hypotheses.
mod CallRuns
mod CommandRuns
mod DumpRuns
mod JsonRuns
mod LineRuns
mod OvertakingRuns
mod ProgramRuns
mod RoomRuns
mod ServerRuns
mod StorageRuns
