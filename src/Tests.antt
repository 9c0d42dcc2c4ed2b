-- ===== src/Tests.antt =====
-- Runs of the definitions at concrete data, and the theorems at inputs that meet their hypotheses.
mod PathRuns
mod ManagerRuns
mod SessionRuns
mod ExecutorRuns
mod ExecuteRuns
mod RouteRuns
mod SettingRuns
mod HarnessRuns
mod LifeRuns
mod SweepRuns
mod ClientRuns
