-- ===== src/Tests.antt =====
-- The theorems at concrete inputs.
mod PaxosRuns
mod RpcRuns
mod ServerRuns
mod ViewRuns
mod TransportRuns
mod LockRuns
mod ExtentRuns
mod YfsRuns
