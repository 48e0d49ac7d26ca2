-- ===== src/Tests.antt =====
-- Concrete runs of the model, and its theorems at concrete inputs, one module for each part.
mod ProtocolRuns
mod ConfigRuns
mod MuxRuns
mod TransportRuns
mod TunnelRuns
mod ProcRuns
mod CarrierRuns
mod MenuRuns
mod WizardRuns
mod EndRuns
