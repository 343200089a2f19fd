-- ===== src/Tests.antt =====
-- The theorems at concrete inputs, and test runs of the model.
mod Fixtures
mod WireExamples
mod AcnExamples
mod PorExamples
mod MailboxExamples
mod PeerExamples
mod StorageExamples
mod CommonExamples
mod RelayExamples
mod DelegateExamples
mod ClientExamples
mod StreamExamples
mod ApiExamples
mod SigningExamples
mod NodeExamples
mod MonitorExamples
mod StartExamples
mod RunExamples
