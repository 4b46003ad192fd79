-- ===== src/Cloud.antt =====
-- plugins/cloud/internal/reliab/reliab.go: what the cloud plugin does around a request.
pub mod Retry
pub mod CostLog
mod Tests
