-- ===== src/Protocol.antt =====
-- source/Protocol: the services.
pub mod XtraTaskService
