-- ===== src/Polling.antt =====
-- uyuni_ai_agent/main.py: what the polling loop does with the incidents.
pub mod Firing
pub mod Minion
pub mod Detect
pub mod Cycle
pub mod Outages
pub mod Tests
