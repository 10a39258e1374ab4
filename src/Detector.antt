-- ===== src/Detector.antt =====
-- uyuni_ai_agent/anomaly_detector.py: the anomalies of a minion, and the correlation of those that one
-- failure causes on two tiers.
pub mod Context
pub mod Thresholds
pub mod Pressure
pub mod Locks
pub mod Correlation
pub mod Window
pub mod BlindSpots
pub mod Checks
pub mod Services
pub mod Tests
pub mod Runs
