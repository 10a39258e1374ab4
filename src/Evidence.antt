-- ===== src/Evidence.antt =====
-- uyuni_ai_agent/evidence.py: the evidence of an incident, and the gates that a root-cause analysis
-- (uyuni_ai_agent/models.py) passes before it counts as confirmed.
pub mod Records
pub mod Remediation
pub mod Grounding
pub mod Tests
