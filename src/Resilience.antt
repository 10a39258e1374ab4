-- ===== src/Resilience.antt =====
-- uyuni_ai_agent/resilience.py: circuit breakers, retry delays and the dependency manager.
pub mod Breaker
pub mod Backoff
pub mod Manager
