-- ===== src/Law.antt =====
-- The law, plugins/vivim-law: the policy, the consent table, the forbidden overlay, the gate.
pub mod Policy
pub mod ConsentId
pub mod Consent
pub mod Forbidden
pub mod Check
pub mod Baseline
pub mod Scope
pub mod Principal
