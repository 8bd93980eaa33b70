-- ===== src/Iptables.antt =====
-- heyp/host-agent/linux-enforcer: the controller that keeps the rules of the iptables `mangle`
-- table in step with the settings that the enforcer stages.
pub mod Setting
pub mod Rules
pub mod Controller
pub mod Lookup
mod Tests
