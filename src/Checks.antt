-- ===== src/Checks.antt =====
-- Runs on concrete inputs, and the theorems at inputs that meet their hypotheses.
mod Restart
mod Service
mod Health
mod Circuit
mod Bench
mod Sessions
mod Accounts
mod Catalogs
mod ConfigEdit
mod ResourceGroups
mod Board
mod Compare
