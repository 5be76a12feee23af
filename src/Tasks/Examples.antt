-- ===== src/Tasks/Examples.antt =====
-- The tasks on concrete inputs, and the theorems applied to them.
mod Ccip
mod Admins
mod Deployments
