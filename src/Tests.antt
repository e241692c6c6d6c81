-- ===== src/Tests.antt =====
-- Runs of the development's definitions on concrete inputs, and the theorems applied at them.
mod Machine
mod Samples
mod Runs
mod Commands
mod Cgroups
mod States
mod Bundles
mod Roots
mod Cradle
mod Births
mod Vigils
mod Creations
mod Nodes
mod Privileges
mod Inits
mod Starts
mod Reports
