-- ===== src/Examples.antt =====
-- Runs of the modelled code on concrete inputs, and each theorem at an input that meets its
-- hypotheses.
mod Addresses
mod Addresses6
mod Erasures
mod Lists
mod Objects
mod Ports
mod Repositories
mod Scalars
mod Sets
mod Calendar
