-- ===== src/Tests.antt =====
-- Concrete environments, runs of the model on them, and an instance of each property that has
-- hypotheses or variables.
mod Cluster
mod Policies
mod Hosts
mod Posix
mod Driver
mod Health
mod Copies
mod Requests
mod Ci
mod Options
mod Pruning
mod Gateway
mod Granted
mod Pruned
mod Patcher
mod Witnesses
