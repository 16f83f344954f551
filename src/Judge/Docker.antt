-- ===== src/Judge/Docker.antt =====
-- internal/judge/docker.go: containers, and the sandbox that `Evaluate` works with. The docker
-- client, the files of the host, the random source and the tar format are parameters.
pub mod Strings
pub mod Host
pub mod Policy
pub mod Container
pub mod Execute
pub mod Session
pub mod Keeping
pub mod Pending
pub mod Quiet
pub mod Creation
pub mod Cleanup
pub mod Upkeep
pub mod Removal
pub mod Evaluation
pub mod Budget
pub mod Execution
pub mod Confinement
