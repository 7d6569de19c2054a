-- ===== src/Swarm.antt =====
-- internal/swarm/swarm.go: Docker Swarm on the local node. The docker command line is the parameter
-- `Docker`: what each command answers in the state of the world that the call finds. A command
-- that changes the swarm's state returns the new world.
mod Calls
unfoldable pub use Calls.*
