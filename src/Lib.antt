-- ===== src/Lib.antt =====
-- A model of the Docker Swarm configuration service: the program that reads a cluster's description,
-- connects to its nodes through SSH, forms a swarm of them and prepares what runs on top, and the
-- older controller that nodes register with.
--
-- The parts and the files of the program that they follow:
--   Prelude       the shared names, texts (Go's `strings`), integers, lists and results
--   Defaults      internal/defaults/defaults.go
--   Config        internal/config: the data (Types), `Validate`, `ApplyDefaults` and `Load` (Fill),
--                 script conditions (Conditions), and the selectors with those of
--                 internal/deployer/deployer.go (Nodes)
--   Retry         internal/retry/retry.go: `Do`, `DoWithResult` and the four configurations
--   IpDetect      internal/ipdetect: classes of addresses and the choice of one (ipdetect.go), and the
--                 same on a remote node (Networks and Remote for ssh.go); Classes describes the
--                 classes by their ranges
--   Swarm         internal/swarm/swarm.go: the docker command line of the local node
--   Controller    internal/controller: the messages (Types), store.go (Store), `handleConn` of server.go
--                 (Handler), `MasterInit` and `MasterReset` of controller.go (Master)
--   Ssh           internal/ssh/pool.go: one connection per host, and what a command answers
--   Orchestrator  internal/orchestrator/swarm.go: `SwarmSetup` and its phases
--   Keepalived    internal/services/keepalived.go: the shared virtual address; the search by ARP (Arp)
--                 and `PrepareKeepalivedDeployment` (Deployment)
--   Storage       internal/storage: `SetupCluster` of provider.go over any provider (Setup), and of
--                 microceph.go the members of the cluster (MicroCeph.Members), the disks
--                 (MicroCeph.Disks), the waiting loops (MicroCeph.Polling), the checks of its health
--                 (MicroCeph.Health) and its status (MicroCeph.Status), the file system, its
--                 credentials and the teardown (MicroCeph.Pools), the mounts (MicroCeph.Mounts), the
--                 S3 gateway and its buckets (MicroCeph.Gateway), and the provider that all of these
--                 make (MicroCeph.Implementation)
--   Scripts       `executeScripts` and `executeScriptOnNode` of internal/deployer/deployer.go
--
-- How they interact: the deployer loads a configuration (Config), selects nodes (Config.Nodes),
-- runs scripts on them (Scripts), forms the swarm (Orchestrator, whose phases retry their commands
-- by Retry), sets up the storage cluster (Storage) and prepares Keepalived. What runs a command on
-- a host is their parameter `run`, which `Ssh.pool_run` fills. The set-up of storage takes a
-- provider as a record of operations, and `micro_ceph` fills this record; it asks for addresses of
-- remote nodes
-- (IpDetect.Remote). The controller's handler calls the store and asks the local swarm for join
-- tokens (Swarm). Functions and records keep the names of the source in this language's spelling:
-- `addRegistration` is `add_registration`, `clusterState` is `ClusterState`.
--
-- How the code is modelled. State is passed explicitly: a Go method that changes its receiver returns
-- the new state beside its result, and code that acts on the world takes and returns the world `W`.
-- An error is a value of the module's own error type, without the message's text. Log lines are left
-- out, except where they can end the program. A Go `int` is an integer, or a natural number where it
-- is a count; texts are ASCII, so that a character is a byte. Loops over slices are recursion on
-- lists. The retry loop is recursion on the attempts that are left, which is the loop's own bound,
-- and so are the loops that enable the S3 gateway and wait for it;
-- the address scan is recursion on the hosts that are left, at most 2 ^ (32 - prefix) - 2. Numbers as
-- fuel stand in the printing of decimals, where a number is enough for its own digits, and in the
-- waiting loops of MicroCeph, where the rounds that fit into the timeout and two more are enough
-- because each round sleeps for the interval.
--
-- What stands outside is a parameter: the regular expressions of script conditions, `net.ParseIP` and
-- `net.ParseCIDR`, the decoder of JSON, the docker command line, the commands that run on hosts, the
-- passing of time, random texts, and the faults of the disk. The theorems hold for every value of
-- these, with hypotheses where they say so.
--
-- The store's methods hold one mutex, so that each is one step, and `Controller.Store.Durable` lets
-- steps interleave in any order. The sharing of a slice between the store and the states that it
-- returned is not modelled.
--
-- Not modelled: the search of `Load` for the configuration's file, the SSH client, key files, package installation, overlay providers, service
-- definitions, NGINX and firewall configuration, geolocation, logging and the command line, which
-- mostly build and run shell commands; the node agent, and the controller's background orchestration,
-- whose start is commented out in the program.
pub mod Prelude
pub mod Defaults
pub mod Config
pub mod Retry
pub mod Controller
pub mod Swarm
pub mod IpDetect
pub mod Ssh
pub mod Orchestrator
pub mod Keepalived
pub mod Scripts
pub mod Storage
