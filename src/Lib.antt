-- ===== src/Lib.antt =====
-- The Cloud: the services that decide who may do what, that hand out messages, that run instances
-- in networks with volumes and load balancers, that run jobs on a schedule, and that scale groups
-- of instances. The Go program is a set of services over PostgreSQL tables; a request passes the
-- middlewares of pkg/httputil, then a handler calls a service of internal/core/services, which
-- calls repositories of internal/repositories/postgres and backends. Workers call the same
-- repositories on a timer.
--
-- Which file models what:
--   Prelude, Prelude/*   lists, tests and integers that the other files share
--   Errors               internal/errors/errors.go
--   Action, Action/*     what a service method is: an action on its tables (below), its rules
--   Iam/Types, Iam/Repo  internal/core/domain and repositories/postgres: users, roles, keys, tokens
--   Iam/Rbac             internal/core/services/rbac.go: Authorize, HasPermission, BindRole
--   Iam/Http             pkg/httputil: the middlewares Auth and Permission, the status of an error
--   Iam/Identity         internal/core/services/identity.go: API keys
--   Iam/Auth, Iam/Reset  internal/core/services/auth.go and password_reset.go
--   Queue/Types, Repo, Service
--                        internal/core/domain/queue.go, repositories/postgres/queue_repo.go and
--                        internal/core/services/queue.go
--   Scaling/Types, Repo, Service, Reconcile, Worker
--                        internal/core/domain/autoscaling.go, repositories/postgres/autoscaling_repo.go,
--                        internal/core/services/autoscaling.go and autoscaling_worker.go
--   Ports, Ports/Strings the port mappings of internal/core/services/instance.go and
--                        autoscaling_worker.go, with strings.Split, Join, TrimSpace and strconv.Atoi
--   Net/Address, Allocate
--                        addresses of a subnet: internal/core/services/instance.go and subnet.go
--   Deploy/Types, Repo, Service, Worker
--                        internal/core/domain/container.go, repositories/postgres/container_repo.go,
--                        internal/core/services/container.go and container_worker.go
--   Infra/Types          the tables of instances, networks, volumes and load balancers, from
--                        internal/core/domain, and what the services use of other code
--   Infra/Network/Repo, Service
--                        internal/core/services/vpc.go and subnet.go, repositories/postgres/vpc_repo.go
--                        and subnet_repo.go
--   Infra/Compute/Repo, Launch, Lifecycle
--                        internal/core/services/instance.go, repositories/postgres/instance_repo.go
--   Infra/Storage/Repo, Service
--                        internal/core/services/volume.go and snapshot.go,
--                        repositories/postgres/volume_repo.go and snapshot_repo.go
--   Infra/Balancer/Repo, Service, Worker
--                        internal/core/services/loadbalancer.go and lb_worker.go,
--                        repositories/postgres/lb_repo.go
--   Cron/Types, Repo, Service, Worker, History
--                        internal/core/domain/cron.go, repositories/postgres/cron_repo.go,
--                        internal/core/services/cron.go and cron_worker.go
--   Secrets/Types, Crypto, Repo, Service
--                        internal/core/domain/secret.go, pkg/crypto/crypto.go,
--                        repositories/postgres/secret_repo.go, internal/core/services/secret.go
-- The other files below these hold the proofs, and Tests the examples.
--
-- How the program is modelled:
--   - A method is an Action: it takes an environment and a world and gives a result and a world. The
--     world holds the tables, the journal of events and audit rows, and a counter. Every call that
--     leaves the program (a query, the clock, uuid.New, a backend) counts it up, and the environment
--     says at each count whether the call fails, the time and the next identifier. So a theorem for
--     every environment covers every pattern of failures.
--   - `if err := f(); err != nil { return err }` is a step of a do block, `attempt` keeps the error
--     as a value, `ignore` drops it. Error messages are dropped, the types of errors stay.
--   - A table is a list of rows, in the order that queries return them. Primary keys, UNIQUE, CHECK and
--     cascades of the migrations are written out; a constraint on a table of another part shows as
--     a failing call.
--   - Identifiers are numbers, uuid.Nil is 0; times are seconds, by one clock for the program and the
--     database; strings are lists of bytes. Loads of a CPU are in hundredths of a percent. Integers of
--     a request are signed where the code tests their sign.
--   - A block under a mutex is one step, and so is an SQL statement; a transaction gives back the
--     tables as they were if it does not commit. `locked` says which rows SKIP LOCKED passes over.
--   - AES-GCM, HKDF, base64, bcrypt, SHA-256, the random source, the password validator and fmt.Sprintf are parameters. The
--     worker of the groups sees the instances, load balancers and metrics through the interface
--     Fleet: any actions on a state of their own.
--   - The services under Infra share one set of tables, since the foreign keys between them matter: a
--     deletion writes out what ON DELETE does to the other tables. `query` wraps an error of the driver
--     as the repositories do. The record Backend holds what is not in the repository or only passes
--     commands on (the container engine, Open vSwitch, nginx, files, TCP, uuid.Parse, net.ParseCIDR,
--     the texts of cidr and inet, fmt.Sscanf, the order of a walk through a Go map): any functions, and
--     any actions on a state of their own, the field `outside` of the tables.
--   - A launch can end in a nil dereference, the value `panicked` of Outcome. Infra/Balancer/Life has
--     the life cycle of a load balancer as a step relation, and histories of requests and rounds of
--     the worker; Queue/Exclusive has histories of calls on messages. The background task of a snapshot
--     is an action of its own.
--   - The jobs of Cron are run by goroutines: the state has the jobs that run, as they were read, and an
--     event ends any one of them, in one step. Parsing a schedule is a parameter that gives the
--     function Next; times are counted from the zero time of Go, which Next returns for a schedule that
--     names no time. A panic ends the process and all goroutines.
--   - The worker of the deployments can panic: an index out of range ends it with a value of its own.
--   - All loops are over lists or over a number of steps, except the search for an address, which runs
--     on fuel: the size of the network is enough, and a theorem says so. A network that begins at 0
--     is left out there, since the search of a whole address space does not end when all is used.
--
-- Not modelled: security groups, stacks, notifications, functions, the gateway, storage,
-- caches and databases; GetInstanceStats, which computes with floating point; the handlers,
-- the backends and the command line client. Timestamps of creation and of updates, ARNs and metrics
-- are left out of the records that are modelled.
pub mod Prelude
pub mod Errors
pub mod Action
pub mod Iam
pub mod Queue
pub mod Scaling
pub mod Ports
pub mod Net
pub mod Deploy
pub mod Infra
pub mod Cron
pub mod Secrets
