-- ===== src/Lib.antt =====
-- Materia deploys components of podman quadlets and systemd units on a host: it reads what is
-- installed and what the sources assign to the host, makes a plan of steps from the difference and
-- runs it under a lock. This library models this way, from the files of the sources and the host to
-- the validated plan and the run of its steps, as functions by clauses over records, and proves what
-- makes it right.
--
-- The parts and their files:
-- - Base: shared helpers on native numbers, lists, texts, paths and stable sorting.
-- - Errors: every place that makes an error as a constructor, a result type, and `OnOk`, what a
--   result satisfies if it is no error.
-- - Deps: the third-party packages as one instance argument: gods' linked hash map, tree map and tree
--   set, go-diff, podman's unit file parser and TOML values, with the documented behaviour that the
--   code relies on (for differences, of texts in valid UTF-8). Deps/Model fills it by plain lists.
-- - Disk: the calls of os, io/fs and path/filepath on a disk that is a list of paths with their
--   entries, and computations that change a disk and may fail.
-- - Services: pkg/services. Services has service_state.go, service_set.go, and Service, Started and
--   PathToService of services.go; Services/Manager is ServiceManager with its constructor, ApplyService,
--   GetService, WaitUntilState and RunOneshotCommand; Waiting has proofs.
-- - Manifests: pkg/manifests/component.go (ServiceResourceConfig, Settings, MergeComponentManifests,
--   ExtendComponentManifests); Manifests/Hosts is pkg/manifests/materia.go.
-- - Components: pkg/components. Kind has ResourceType and FindResourceType, Resource the methods of
--   Resource, ResourceSet and ServiceConfigs the two sets, Component the methods of Component,
--   Combined the reading of .quadlets files; SetLaws, SetKeys, Applied, Manifested and Units have
--   proofs.
-- - Repository: internal/repository. Host and Changes are component.go, Source is source.go and Plain
--   is file.go; Keys, Installed, Written, Lookup and Removal have proofs.
-- - Attributes: internal/attributes (main.go, mem, file) and internal/materia/attribute_engine.go;
--   Precedence has proofs.
-- - Loader: pkg/loader. Stages are the stages and Pipeline is main.go; Keys and Readers have proofs.
-- - Actions: pkg/actions/actions.go (Action, Validate).
-- - Plan: pkg/plan. Priority is getDefaultPriority, Steps is mergeStepsIntoPlan and
--   coalesceServices, Build is Add, Append and Steps, Validator the five checks; Order, Contents,
--   Merge, Dumps, Installs, Checks, Coalesce and Phases have proofs.
-- - Planner: pkg/planner. Graph is graph.go; of planner.go, ServiceActions is getServiceAction,
--   resourceActionWithMetadata and serviceStateHelper, Cleanup the cleanup and the migration of
--   volumes, Resources the steps on resources, Triggers and Ensure what their names say, ServicePlan
--   is GenerateServiceActions and Planning the three kinds of components and Plan; Convergence,
--   Updates, Unchanged, Lifecycle, Migration, Sides, Pairing and Validity have proofs.
-- - Executor: pkg/executor. Host is host.go, as calls that may change the host and fail, Services is
--   service_helpers.go, Handlers the handlers of component.go, files.go, quadlet.go, scripts.go,
--   secret.go, unit.go and volume.go, Table is handler.go and executeAction, and Run is Execute;
--   Coverage, Effects, Noted, Expects and Success have proofs.
-- - Sources: pkg/sourceman/sourceman.go (Sync, Rollback, AddSource) and pkg/source/main.go;
--   Sources/Remotes is LoadRemotes; Rollback has proofs.
-- - Lock: pkg/lock/file.go, as steps of several processes; Exclusion and Leak have proofs.
-- - Engine: internal/materia. Backend is Materia with its lock, Assigned is GetAssignedComponents and
--   getRolesFromManifest, Planning is Plan and PlanComponent, Execution is execute.go and
--   ValidateComponents, CleanComponent and PurgeComponenet; Held, Missing, Planned and Executed have
--   proofs. It puts the loader, the planner, the validation and the executor together.
--   Settings are materia_config.go, rollback.go and the checks of pkg/executor/executor_config.go, and
--   Setup is NewMateria, setupVault and snippet.go; Configured has proofs.
-- - Hostman: pkg/hostman/hostman.go, the repositories as the host that the executor calls and the
--   loader reads; Units puts the service manager in the place of the host's calls on units. Converged
--   and Fresh have proofs.
-- - Notify: pkg/notify.
-- - Commands: Clean of internal/materia/materia.go and the command `update` of cmd/materia/main.go;
--   Commands/Server is cmd/materia/server.go; Directories and Setup are cmd/materia/setup.go, which
--   puts the settings, the sources, the host and the engine together. Updated, Served, Made and Started
--   have proofs.
-- - Samples: a small web component, a computed plan for it, disks, locks, units, an engine, a start
--   and a server, and each theorem at one input.
--
-- How the code is read:
-- - A pointer that may be nil is an Option; the pointers of a component to its sets are never nil. A
--   dereferenced nil pointer is the error `panic`. What a method changes in place is returned; a
--   component that an action refers to stays as it was when the action was made.
-- - A Go map is the list of its entries, its order of iteration fixed only where the code sorts.
-- - Priorities are literals from 0 to 7 and natural numbers here; timeouts and versions are the 64-bit
--   patterns of an int, and their sums wrap. The texts of errors, logs and printed plans are left out.
-- - The host answers each question in one way while a plan is made (`HostState`); while a plan is
--   executed, its state is passed on from call to call, and what a call does is a parameter. The
--   loader reads a repository at one state of the disk.
-- - A disk has files and directories under clean paths; permissions, links, full disks and changes by
--   others between two calls are left out. A write makes or replaces a file in a directory that is
--   there, and a directory is only removed when nothing is below it.
-- - A lock that is waited for is two steps, the start of the wait and the return of it, between which
--   other processes go on. Planning and executing are calls with the lock as a parameter.
-- - The goroutines of the final check of Execute run one after the other, in the order of the entries.
-- - A wait for the state of a unit goes on for as many ticks of its ticker as the clock gives before the
--   timer or a cancellation, a number that is a parameter; between two ticks the host moves on.
-- - Every loop is structural recursion on the list it walks, so that no fuel is needed; the walk of a
--   directory goes over the entries of the disk.
-- - Contexts are not cancelled, but for the wait for the file lock.
--
-- Not modelled, because it is input and output, a call of a library, or generated: the systemd and
-- podman connections, text/template and the TOML parser (parameters), the fetching of git, OCI and
-- file sources, the D-Bus lock, the age and sops vaults, the sending of notifications, facts, the
-- macros, the reading of configuration files, the varlink socket and the command line. The calls of
-- the server's goroutines, which may overlap, are one after the other.
-- `ExtendComponentManifests` appends to slices that may share their arrays with the original, which is
-- not followed.
pub mod Base
pub mod Errors
pub mod Deps
pub mod Disk
pub mod Services
pub mod Manifests
pub mod Components
pub mod Repository
pub mod Loader
pub mod Actions
pub mod Plan
pub mod Attributes
pub mod Sources
pub mod Lock
pub mod Planner
pub mod Executor
pub mod Engine
pub mod Hostman
pub mod Notify
pub mod Commands
pub mod Samples
