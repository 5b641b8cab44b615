-- ===== src/Lib.antt =====
-- k8s-swarm: a controller that shares a fixed list of jobs among the pods of a StatefulSet, and the
-- worker service that reads its share.
--
-- The parts, and the files that model them (paths from the repository's root):
--
-- - Config: pkg/config/config.go. Job, Workload and Workloads, Equals, Difference, toMap, jobsEquals.
-- - State: services/controller/internal/app/swarm/state.go. BalanceWorkload, cleanAssignations, Workload.
--   State/Shares is an independent description of the shares; the other children prove what the loop
--   leaves in the map, what is covered and what is lost.
-- - Worker, Pool: worker.go and pool.go beside it. UpdateExpectedSize, AddWorkerIfNotExists,
--   RemoveWorkerByName, Terminate, conciliate, requestRestart, geAllWorkers. Workers are shared pointers:
--   the pool has a heap of workers, and its index maps names to places in the heap. Pool/System is the
--   pool as a transition system.
-- - Objects, Pod, StatefulSets: services/controller/internal/infra/k8s/operator/pod/handler.go and
--   statefulset/handler.go. Created, Updated and Deleted call the pool.
-- - Operator: event.go, selector.go, resource_event_handler.go and processor.go of
--   services/controller/internal/infra/k8s/operator; Operator/Queues is controller.go there, and
--   Operator/Lifecycle the two Run methods, of the processor and of the controller, as a transition
--   system. Operator/Watching is what the processors list and watch (operator/pod/watcher.go,
--   operator/statefulset/watcher.go); Operator/Typing and Operator/Contents follow the objects' kinds
--   through a queue.
-- - Storage: executor.go (Assign); Storage/Swarms is operator/crd/provider.go and v1alpha1/types.go,
--   Storage/ConfigMaps is operator/configmap/provider.go; the other children prove what is read back.
-- - WorkerApp: services/worker/internal/app/app.go, internal/config/config.go,
--   internal/transport/http/version.go, and cmd/worker.go, whose watchers of the configuration file are in
--   WorkerApp/Watching. WorkerApp/Serving has the version handler's reads one by one, between loads.
-- - Prelude and Text: maps and strings of Go, fmt.Sprintf of a number, strings.Split, strconv.ParseInt.
-- - Executor: executor.go (Assignation, RestartWorker) and operator/pod/provider.go.
-- - Controllers: the composition of services/controller/cmd/internal.go and external.go: two controllers,
--   each with a queue, over one pool, storage and cluster, as a transition system
--   (Controllers/Stepping); Controllers/Answering joins it to the
--   worker of WorkerApp; Controllers/Wiring makes its storage and executor of the clients, and
--   joins the ConfigMap to the worker's file. What an informer's indexer answers is chosen anew at each item
--   that is handled, as its objects come and go.
--   Controllers/External is the external command, with its third controller.
-- - SwarmHandler: operator/crd/handler.go, the handler of that controller.
-- - Clientset: the generated typed client,
--   services/controller/internal/infra/k8s/generated/clientset/versioned/typed/swarm/v1alpha1/swarm.go, as
--   the requests that it makes, and operator/crd/watcher.go. Clientset/Building is clientset.go and
--   swarm_client.go there: how the clients are made. Clientset/Fake is the fake of the typed client, in
--   generated/clientset/versioned/typed/swarm/v1alpha1/fake and generated/clientset/versioned/fake.
-- - Registration: apis/swarm/v1alpha1/register.go and the two of generated/clientset/versioned.
-- - Clients: services/controller/internal/infra/k8s/client.go. Listers:
--   generated/listers/swarm/v1alpha1/swarm.go.
-- - Informers: generated/informers/externalversions/factory.go, generic.go, swarm/interface.go,
--   swarm/v1alpha1/interface.go and swarm/v1alpha1/swarm.go.
-- - DeepCopy: apis/swarm/v1alpha1/zz_generated.deepcopy.go, with a memory of arrays.
-- - Remote: services/controller/internal/infra/transport/http/version.go asks the worker's routes, beside
--   pkg/infra/transport/http/health.go.
-- - Events: services/controller/internal/app/swarm/events.go. Logging: pkg/log/formatter.go and
--   logrusHook.go.
-- - Settings: SetCoreFlags and BuildLogger of pkg/config/config.go, and init and initConfig of cmd/root.go of
--   the two services.
-- - Examples: tests, and each theorem at an input where its hypotheses hold.
--
-- An informer delivers objects to the event handler (Operator.add, update, delete), which queues events;
-- the controller takes them from the queue (Queues.process_next_item) and the processor makes the calls
-- (Operator.handle) that the handlers turn into calls of the pool (Pod.Steps.dispatch_pod and
-- dispatch_stateful_set); the pool balances the jobs and sends the assignment to the storage.
--
-- Conventions. A string is its list of bytes. A map is a list of entries with unique keys, in an order
-- in which it may be visited. An int64 is its bit pattern, a number below 2 ^ 64, and a version wraps
-- around; sizes and indices are counts that are not negative. A panic and an error are values. Mutexes
-- make a method of the pool one step. Formatting a number n has fuel n + 1, more than the number of
-- its digits, and the text of an event takes the depth of the stack as fuel, for a call that never
-- returns; nothing else runs on fuel. Code that the repository only calls is an argument: net.ParseIP,
-- client-go's clients, key functions, indexer and work queue, YAML and mapstructure, JSON, viper, the
-- network, rest.Interface; what is used of them is stated as named laws (Operator.Retries.Counts, Operator.Draining.Waits,
-- Operator.Contents.Contents, Clientset.Tracking.Tracks, Listers.Found.IndexerLaws,
-- Storage.Writing.SwarmClientLaws, Storage.ReadingBack.ConfigMapClientLaws,
-- Clientset.Serving.ServerLaws, Controllers.Keeping.IsKeeping,
-- Controllers.Wiring.Both.AreApart, Controllers.Wiring.Calm.KeepsData, Controllers.Wiring.Mounted.ReadsYaml).
--
-- Not modelled: process start-up and signals, the HTTP servers, the formatter's settings of the
-- logger, the code generator's script, and what other repositories do.
pub mod Prelude
pub mod Text
pub mod Config
pub mod State
pub mod Worker
pub mod Pool
pub mod Examples
pub mod Objects
pub mod Pod
pub mod StatefulSets
pub mod Operator
pub mod Storage
pub mod Clientset
pub mod WorkerApp
pub mod Remote
pub mod Settings
pub mod Logging
pub mod Events
pub mod DeepCopy
pub mod Informers
pub mod Executor
pub mod Controllers
pub mod SwarmHandler
pub mod Listers
pub mod Clients
pub mod Registration
