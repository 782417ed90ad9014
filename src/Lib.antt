-- ===== src/Lib.antt =====
-- inari-agent: a model of the agent's own logic, with the theorems that make it correct.
--
-- The agent keeps one outbound stream to its control plane. The stream client supervises sessions;
-- the controller takes events off the stream, hands commands to the dispatcher and answers each with
-- an ack or a nack; the dispatcher keeps acks in memory and in a journal, so that redelivered
-- commands are not executed again. Beside it the aggregator streams the capabilities of the cluster,
-- the status streamer the health of its resources, the addon scanner the Helm releases it knows, and
-- the tunnel agent relays HTTP requests of the hub to the API server.
--
-- The files, with the code each is about:
--   Prelude          strings as bytes, maps as association lists, results, searches, shared lemmas
--   Wire             names of inari.agent.v1 that the code uses; the generated code as `Decoder`
--   Command          internal/command: errors.go (Fault), bridge.go and commandIDOf (Identity),
--                    dispatcher.go (Dispatcher), journal.go (Journal)
--                    The handlers of commands, with redeem.go (Handlers): those that write to git
--                    (GitOps), the rebinding of the state repository (Rebind), actions of ArgoCD
--                    applications (Action), their registration (Register)
--   Controller       internal/controller: dispatch and handleCommand (Routing), the credential phase
--                    of Start (Identity), stateRepo and configure (Config)
--   Stream           internal/stream: nextDelay (Backoff), sessionCause (Cause), Run (Supervisor),
--                    the rotation of a session (Rotation), its select loop (Liveness), Send with the
--                    pong branch and the send pump as interleaved steps (Sequence)
--   Capability       internal/capability: aggregate.go (Chunks, Snapshot, Replay), checksum.go
--                    (Checksum), the image parsing of metadata.go (Image)
--   Tunnel           internal/tunnelagent: handler.go (Registry, Pump), relay.go (Relay, and
--                    applyHeaders in Headers)
--   Status           internal/status: streamer.go (Streamer, Health, Watches), watch.go (Watches)
--   Addonscan        internal/addonscan/scanner.go
--   Git              internal/git: provider.go (Target, Provider), mem.go (Memory), github.go (GitHub)
--   Render           internal/render: renderer.go (Instance), secretstore.go (SecretStore), bundle.go
--                    (Bundle)
--   Argocd           internal/argocd: apps.go and manifest.go (Apps), lifecycle.go (Skew, Lifecycle),
--                    install.go (Lifecycle, Install), api.go (Api)
--   Registration     internal/registration: Register (Registrar), ReadSecret (SecretReader)
--   Health           internal/health/health.go
--   Cmd              cmd/main.go: the parsing of environment variables
--   Scenarios        concrete runs, which instantiate the parameters
--
-- Functions keep the code's names in snake case. State is a record that operations take and return;
-- the world that handlers, clients and senders act on is a type parameter `W`. Errors are values of
-- Outcome, or an Option Str where the code returns only an error. A child module of an operation's
-- module holds what is proved of it.
--
-- Code that may stop early, by an error or by the answer of a handler, is an `Effect` in Prelude/Effect,
-- written in do blocks; `Keeps` says that a step keeps a predicate of the world. A theorem that bounds
-- what code does to the world holds of every predicate that the permitted calls keep. Unstructured
-- documents are the type of Prelude/Docs.
--
-- Parameters stand for code outside the repository: protobuf (`Decoder`), the Kubernetes client of
-- one ConfigMap (`ConfigMapApi`, with `IsStore`: an accepted update is what is read next, keys are
-- distinct), encoding/json of acks (`AckCodec`, with `IsInverse`), float64 (`Floats`), the stream
-- client of a replay (with `IsSender`: an update is delivered or an error reported), checksums and
-- hashes, the GitHub Data API (`GitHubApi`), the objects of ArgoCD (`ObjectApi`, with `IsObjectStore`: a
-- read returns what is there; a write that succeeds leaves its labels and what the API server makes of
-- its spec, and touches no other object; of one that fails only the latter is said), net/http, net and
-- crypto/tls of the relay (`Net`, with `KeepsBooks`: dialing opens a socket, closing closes it), the registration ConfigMap of a start (`IsMapStore`: Create
-- succeeds only where there is nothing), YAML, the registry and the clone of bundles, strconv.Atoi,
-- reflect.DeepEqual, HTTP, discovery of APIs, label selectors, the relay's result and the reads of a body.
--
-- Bounds: Record makes three attempts, as its loop does; evictions stop at `max_journal_entries`;
-- the send queue holds 256 items and an inbound queue 64. All loops are structural recursion over
-- what they range over (attempts, keys, events, reads), so no fuel is needed. Durations, byte counts
-- and revisions are natural numbers; a negative duration, which the code treats as 0, is 0. The sums
-- of byte counts stay far below the range of int64 and do not wrap.
--
-- Concurrency: HandleEvent is called by the controller's one event loop, a handler's messages come
-- from the stream's one receive loop, and ConfigMapJournal holds its mutex, so that these are single
-- steps; other writers of the ConfigMap act inside `W`. The senders of the stream client interleave
-- freely. The inbound pump of a connection charges bytes between the reads of the outbound pump, and it and
-- deliverFrame send Closes between runConn's messages. Where the code ranges over a map, the order of
-- the association list stands for Go's; the theorems on checksums and reports hold for every order.
--
-- Not modelled: the handshake and HTTP transports, the deadline of an action, watchers and informers,
-- the part of Start behind the client secret, the GitHub App's token source, metrics, logging, where
-- the inbound pump writes, the client of the tunnel agent, and the wiring of the main programs. Most of
-- their work is calls of other systems.
pub mod Prelude
pub mod Wire
pub mod Command
pub mod Stream
pub mod Controller
pub mod Capability
pub mod Tunnel
pub mod Status
pub mod Addonscan
pub mod Git
pub mod Registration
pub mod Health
pub mod Cmd
pub mod Render
pub mod Argocd
pub mod Scenarios
