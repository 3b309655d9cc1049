-- ===== src/Lib.antt =====
-- vk-turn-proxy-go: a client that carries local UDP or TCP traffic over several DTLS connections
-- through a TURN relay, and the server that ends them. A session binds a local ingress, starts
-- workers that each hold one connection, and supervises them; frames of the overlay protocol cross
-- the connections.
--
--   Base.antt        the shared names, Boolean tests, list and text lemmas, big-endian words, maps
--                    as association lists (Go's map), and results with an error.
--   RunStage.antt    internal/runstage/stage.go: errors that carry the stage at which a run failed.
--   Overlay.antt     internal/overlay: Adapter and Frame are types.go (NormalizeAdapter,
--                    ValidateAdapter, SupportedPair, MarshalBinary, UnmarshalFrame, ReadFrame,
--                    writeFrame), Workers is workers.go (SetReady, Remove, Next), Channel the
--                    non-blocking sends on the workers' queues, UdpIngress is udp_ingress.go (Run,
--                    Deliver, SetReady, Remove), TcpIngress is tcp_ingress.go, with the two
--                    goroutines of a stream in TcpIngress/Loops.
--   Config.antt      internal/config/config.go: the configurations and their Validate methods.
--   Session.antt     internal/session: Plan is plan.go (ValidatePolicy, buildSessionPlan,
--                    buildTransportPlan), over a parameter for net.ParseIP; Supervisor is
--                    runSupervisedSession of supervisor.go; Runtime is Run of runtime.go, with policy.go
--                    and netaddr.go; Ingresses fills the interface that the supervisor
--                    needs with the two ingress adapters of Overlay.
--   TunnelServer.antt  internal/tunnelserver/overlay_session.go: Handshake is newServerOverlaySession
--                    and newEgressAdapter, ClientFrames is runClientFrames and the end of Run, UdpEgress the
--                    UDP egress (HandleFrame, Run), TcpEgress the TCP egress (HandleFrame, Close), with
--                    runStream and its two goroutines in TcpEgress/Streams.
--   Catalog.antt     internal/vpscatalog: Types and Messages are types.go, Clone is clone.go, Validation
--                    is validation.go (ValidateSnapshot in Snapshot, ValidateOfferReadiness,
--                    AttachIntegrity), Service is service.go, with the locked part of
--                    handleArtifactIssue in Service/Issue, the handlers in Service/Handlers, and the
--                    sequences of locked steps in Service/Sections. Library is the parameter for
--                    SHA-256, JSON and the formats.
--   ClientControl.antt  pkg/clientcontrol: Types is types.go, Host is host.go: the state and
--                    publishEvent, with startSessionFromSpec, StopSession and finishSession in
--                    Host/Sessions, handleRuntimeRecord in Host/Records, the challenges in
--                    Host/Challenges, and the sequences of locked steps in Host/Steps. Of
--                    resolution.go, Host/Resolutions is how a resolution is read, expires and is
--                    cancelled, with its start, its end and its export in the files below it, and
--                    Artifacts what a provider's answer becomes in its snapshot. Execution is
--                    runtime_execution_planning.go and runtime_execution_matrix.go: the plans of a
--                    start, the matrix and the choice. VpsCatalogs is the sync and the cache of
--                    vps_provider_catalog.go, over Catalog, with the checks of an
--                    issued artifact in VpsCatalogs/Issue.
--
-- The supervisor calls an ingress by SetReady and Remove. Supervisor takes them as a record Ingress,
-- its laws as a record IngressLaws (a map from workers to channels), and Session/Ingresses fills
-- them for the two adapters of Overlay. A frame that the ingress makes goes to a worker's queue;
-- Channel numbers the queues.
--
-- Numbers are natural numbers. An index, a count of restarts or of workers is an int of the source,
-- taken without a bound; identifiers of routes and streams are uint64, and wrap where
-- the source computes with them. A byte is a number below 256. Counters step
-- by one, `ready_workers - 1` is the source's `readyWorkers--`, and the values that a configuration
-- may give as negative are integers (Base/Int).
--
-- Concurrency: the loop of the supervisor handles one event in a round; which event comes next is
-- free, subject to `Sent` of Supervisor/Reach: a worker's hook and its end come from a goroutine that
-- was launched, a restart from one that was scheduled. Methods that hold a mutex for their whole body
-- are one step; the locked parts of the catalog service and of the client control host follow one another
-- in any order. No loop of the model needs fuel: each is a recursion on the events, reads or workers
-- that it goes over.
--
-- Not modelled: the server's admission of connections, the transport below a
-- worker (TURN, DTLS, STUN), the providers, what the client control host does besides
-- sessions, challenges, resolutions, execution plans and synchronised catalogs (its profiles, the
-- file of the catalogs' cache and the record of an issued artifact, its
-- platform tunnels, the brokers around a challenge and its subscribers), the hosts for desktop, Android and Linux, logging, and the real clock; the socket and
-- the connection are inputs of the functions that read them.
pub mod Base
pub mod Catalog
pub mod ClientControl
pub mod Config
pub mod Overlay
pub mod RunStage
pub mod Session
pub mod TunnelServer
