-- ===== src/Lib.antt =====
-- A verification library of sofmat: the parts of the Go program that decide something, translated into
-- functions that compute, and the theorems that make them correct.
--
-- The program joins several machines into one language-model server. Nodes exchange activations and KV
-- states over TCP (framing, auth, transport, kvhandoff). A gateway decides for every request where the
-- prompt is processed and remembers what the engines hold. The coordinator spreads conversations over the
-- engines, sees to it that their states are deleted, and takes engines out of service while a job trains
-- on their nodes. The partitioner assigns the layers of a model to the nodes, by the sizes that a reader
-- of GGUF headers finds. A guard keeps the automatic
-- update of the program from running in circles.
--
-- Files and the code that they are about (paths from the repository's root):
--
--   Base                what the files share: tests, lists, strings, results, a step of state and
--                       errors, Go's maps (Assoc), integers (Int) and the 64-bit patterns of Go's int (Words)
--   Wire/Bytes          big-endian numbers, as encoding/binary reads and writes them
--   Wire/Framing        internal/framing/framing.go: EncodeActivation, DecodeActivation, ExpectedBytes,
--                       FrameControl, DecodeControl and their validations
--   Wire/Auth           internal/auth/auth.go: Sign, Verify
--   Wire/Transport      internal/transport/transport.go: TCPTransport, the frames and both handshakes
--   Wire/Handoff        internal/kvhandoff/kv_handoff.go: SendKV, RecvKV, SeqIDToSlot, over the interface
--                       Transport, which Wire/Handoff/Tcp implements with Wire/Transport
--   Gateway/Lru         the registry KnownPrefixes of internal/gateway/admission.go, and the sticky map of the
--                       balancer
--   Gateway/Admission   EstimateTokens and ClassifyAdmission of internal/gateway/admission.go, Admit of
--                       internal/gateway/admit.go
--   Gateway/Prompts     lastPrompts of internal/gateway/cachecost.go, over Gateway/Lru
--   Gateway/Backends    internal/gateway/roleplan.go: BackendsFromRolePlan
--   Gateway/Ring        Ring of internal/gateway/policy.go: NewRing, Add, Remove, Route
--   Gateway/Depth       of the same file: NMaxForAlpha, NextWaveNMax, ClassifyDomain, AlphaEma
--   Update/Guard        cmd/sofmat/updateguard.go: the updater's state file, admitArtifact, spendAttempt,
--                       refundAttempt, noteRefusedTag, alreadyRefused, noteInstalled, blockedReason
--   Coordinator/Balancer  internal/coordinator/balancer.go: claims, the sticky choice of an engine, pick with
--                       its waiting loop, the fence of training
--   Coordinator/Janitor internal/coordinator/kvjanitor.go: track, ctlsOf, purge and sweep, over agents that
--                       answer a deletion
--   Coordinator/Train   internal/coordinator/train.go: the transactions of training, their fences in the
--                       balancer and in the KV handoff, their file, and the handlers that begin, end and
--                       watch them; Instance of internal/config/config.go
--   Gguf                internal/gguf/gguf.go: the values and the header of a model file (parseHeader,
--                       ReadMetadata), TensorTable (Tensors), weightsBytes and ModelSpec (Spec); Print is a
--                       writer of such files, of the format's own
--   Partitioner         internal/partitioner/solver.go: profiles and sizes; Layers is assignLayers, Plans is
--                       planForSubset and combinations, Solve is Solve, Roles is SolveRoles,
--                       Replicas is SolveReplicas, with its caches and, for reference, without them
--
-- State. A connection is a record with the bytes that wait to be read, the bytes that were written, and
-- a flag for a dead connection; a method of the code is a function from it to a result and the next
-- one. A Go map is an association list without repeated keys. A slice of bytes is a list of numbers,
-- each below 256 where a theorem needs it.
--
-- Integers. A uint32 or a uint16 is a natural number below its power of two. The arithmetic on int that a
-- peer can drive over 2 ^ 63 (sizes of frames and tensors) is done on 64-bit patterns and wraps;
-- counts of tokens and of layers are integers without a bound, since they come nowhere near it.
--
-- Loops are recursions on a list, on a number of dimensions, of chunks or of sleeps before a deadline, and
-- need no fuel. Two recursions have it. rdVal, which reads arrays of arrays, has twice the bytes that are
-- left and one, which is enough, since every value takes a byte at least (Gguf/Fuel). bestAssignment has
-- the number of its nodes, and each call has fewer nodes (Partitioner/Replicas/Fuel).
--
-- Concurrency. A method that holds its lock is one step. In pick, what other requests do while one sleeps
-- is a function of the round, and what they do between the last test of the room and the claim, which no
-- lock joins, is another function. In the handlers of training too,
-- what others do during a wait is a function of the round; the fences of one transaction are set in one
-- step with its entry.
--
-- Parameters. HMAC-SHA-256 and SHA-256 are functions of which only what a theorem names is assumed, the
-- tokenizer is an optional function, the expression of the code markers and strings.ToLower are
-- functions, the ring takes SHA-256 and the printing of a number as they are, and a sort by the hash for sort.Slice, which
-- may put points with one hash in either order, the
-- floating point test of a budget is a pair of functions, and the largest allocation that the runtime
-- gives is a number. The partitioner runs over any record of operations for float64; the theorems on the
-- fastest plan and on the fewest nodes ask for the laws of a comparison without NaN. In training the
-- parameters are what an engine answers at /health, the launch of a preset, the layouts of a time and the
-- number of sleeps that fit in a budget. The reader of headers takes what os.Stat says of a file, whether
-- a path is a shard's, and the names of the other shards.
--
-- Not modelled: CanonicalizePrompt and PrefixKey, sockets, timers and goroutines, HTTP and JSON, the operating system, and the floating point
-- arithmetic of the cost models.
pub mod Base
pub mod Wire
pub mod Gateway
pub mod Update
pub mod Coordinator
pub mod Partitioner
pub mod Gguf
