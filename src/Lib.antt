-- ===== src/Lib.antt =====
-- Verification of AriesMesh, a mesh of personal devices that share memory and run agents.
--
-- Two halves of the program are modelled: of the node, which is Python, the replicated memory with
-- its synchronisation and its file, the tokens, identifiers and shared secrets of devices, the
-- scheduler, the registry of ways to run a model, and the receipts; and the dashboard that a node
-- serves, which is JavaScript (React). The dashboard polls the node's HTTP API and listens to its
-- stream of events; the memory is what devices synchronise with each other; tokens say who may write
-- to it; the scheduler chooses the agent of a task, and receipts record what it did.
--
-- Memory/ is src/aries/memory/store.py. Key has `normalize_key`, `from_key` and `canonical_key`; Acl
-- has `_check_write_permission` and `_resource_covers_key`, over a decoder of tokens that is a
-- parameter; Entry is `LWWEntry` and Log is `AppendLog`. Store has the state of `MemoryStore` and its
-- reads and merges, Writes its writes and listings, Sync the exchange of differences. A store is a
-- record that each operation takes and returns; dictionaries are association lists in the order of
-- insertion; exceptions are values of `Result`; the hash of a value is a parameter; the time is an
-- argument. Valid has the well-formed stores and those that a device can have that starts without a
-- file; its Changes says what each operation does to the file. Lamport timestamps are floats that hold
-- whole numbers, here natural numbers that `next_tick` rounds; times are in milliseconds. Timestamps
-- that no device of the program makes by itself (fractions, negative ones, infinity, NaN, and integers
-- instead of floats) are left out.
--
-- Memory/Persist has `_save` and `_load` with the encoding of entries, over a JSON library that is a
-- pair of parameters. `restart` makes the store again from what the device saved; Restored and Crash
-- say what it has then. A stop in the middle of a write to the file is left out, and so are files that
-- the device did not write itself, such as those of earlier versions with keys in another form.
--
-- Memory/Service is src/aries/memory/sync.py: what a replica answers to each message, and a round of
-- request, response and update between two replicas with no other message between.
--
-- Identity/Ucan is src/aries/identity/ucan.py: attenuation, `decode` and `verify` over a record of the
-- libraries (`Codec`), and Chain the validation of chains of proofs, which shares `Capability` with
-- Memory/Acl; Issue signs tokens and has the two builders. The levels of `validate` are the source's
-- own limit on the depth. Identity/Did is src/aries/identity/did.py: base58 and did:key on lists of
-- bytes.
--
-- Identity/Keys and Identity/Shamir are the secret sharing of src/aries/identity/keys.py, by which a
-- household recovers its key. Keys has the tables and the arithmetic of GF(256): Evaluated and Tables
-- have its laws, and Gf256 makes a field of it. Shamir has `shamir_split` and `shamir_reconstruct`.
-- Field, Interpolation and Through work in any field of characteristic two; Split and Recover say what
-- the loops compute, Agree finds other polynomials with the same values. `secrets.randbelow` is a
-- parameter, a function of the position and the number of the call.
--
-- Scheduler is src/aries/scheduler/router.py: constraints, mandates with their time windows and the
-- filter; Health and Score compute the scores over any numbers, and Select is `select_agent`, which
-- gives the outcome and the scheduler with the weights that the mandates left. All mandates of a call
-- see one clock time.
--
-- Inference is src/aries/inference/registry.py: capabilities, models and the two kinds of configuration
-- with their estimates; Registry has `InferenceRegistry`, and what the handlers of src/aries/node.py make
-- of a peer's report and of its disconnection. A division by zero in a build is `none`, and the
-- computation that it ends is `zero_division`, which leaves the configurations of before. Tried lists
-- the builds; Feasible, Raises, Devices, Events, Best and Stale reason about the registry.
--
-- Receipts is src/aries/receipt.py: receipts as values, `add` and `verify_chain`, over a record of the
-- libraries (`Signing`) and the decoder of Identity/Did. Dict is a Python dictionary with text keys.
--
-- Hooks/ is dashboard/src/hooks. Sse is useSSE.js and Api is useAPI.js: the state of a mounted hook,
-- with the part of the browser that it depends on (open sources, pending timers, requests under way),
-- and one function for each callback. A run is the fold of `step` over any list of callbacks, and
-- `Reach` allows the callbacks that the browser can make, in any order.
--
-- Dom is what JSX evaluates to, and Dom/Query counts in it. Components/ is dashboard/src/components:
-- Age (the printed ages and durations, also `formatUptime` of pages/Topology.jsx), EventCard,
-- StatusBadge, HealthBar, Device (DeviceCircle.jsx, DeviceNode.jsx, DeviceTooltip.jsx) and Layout,
-- with App.jsx. Pages/ is dashboard/src/pages: Activity, Inference and Topology, each with its state
-- and handlers in the file of that name and what it renders in child modules. Elements of libraries
-- (icons, routes) stay tags. React's `key` attributes and the `ref` of a circle are left out.
--
-- Prelude has the shared names and lemmas. Prelude/Floats is an interface for floating-point numbers:
-- the code computes on any instance, and `IsOrdered` says that the comparison is a strict order (no
-- NaN) in which whole numbers up to 2^53 keep their order; `IsWeakOrder` adds that it is a weak order.
-- Prelude/Naturals is the instance of the tests.
--
-- Every recursion is structural. On fuel run the decimal print, the base58 digits and the bit length
-- of a number n: the fuel is n itself, which is enough since each step divides by two or more. The loops
-- of the tables of GF(256) run as often as their ranges say.
--
-- Not modelled: CBOR and the other encodings, the tasks and sockets of the synchronisation, households
-- and the files of keys, the YAML of mandates, inference sessions, the transport, continuations, the
-- node, the API server, the command line and the adapters. They are input and output, or follow later;
-- base64, JSON, hashes and Ed25519 are libraries, which stay parameters.
pub mod Prelude
pub mod Dict
pub mod Hooks
pub mod Dom
pub mod Components
pub mod Pages
pub mod Memory
pub mod Identity
pub mod Scheduler
pub mod Receipts
pub mod Inference
