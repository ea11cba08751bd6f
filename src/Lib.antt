-- ===== src/Lib.antt =====
-- October Bus: the store that coordinates the agents of a workspace, on its local engine.
--
-- Agents register in a scope under a lease, link with each other, exchange messages through inboxes
-- with reservations, share tasks with claims and progress logs, and ask humans. All of it is rows of
-- a database; each call of the store is one transaction, and each change writes an event.
--
-- The parts, with the Go code that they model:
--   Protocol      bus/protocol.go, bus/errors.go: enums, inputs, error codes and their HTTP status
--   World         bus/schema.go: the rows of the tables, with the clock and the random source
--   Rows          the SQL statements of the store as functions on lists of rows; Rows/Laws,
--                 Rows/Keys and Rows/Numbers what they do to rows, keys and numbered rows
--   Tx            transactions: a success with the next world, or an error code; beginTx, Commit
--                 and the deferred Rollback are `transact`
--   Tx/Keeps, Tx/Frame, Tx/Success   rules to reason about a transaction: what it keeps along a
--                 preorder of worlds, what it leaves alone, and what its success means
--   Session       bus/scope_authority.go beginTx, bus/store.go requireCurrentExecution;
--                 Session/Current what an operation for an execution has checked
--   Events        bus/events.go appendEvents: the numbered log of each scope; Events/Reading Events
--   Peers         bus/store.go orderedPeers, linkAgents, LinkAgents, linkedAgents
--   Delivery      bus/store.go expireMessages, releaseReservation; Delivery/Send sendMessageTx and
--                 SendMessage; Delivery/Inbox ReserveInbox, CommitInbox, ReleaseInbox,
--                 AcknowledgeMessages and Receipt
--   A2a           bus/a2a_tasks.go: the states of remote tasks, and how messages move them
--   Tasks         bus/store.go addTask, ClaimTask, CompleteTask, ReleaseTask and
--                 releaseStaleTaskClaims; Tasks/Listing ListTasks and bus/task_page.go;
--                 Tasks/Progress bus/task_progress.go
--   Agents        bus/store.go registerAgentTx, Heartbeat, the lookups of tokens; bus/retire.go
--   Escalations   bus/store.go AskHuman, ResolveEscalation
--   Credentials   bus/scoped_credentials.go: credentials for one resource, as text and as rows
--   Outputs       bus/output_streams.go: the streams of a scope; Outputs/Publish the quota and
--                 PublishOutput, Outputs/Read the history and the last value, Outputs/Principals
--                 bus/output_principals.go
--   Channels      bus/channels.go CreateChannel, SubscribeChannel and PostChannel; Channels/Reading
--                 its Channels and ChannelHistory
--   Validation    bus/validation.go
--   Waiting       what a runtime keeps in memory for readers that wait: Waiting/Budget the wait
--                 budget of bus/capacity.go, Waiting/Signals bus/inbox_wait.go
--   Bus           a request is one call; `run` is a history of requests, one after another
--   Evolution     what a transaction may do to each table, and that every statement of the store
--                 stays within it; Evolution/Numbering the numbers of the events,
--                 Evolution/Windows those of the values of a stream, Evolution/Others the shared
--                 tables whose statements name the scope: usage, channels, subscriptions, posts.
--                 Reservations, correlations and the rows of streams, publishers and credentials
--                 are addressed by an identifier alone and may change freely under a step, but for
--                 the windows of the streams
--   Tests         a concrete scope in which the general statements are applied
--
-- How the code corresponds: a function of the store is a definition with its name in snake_case; a
-- long function is cut into named parts that stand in the order of its statements. The WHERE clause
-- of a statement is a test on rows, and its SET clause a function on rows. An error is its code, the
-- text is left out. A message whose mode is empty is sent as a notification; the input of the model
-- has the mode already filled in.
--
-- Bounds: the loop of appendEvents takes 128 events a round; its fuel is the number of events, which
-- is enough since a round with more events takes some of them. All other loops are over lists. Times
-- are milliseconds in ℕ; the code uses int64, which they never leave in practice.
--
-- Parameters: the readings of the clock, the random texts, the hash functions and the mapping of a
-- text to lower case are parts of the world, since the code takes them from the system and its
-- libraries.
--
-- Waiting in memory: each call of the budget and of the signals runs under a mutex, so that a list of
-- calls is any interleaving of the readers. A Go map is an association list, the pointer of a signal
-- is the number of its channel, and a function that is returned and works once is the number of the
-- ticket or of the subscription. A range over a map meets the keys that still stand in it.
--
-- Not modelled: errors of the driver; foreign keys but for the rows that a deletion takes along, and
-- CHECKs; the hosted engine (bus/hosted_*.go), whose hooks do nothing on the local one; attachments,
-- archives, storage, publications, remote principals and the acceptance of remote messages; the
-- list of stream credentials, which only reads; the loops in which a runtime waits for a signal or a
-- deadline; the JSON of values and the checks on it; the HTTP server, the client, the gateway and the
-- command line, which carry requests to the store.
pub mod Base
pub mod Protocol
pub mod Credentials
pub mod Outputs
pub mod Validation
pub mod Channels
pub mod Waiting
pub mod World
pub mod Rows
pub mod Tx
pub mod A2a
pub mod Evolution
pub mod Events
pub mod Session
pub mod Peers
pub mod Delivery
pub mod Tasks
pub mod Agents
pub mod Escalations
pub mod Bus
pub mod Tests
