-- ===== src/Lib.antt =====
-- Agentic juggling: a central server that runs matches between agents, and the nodes that play them.
--
-- The program has two processes. The central server (central_server/) authenticates nodes and agrees on
-- a session key with each (registry/nodes.py, crypto/session.py, network/router.py), keeps the matches
-- and moves them through LOBBY, STARTING, RUNNING and FINISHED (match/store.py, match/manager.py), sends
-- each node its sealed schedule of prompts, and turns the metrics of the nodes into a leaderboard that
-- is pushed to WebSockets (metrics/, api/broadcast.py). A node (node/) registers, opens the START packet,
-- fires each prompt into a terminal window at its time, and reports metrics until a STOP.
--
-- The files and the code that they model:
--   Registry            central_server/registry/nodes.py, class NodeRegistry
--   Crypto, NodeCrypto  central_server/crypto/session.py and node/crypto.py
--   Codec               base64 and UTF-8, as `_b64e`, `_b64d`, encode and decode of the two crypto modules use them
--   Match.Config        central_server/match/store.py: the dataclasses, the JSON document of `create` and
--                       `parse_assignments`; Match.Config.Text has the text of that document
--   Json                the values of JSON documents, with json.dumps in Json.Write, json.loads in Json.Read, both
--                       over bytes in Json.Document; Json.Text has their strings, Json.Number their numbers
--   Match.Store         central_server/match/store.py, class MatchStore: the table as the connection reads it
--                       and as it is committed; Match.Store.Row has its rows as columns
--   Metrics.Store, Metrics.Scoring
--                       central_server/metrics/store.py and scoring.py
--   Sorting             `sorted` with a key and ORDER BY
--   Api                 central_server/api/admin.py and leaderboard.py, a function for each route
--   Broadcast           central_server/api/broadcast.py
--   Server, Server.Wire the state that central_server/main.py shares out, and the messages
--   Server.Router       central_server/network/router.py and central_server/metrics/ingester.py
--   Manager             central_server/match/manager.py, class MatchManager
--   World               the running server: what the event loop interleaves; World.Contract is the life cycle of
--                       the matches on its own, as moves of a relation
--   Server.Router.Socket
--                       the socket and the receive loop of router.py, and central_server/main.py around them
--   Config              central_server/config.py and node/config.py; Prelude.Unicode has `int` of a text
--   Node, Node.Main, Node.Scheduler, Node.Connection
--                       node/main.py with node/state.py, node/scheduler.py, node/connection.py with
--                       node/metrics.py; the windows of node/window.py as entries of a registry
--   Node.Run            the running node: what its event loop interleaves
--   Node.Connection.Socket, Node.Connection.Reporter
--                       the socket and the hooks of node/connection.py, and node/metrics.py
--   Node.Lines, Node.Window, Node.Runner
--                       the stream between node/window.py and node/agent_runner.py; Node.Window.Process has the
--                       window's socket and xterm, Node.Runner.Loop the runner's loop, Node.Runner.Tokens its
--                       regular expression with the matcher of Node.Runner.Pattern,
--                       Node.Runner.Prompt and Node.Runner.Report the messages, Node.Runner.Session the whole run.
--                       The line discipline of the agent's terminal takes what was written to it in its own time
--   Server.Wire.Text, Server.Wire.Request, Node.Connection.Answer, Node.Main.Packet
--                       the messages of both sides as JSON texts
--   Delivery            a START packet from the server to the node; Delivery.Prompts goes on to the windows,
--                       Delivery.Registration is the way of a REGISTER and back,
--                       Delivery.Metrics that of a METRICS message
--   Primitives          what the code calls and does not implement, with a toy instance
--   Examples            concrete servers and nodes, and the theorems at them
--
-- State. An object is a record and a method a function from its state to a result and the new state; a
-- method that raises keeps what it had written. The server is one record of all the objects that its
-- parts share, so that aliasing between router, manager and ingester is sharing of that record.
--
-- Concurrency. A method runs without interruption between two points where the event loop can switch:
-- `start` is cut at the sleep of its readiness poll, `_auto_stop` and `_fire` at their sleeps. A database
-- call, a send or the start of an xterm counts as immediate, and between two of them nothing else runs. World.step takes one
-- such piece, chosen freely, and World.run any sequence of them; Node.Run.run does the same for a node. A task that has cancelled itself is
-- interrupted at the next database call, whose statement the connection's thread still executes.
--
-- Data. Times, delays, weights and scores are floats in the code and integers here, in ticks of 1/10000;
-- the rounding of a score to four places is to the nearest tick. Where the decimal number lies halfway between two ticks the
-- side of its double decides, which `ties` of the record Primitives gives, by the weights and the rows of the
-- store; elsewhere the model takes it that the error of the doubles does not reach the middle, as is so for terms of up
-- to about 10^6. Bytes are lists of
-- numbers; identities and frames are texts. A dict is an association list in insertion order. A payload is a
-- record of the protocol's keys, each there or not and of its documented type. A call of the clock is the
-- argument `now`, the same within one piece. GROUP BY lists the groups in the order of their first rows.
-- X25519, HKDF, AES-GCM and os.urandom are in the record Primitives too, and the laws that the
-- code relies on are Lawful and Authenticates; json.loads of a file or of a frame is the argument `loads` where
-- any would do; the JSON texts of REGISTER and its answer, of START and METRICS, of the stored assignments, of a prompt and of a
-- report of the runner are written out. Whether a WebSocket
-- takes a message is the argument `alive`.
--
-- The loops of the code are structural recursion over their lists. The readiness poll is one step a round, and
-- no bound on its rounds is assumed. The decimal digits of a terminal's number are written with n + 1 as
-- fuel for the number n, which has at most that many digits. The loop over the lines of a buffer has the
-- buffer's length as fuel, and each round takes at least a newline away. The reader of a
-- JSON text has the text's length and one more as fuel, since each value, item and member takes a character; this is
-- enough for each text that the writer makes. The wait for the line of a prompt runs
-- on any fuel; one round for each chunk that arrives is enough where the line comes.
--
-- TOKEN_RE is a tree of the constructs of `re` that it uses, matched by backtracking without fuel; its classes of
-- characters are those of Unicode 14.0. The output of an agent, the answers of the operating system and the clock are
-- arguments of a run: a list of the reads, and for each call whether it succeeds.
--
-- The properties of the node registry that all parts of the server keep are instances of the record
-- Registry.Kept.Kept, and the proofs about the handlers and the manager take such an instance.
--
-- Not modelled: the mounting of the routes (central_server/api/app.py), the database's schema, files and locks,
-- uvicorn, what ZeroMQ does with its frames, fork and exec in node/agent_runner.py and what an agent writes,
-- and the rates at which the clocks of the machines run. Logging has no model.
pub mod Prelude
pub mod Codec
pub mod Registry
pub mod Primitives
pub mod Crypto
pub mod NodeCrypto
pub mod Json
pub mod Match
pub mod Metrics
pub mod Broadcast
pub mod Config
pub mod Server
pub mod Manager
pub mod Sorting
pub mod Api
pub mod World
pub mod Node
pub mod Delivery
pub mod Examples
