-- ===== src/Node/Connection/Hooks.antt =====
-- A hook from node/connection.py to the store of the server, by central_server/network/router.py and
-- central_server/metrics/ingester.py.
use agentic_juggling.Primitives.{Primitives}
use agentic_juggling.Registry
use agentic_juggling.Match.Store
use agentic_juggling.Server.{Server}
