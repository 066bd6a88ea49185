-- ===== src/Node/Connection/Boot.antt =====
-- How the start of a node ends (node/connection.py, node/main.py).
use agentic_juggling.Prelude.{String, false, ◌≡◌, refl, none, some, arith, ◌==◌, eq_iff, or_default}
use agentic_juggling.Prelude.Int.{ℤ}
use agentic_juggling.Prelude.Outcome.{Error, ok, err}
use agentic_juggling.Primitives.{Primitives}
use agentic_juggling.NodeCrypto.{derive_session_key}
use agentic_juggling.Node.{Node}
use agentic_juggling.Node.Main.{resume_if_needed}
use agentic_juggling.Node.Connection.{Reply, boot}

module _ (p : Primitives) (agent : String) (now : ℤ) (reply : Reply) (n : Node) where
  -- How the start of a node fails: without an answer it ends in a TypeError, where it means to exit, and it exits
  -- on every answer that is not REGISTER_OK. In both cases it has changed nothing.
  pub boot_failure :
      (reply.msg_type == "REGISTER_OK") ≡ false
      → (boot p agent now none n ≡ (err Error.type_error, n))
        × (boot p agent now (some reply) n ≡ (err Error.system_exit, n))
  unfolding boot
  boot_failure h = (refl, ground arith)

  -- A good REGISTER_OK that does not say that the node was running leaves the node up, with a session key and
  -- nothing else new.
  boot_ready :
      (key : String)
      → reply.msg_type ≡ "REGISTER_OK"
      → reply.server_ecdh_pubkey ≡ some key
      → (derive_session_key p key n.crypto).0 ≡ ok tt
      → or_default reply.was_running false ≡ false
      → boot p agent now (some reply) n
        ≡ (ok tt, record n { crypto = (derive_session_key p key n.crypto).1 })
  unfolding boot resume_if_needed
  boot_ready key type has good calm = ground (
    arith,
    eq_iff reply.msg_type "REGISTER_OK",
    eq_iff reply.msg_type "REGISTER_FAIL",
    eq_iff "REGISTER_OK" "REGISTER_FAIL",
  )
