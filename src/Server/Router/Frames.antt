-- ===== src/Server/Router/Frames.antt =====
-- What the handlers of central_server/network/router.py leave alone.
use agentic_juggling.Prelude.{ℕ, String, Bool, ◌≡◌, refl, List, [], ◌∷◌, arith}
use agentic_juggling.Prelude.Int.{ℤ}
use agentic_juggling.Primitives.{Primitives}
use agentic_juggling.Server.{Server}
use agentic_juggling.Server.Wire.{Payload, Raw, malformed, other_json, object}
use agentic_juggling.Server.Router.{
  handle_register, push_scores, on_metrics, on_hook, handle_metrics, handle_hook, dispatch_object,
  dispatch,
}

module _ (p : Primitives) (alive : ℕ → Bool) (now : ℤ) where
  store-handle_register :
      (identity : String) (m : Payload) (s : Server)
      → (handle_register p alive now identity m s).1.store ≡ s.store
  unfolding handle_register
  store-handle_register identity m s = ground arith

  store-handle_metrics :
      (m : Payload) (s : Server) → (handle_metrics p alive now m s).store ≡ s.store
  unfolding handle_metrics on_metrics push_scores
  store-handle_metrics m s = ground arith

  store-handle_hook : (m : Payload) (s : Server) → (handle_hook p alive now m s).store ≡ s.store
  unfolding handle_hook on_hook
  store-handle_hook m s = ground arith

  store-dispatch_object :
      (identity msg_type : String) (raw : Raw) (s : Server)
      → (dispatch_object p alive now identity msg_type raw s).1.store ≡ s.store
  unfolding dispatch_object
  store-dispatch_object identity msg_type malformed s = refl
  store-dispatch_object identity msg_type other_json s = ground arith
  store-dispatch_object identity msg_type (object m) s =
      ground
        (arith, store-handle_register identity m s, store-handle_metrics m s, store-handle_hook m s)

  -- No message of a node changes a stored match.
  pub store-dispatch :
      (loads : String → Raw) (frames : List String) (s : Server)
      → (dispatch p alive now loads frames s).1.store ≡ s.store
  unfolding dispatch
  store-dispatch loads [] s = refl
  store-dispatch loads (a ∷ []) s = refl
  store-dispatch loads (a ∷ b ∷ []) s = refl
  store-dispatch loads (a ∷ b ∷ c ∷ _) s = store-dispatch_object a b (loads c) s
