-- ===== src/Node/Window/Resources.antt =====
-- What a window of node/window.py holds of the operating system, from `open` to `close`.
use agentic_juggling.Prelude.{
  String, Bool, true, false, ◌≡◌, refl, ◌∙◌, ap, Option, none, some, List, [], ◌∷◌, ◌⊎◌, inl, inr,
  arith, eq_refl, elem, is_some, ◌==◌, Bool-cases,
}
use agentic_juggling.Prelude.Int.{ℤ}
use agentic_juggling.Prelude.Outcome.{Outcome, ok, err}
use agentic_juggling.Primitives.{Bytes}
use agentic_juggling.Node.Window.Process.{
  Socket, Process, Desk, new_window, without, bind, open_window, unlink, terminate, shut, close,
  deliver, exited,
}

-- what happens to a window while it is open: its task has waited for the runner, or the xterm has ended
pub data Happening : Type 0 where
  waited : Bool → Happening
  ended : ℤ → Happening

abbrev pub happen : (String → Bytes) → String → List Happening → Desk → Desk
happen dumps prompt [] d = d
happen dumps prompt (Happening.waited connects ∷ hs) d =
    happen dumps prompt hs (deliver dumps connects prompt d).1
happen dumps prompt (Happening.ended code ∷ hs) d = happen dumps prompt hs (exited code d)

-- no process runs on that was not told to end
abbrev pub Ended : Option Process → Type 0
Ended none = Unit
Ended (some x) = (x.terminated ≡ true) ⊎ (is_some x.returncode ≡ true)

abbrev pub Shut : Option Socket → Type 0
Shut none = Unit
Shut (some k) = k.is_open ≡ false

elem-without : (x : String) (xs : List String) → elem x (without x xs) ≡ false
elem-without x [] = refl
elem-without x (y ∷ ys) = elim (Bool-cases (y == x)) [
  | inl e ↦ rw e (elem-without x ys)
  | inr e ↦ rw e (rw (e, elem-without x ys) refl)
]

without_absent : (x : String) (xs : List String) → elem x xs ≡ false → without x xs ≡ xs
without_absent x [] h = refl
without_absent x (y ∷ ys) h = elim (Bool-cases (y == x)) [
  | inl e ↦ ground arith
  | inr e ↦ rw e (ap (λ zs. y ∷ zs) (without_absent x ys (ground arith)))
]

terminate-Ended : (o : Option Process) → Ended (terminate o)
terminate-Ended none = tt
terminate-Ended (some x) = ground arith

shut-Shut : (o : Option Socket) → Shut (shut o)
shut-Shut none = tt
shut-Shut (some k) = refl

module _ (path id : String) (base : List String) where
  -- the window knows its path, which is the only file that it may have left
  abbrev Held : Desk → Type 0
  Held d =
      (d.window.sock_path ≡ some path) × (d.window.terminal_id ≡ id) × (without path d.files ≡ base)

  without_path : without path base ≡ base → without path (path ∷ base) ≡ base
  without_path same = ground (arith, eq_refl path)

  open_window-Held :
      (runner agentname prompt : String) (spawned : Outcome (Unit {0}))
      (registry tasks : List String)
      → elem path base ≡ false
      → Held
          (open_window path runner spawned prompt (record {
            window = new_window id agentname;
            files = base;
            registry = registry;
            tasks = tasks;
          })).1
  unfolding open_window bind new_window
  open_window-Held runner agentname prompt (ok u) registry tasks h =
      rw h (refl, refl, without_path (without_absent path base h))
  open_window-Held runner agentname prompt (err e) registry tasks h =
      rw h (refl, refl, without_path (without_absent path base h))

  happen-Held :
      (dumps : String → Bytes) (prompt : String) (hs : List Happening) (d : Desk)
      → without path base ≡ base
      → Held d
      → Held (happen dumps prompt hs d)
  unfolding deliver exited
  happen-Held dumps prompt [] d same h = h
  happen-Held dumps prompt (Happening.waited true ∷ hs) d same h =
      happen-Held dumps prompt hs _ same
        (h.0, h.1, ap (λ p. without path (unlink p d.files)) h.0 ∙ ap (without path) h.2 ∙ same)
  happen-Held dumps prompt (Happening.waited false ∷ hs) d same h =
      happen-Held dumps prompt hs d same h
  happen-Held dumps prompt (Happening.ended code ∷ hs) d same h =
      happen-Held dumps prompt hs (exited code d) same h

  close-Held : (d : Desk) → Held d → ((close d).files ≡ base) × (elem id (close d).registry ≡ false)
  unfolding close
  close-Held d h = (
    ap (λ p. unlink p d.files) h.0 ∙ h.2,
    ap (λ k. elem id (without k d.registry)) h.1 ∙ elem-without id d.registry,
  )

-- Whatever becomes of a window between its opening and its closing (the xterm cannot be started, the runner
-- connects or not, the xterm ends by itself), closing it leaves nothing behind: the files are those from before the
-- opening, provided that the path of the socket was free, its key is out of the registry, the socket is closed,
-- and its process has ended or was told to.
pub close-open_window :
    (dumps : String → Bytes) (path runner id agentname prompt : String)
    (spawned : Outcome (Unit {0})) (base registry tasks : List String) (hs : List Happening)
    → elem path base ≡ false
    → let d = close (
        happen dumps prompt hs
          (open_window path runner spawned prompt (record {
            window = new_window id agentname;
            files = base;
            registry = registry;
            tasks = tasks;
          })).1) in
      (d.files ≡ base)
      × (elem id d.registry ≡ false)
      × Shut d.window.server_sock
      × Ended d.window.xterm_proc
unfolding close
close-open_window dumps path runner id agentname prompt spawned base registry tasks hs h =
    let opened = open_window path runner spawned prompt (record {
      window = new_window id agentname;
      files = base;
      registry = registry;
      tasks = tasks;
    }) in
    let d = happen dumps prompt hs opened.1 in
    let held =
      happen-Held path id base dumps prompt hs opened.1 (without_absent path base h)
        (open_window-Held path id base runner agentname prompt spawned registry tasks h) in
    let (files, key) = close-Held path id base d held in
    (files, key, shut-Shut d.window.server_sock, terminate-Ended d.window.xterm_proc)
