-- ===== src/Node/Window/Framing.antt =====
-- The stream of reports in node/window.py, cut into chunks by the socket.
use mathlib.Core.List.{append_assoc}
use agentic_juggling.Prelude.{
  ℕ, zero, suc, ◌≤◌, true, false, ◌≡◌, refl, ◌∙◌, ap, sym, none, some, List, [], ◌∷◌, ◌++◌, arith,
  nat_eq, length, length-append, All, append-nil, Bool-cases, inl, inr,
}
use agentic_juggling.Prelude.Outcome.{Error, Outcome, ok, err}
use agentic_juggling.Primitives.{Bytes}
use agentic_juggling.Node.{AgentWindow}
use agentic_juggling.Node.Lines.{newline, split_line, split_line-newline, split_line-snoc}
use agentic_juggling.Node.Window.{
  Report, Reading, Collector, apply_metrics, bad_line, drain, receive, receive_all,
}

abbrev pub concat : List Bytes → Bytes
concat [] = []
concat (c ∷ cs) = c ++ concat cs

-- the bytes that wait in the buffer hold no newline
abbrev pub Clean : Reading → Type 0
Clean (Reading.going buf) = split_line buf ≡ none
Clean Reading.closed = Unit
Clean (Reading.raised _) = Unit

-- a chunk that `recv` returns while the stream is open
abbrev pub NonEmpty : Bytes → Type 0
NonEmpty [] = ⊥
NonEmpty (_ ∷ _) = Unit

parsed-ext :
    (w : AgentWindow) (f g : Report → Collector)
    → ((r : Report) → f r ≡ g r)
    → (o : Outcome Report)
    → ◌≡◌ {A = Collector}
        (elim o [ ok r ↦ f r | err e ↦ record { window = w; reading = bad_line e } ])
        (elim o [ ok r ↦ g r | err e ↦ record { window = w; reading = bad_line e } ])
parsed-ext w f g h (ok r) = h r
parsed-ext w f g h (err e) = refl

module _ (loads : Bytes → Outcome Report) where
  -- the stream read byte by byte, with the bytes since the last newline
  abbrev pub replay : AgentWindow → Bytes → Bytes → Collector
  replay w buf [] = record { window = w; reading = Reading.going buf }
  replay w buf (b ∷ bs) = elim (nat_eq b newline) [
    | true ↦ elim (loads buf) [
      | ok r ↦ replay (apply_metrics r w) [] bs
      | err e ↦ record { window = w; reading = bad_line e }
    ]
    | false ↦ replay w (buf ++ b ∷ []) bs
  ]

  replay-newline :
      (w : AgentWindow) (buf bs : Bytes) (b : ℕ)
      → nat_eq b newline ≡ true
      → replay w buf (b ∷ bs) ≡ (elim (loads buf) [
        | ok r ↦ replay (apply_metrics r w) [] bs
        | err e ↦ record { window = w; reading = bad_line e }
      ])
  replay-newline w buf bs b h = ground (arith, h)

  replay_other :
      (w : AgentWindow) (buf bs : Bytes) (b : ℕ)
      → nat_eq b newline ≡ false
      → replay w buf (b ∷ bs) ≡ replay w (buf ++ b ∷ []) bs
  replay_other w buf bs b h = ground (arith, h)

  drain-none :
      (fuel : ℕ) (w : AgentWindow) (buf : Bytes)
      → split_line buf ≡ none
      → drain loads (suc fuel) w buf ≡ record { window = w; reading = Reading.going buf }
  unfolding drain
  drain-none fuel w buf h = ground (arith, h)

  drain-some :
      (fuel : ℕ) (w : AgentWindow) (buf line rest : Bytes)
      → split_line buf ≡ some (line, rest)
      → drain loads (suc fuel) w buf ≡ (elim (loads line) [
        | ok r ↦ drain loads fuel (apply_metrics r w) rest
        | err e ↦ record { window = w; reading = bad_line e }
      ])
  unfolding drain
  drain-some fuel w buf line rest h = ground (arith, h)

  drain_lem :
      (fuel : ℕ) (w : AgentWindow) (buf bs : Bytes)
      → split_line buf ≡ none
      → length (buf ++ bs) ≤ fuel
      → drain loads fuel w (buf ++ bs) ≡ replay w buf bs
  unfolding drain
  drain_lem zero w buf [] h k = rw (append-nil buf) refl
  drain_lem (suc fuel) w buf [] h k = rw (append-nil buf) (drain-none fuel w buf h)
  drain_lem zero w buf (b ∷ bs) h k = absurd (omega (arith, length-append buf (b ∷ bs)))
  drain_lem (suc fuel) w buf (b ∷ bs) h k = elim (Bool-cases (nat_eq b newline)) [
    | inl e ↦
        drain-some fuel w (buf ++ b ∷ bs) buf bs (split_line-newline buf bs b h e)
        ∙ (parsed-ext w (λ r. drain loads fuel (apply_metrics r w) bs)
            (λ r. replay (apply_metrics r w) [] bs)
            (λ r.
              drain_lem fuel (apply_metrics r w) [] bs (unfold split_line in refl)
                (omega (arith, length-append buf (b ∷ bs))))
            (loads buf))
        ∙ sym (replay-newline w buf bs b e)
    | inr e ↦
        ap (drain loads (suc fuel) w) (sym (append_assoc buf (b ∷ []) bs))
        ∙ (drain_lem (suc fuel) w (buf ++ b ∷ []) bs (split_line-snoc buf b h e) (
            omega (
              arith,
              k,
              length-append buf (b ∷ bs),
              length-append (buf ++ b ∷ []) bs,
              length-append buf (b ∷ []),
            )))
        ∙ sym (replay_other w buf bs b e)
  ]

  -- where the collector is when the stream that it has read is followed by more
  abbrev pub resume : Collector → Bytes → Collector
  resume c bs = elim c.reading [
    | Reading.going buf ↦ replay c.window buf bs
    | Reading.closed ↦ c
    | Reading.raised e ↦ c
  ]

  resume-bad_line :
      (w : AgentWindow) (e : Error) (cs : Bytes)
      → resume (record { window = w; reading = bad_line e }) cs
        ≡ record { window = w; reading = bad_line e }
  unfolding bad_line
  resume-bad_line w e cs = ground arith

  resume-parsed :
      (w : AgentWindow) (f : Report → Collector) (cs : Bytes) (o : Outcome Report)
      → resume (elim o [ ok r ↦ f r | err e ↦ record { window = w; reading = bad_line e } ]) cs
        ≡ (elim o [ ok r ↦ resume (f r) cs | err e ↦ record { window = w; reading = bad_line e } ])
  resume-parsed w f cs (ok r) = refl
  resume-parsed w f cs (err e) = resume-bad_line w e cs

  replay-append :
      (w : AgentWindow) (buf bs cs : Bytes) → replay w buf (bs ++ cs) ≡ resume (replay w buf bs) cs
  replay-append w buf [] cs = refl
  replay-append w buf (b ∷ bs) cs = elim (Bool-cases (nat_eq b newline)) [
    | inl e ↦
        replay-newline w buf (bs ++ cs) b e
        ∙ parsed-ext w (λ r. replay (apply_metrics r w) [] (bs ++ cs))
            (λ r. resume (replay (apply_metrics r w) [] bs) cs)
            (λ r. replay-append (apply_metrics r w) [] bs cs) (loads buf)
        ∙ sym (resume-parsed w (λ r. replay (apply_metrics r w) [] bs) cs (loads buf))
        ∙ ap (λ c. resume c cs) (sym (replay-newline w buf bs b e))
    | inr e ↦
        replay_other w buf (bs ++ cs) b e
        ∙ replay-append w (buf ++ b ∷ []) bs cs
        ∙ ap (λ c. resume c cs) (sym (replay_other w buf bs b e))
  ]

  bad_line-Clean : (e : Error) → Clean (bad_line e)
  unfolding bad_line
  bad_line-Clean e = ground arith

  parsed-Clean :
      (w : AgentWindow) (f : Report → Collector) (o : Outcome Report)
      → ((r : Report) → Clean (f r).reading)
      → Clean
          (elim o as (λ _. Collector) [
            | ok r ↦ f r
            | err e ↦ record { window = w; reading = bad_line e }
          ]).reading
  parsed-Clean w f (ok r) h = h r
  parsed-Clean w f (err e) h = bad_line-Clean e

  replay-Clean :
      (w : AgentWindow) (buf bs : Bytes) → split_line buf ≡ none → Clean (replay w buf bs).reading
  replay-Clean w buf [] h = h
  replay-Clean w buf (b ∷ bs) h = elim (Bool-cases (nat_eq b newline)) [
    | inl e ↦ rw (replay-newline w buf bs b e) (
        parsed-Clean w (λ r. replay (apply_metrics r w) [] bs) (loads buf)
          (λ r. replay-Clean (apply_metrics r w) [] bs (unfold split_line in refl)))
    | inr e ↦
        rw (replay_other w buf bs b e)
          (replay-Clean w (buf ++ b ∷ []) bs (split_line-snoc buf b h e))
  ]

  receive_lem :
      (w : AgentWindow) (r : Reading) (b : ℕ) (bs : Bytes)
      → Clean r
      → receive loads (b ∷ bs) (record { window = w; reading = r })
        ≡ resume (record { window = w; reading = r }) (b ∷ bs)
  unfolding receive
  receive_lem w (Reading.going buf) b bs h =
      drain_lem (length (buf ++ b ∷ bs)) w buf (b ∷ bs) h (omega arith)
  receive_lem w Reading.closed b bs h = refl
  receive_lem w (Reading.raised e) b bs h = refl

  resume-Clean :
      (w : AgentWindow) (r : Reading) (bs : Bytes)
      → Clean r
      → Clean (resume (record { window = w; reading = r }) bs).reading
  resume-Clean w (Reading.going buf) bs h = replay-Clean w buf bs h
  resume-Clean w Reading.closed bs h = h
  resume-Clean w (Reading.raised e) bs h = h

  resume-append :
      (w : AgentWindow) (r : Reading) (bs cs : Bytes)
      → resume (record { window = w; reading = r }) (bs ++ cs)
        ≡ resume (resume (record { window = w; reading = r }) bs) cs
  resume-append w (Reading.going buf) bs cs = replay-append w buf bs cs
  resume-append w Reading.closed bs cs = refl
  resume-append w (Reading.raised e) bs cs = refl

  resume_nil :
      (w : AgentWindow) (r : Reading)
      → record { window = w; reading = r } ≡ resume (record { window = w; reading = r }) []
  resume_nil w (Reading.going buf) = refl
  resume_nil w Reading.closed = refl
  resume_nil w (Reading.raised e) = refl

  -- However a stream is cut into chunks, none of them empty, a collector whose buffer holds no newline
  -- ends as if it had read the stream byte by byte: each line that is whole is applied to the window,
  -- in order, up to the first that does not parse.
  pub receive_all_lem :
      (w : AgentWindow) (r : Reading) (chunks : List Bytes)
      → Clean r
      → All NonEmpty chunks
      → receive_all loads chunks (record { window = w; reading = r })
        ≡ resume (record { window = w; reading = r }) (concat chunks)
  unfolding receive_all
  receive_all_lem w r [] h k = resume_nil w r
  receive_all_lem w r ([] ∷ chunks) h k = absurd k.0
  receive_all_lem w r ((b ∷ bs) ∷ chunks) h k =
      let c = resume (record { window = w; reading = r }) (b ∷ bs) in
      ap (receive_all loads chunks) (receive_lem w r b bs h)
      ∙ receive_all_lem c.window c.reading chunks (resume-Clean w r (b ∷ bs) h) k.1
      ∙ sym (resume-append w r (b ∷ bs) (concat chunks))
