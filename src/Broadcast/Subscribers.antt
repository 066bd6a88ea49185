-- ===== src/Broadcast/Subscribers.antt =====
-- Who gets a score update, `Broadcaster.broadcast` of central_server/api/broadcast.py.
use agentic_juggling.Prelude.{
  ℕ, String, Bool, true, not, ◌&&◌, ◌||◌, ◌≡◌, refl, ◌∙◌, ap, some, List, [], ◌∷◌, ◌++◌, arith,
  ◌==◌, eq_iff, eq_refl, nat_eq, keep, or_default, if◌then◌else◌, Bool-cases, inl, inr,
}
use agentic_juggling.Prelude.Dict.{lookup, lookup-modify, lookup-insert}
use agentic_juggling.Broadcast.{Connections, member, add, discard, discard_all, connect, broadcast}

keep-keep : (q r : ℕ → Bool) (ws : List ℕ) → keep q (keep r ws) ≡ keep (λ v. r v && q v) ws
keep-keep q r [] = refl
keep-keep q r (w ∷ ws) = ground (arith, keep-keep q r ws)

keep_ext :
    (q r : ℕ → Bool) (ws : List ℕ)
    → ((v : ℕ) → member v ws ≡ true → q v ≡ r v)
    → keep q ws ≡ keep r ws
keep_ext q r [] h = refl
keep_ext q r (w ∷ ws) h =
    let rest = keep_ext q r ws (λ v k. h v (ground (arith, k))) in
    let here : q w ≡ r w = h w (ground arith) in ground (arith, rest, here)

keep_all : (ws : List ℕ) → ws ≡ keep (λ v. true) ws
keep_all [] = refl
keep_all (w ∷ ws) = ap (λ (l : List ℕ). w ∷ l) (keep_all ws)

discard_all_lem : (ds ws : List ℕ) → discard_all ds ws ≡ keep (λ v. not (member v ds)) ws
discard_all_lem [] ws = keep_all ws
discard_all_lem (d ∷ ds) ws =
    discard_all_lem ds (discard d ws)
    ∙ keep-keep (λ v. not (member v ds)) (λ v. not (nat_eq v d)) ws
    ∙ keep_ext _ _ ws (λ v k. ground arith)

member-keep : (q : ℕ → Bool) (v : ℕ) (ws : List ℕ) → member v (keep q ws) ≡ (member v ws && q v)
member-keep q v [] = refl
member-keep q v (w ∷ ws) = ground (arith, member-keep q v ws)

-- The sockets whose send raised are exactly those that go.
discard_dead :
    (alive : ℕ → Bool) (ws : List ℕ) → discard_all (keep (λ w. not (alive w)) ws) ws ≡ keep alive ws
discard_dead alive ws =
    discard_all_lem (keep (λ w. not (alive w)) ws) ws
    ∙ keep_ext _ alive ws (λ v k. ground (arith, member-keep (λ w. not (alive w)) v ws))

absorbed : (v w : ℕ) (ws : List ℕ) → member w ws ≡ true → member v ws ≡ (nat_eq w v || member v ws)
absorbed v w [] h = cc
absorbed v w (u ∷ ws) h = ground (arith, absorbed v w ws)

member-snoc : (v w : ℕ) (ws : List ℕ) → member v (ws ++ w ∷ []) ≡ (nat_eq w v || member v ws)
member-snoc v w [] = ground arith
member-snoc v w (u ∷ ws) = ground (arith, member-snoc v w ws)

member-add : (v w : ℕ) (ws : List ℕ) → member v (add w ws) ≡ (nat_eq w v || member v ws)
member-add v w ws = elim (Bool-cases (member w ws)) [
  | inl e ↦ rw e (absorbed v w ws e)
  | inr e ↦ rw e (member-snoc v w ws)
]

-- A socket that connects to a match joins the subscribers of that match, and of no other.
member-connect :
    (m j : String) (w v : ℕ) (c : Connections)
    → member v (or_default (lookup j (connect m w c)) [])
      ≡ ((m == j) && nat_eq w v || member v (or_default (lookup j c) []))
unfolding connect
member-connect m j w v c = ground (
  arith,
  eq_iff m j,
  lookup-insert m j (add w (or_default (lookup m c) [])) c,
  member-add v w (or_default (lookup m c) []),
)

lookup-connect :
    (m j : String) (w : ℕ) (c : Connections)
    → lookup j (connect m w c)
      ≡ (if m == j then some (add w (or_default (lookup m c) [])) else lookup j c)
unfolding connect
lookup-connect m j w c = lookup-insert m j (add w (or_default (lookup m c) [])) c

-- An update of a match, after a socket has connected to it: it reaches the socket and the subscribers that
-- were there, each if it is alive; afterwards the subscribers of the match are those it reached, and
-- those of every other match are as before.
pub broadcast-connect :
    (alive : ℕ → Bool) (m j : String) (w v : ℕ) (c : Connections)
    → let (reached, after) = broadcast alive m (connect m w c) in
      (member v reached ≡ ((nat_eq w v || member v (or_default (lookup m c) [])) && alive v))
      × (or_default (lookup j after) [] ≡ (if m == j then reached else or_default (lookup j c) []))
unfolding broadcast
broadcast-connect alive m j w v c =
    let ws = or_default (lookup m (connect m w c)) [] in
    (
      member-keep alive v ws
          ∙ ap (λ b. b && alive v) (ground (arith, member-connect m m w v c, eq_refl m)),
      ground (
        arith,
        eq_iff m j,
        discard_dead alive ws,
        lookup-modify m j (discard_all (keep (λ w. not (alive w)) ws)) (connect m w c),
        lookup-connect m j w c,
      ),
    )
