-- ===== src/Registry/Invariant.antt =====
-- The invariant of central_server/registry/nodes.py, and the listings of valid registries.
use agentic_juggling.Prelude.{
  String, Bool, false, not, ◌≡◌, refl, Option, none, some, [], ◌∷◌, arith, eq_iff, keep, elem,
}
use agentic_juggling.Prelude.Int.{ℤ}
use agentic_juggling.Prelude.Dict.{
  Dict, lookup, insert, modify, values, lookup-insert, lookup-modify,
}
use agentic_juggling.Registry.{
  NodeState, NodeRecord, NodeRegistry, same_state, new_registry, registered, register, set_state,
  update_state, seen_at, touch, get, all_in_state, all_connected, ids,
}

-- Each record is filed once, under its own id, and none is marked as disconnected.
abbrev pub Keyed : Dict NodeRecord → Type 0
Keyed [] = Unit
Keyed ((k, n) ∷ d) =
    (n.node_id ≡ k)
    × (lookup k d ≡ none)
    × (same_state n.state NodeState.disconnected ≡ false)
    × Keyed d

abbrev pub IsValid : NodeRegistry → Type 0
IsValid r = Keyed r.nodes

insert-Keyed :
    (k : String) (v : NodeRecord) (d : Dict NodeRecord)
    → Keyed d
    → v.node_id ≡ k
    → same_state v.state NodeState.disconnected ≡ false
    → Keyed (insert k v d)
unfolding insert lookup
insert-Keyed k v [] h e s = (e, refl, s, tt)
insert-Keyed k v ((i, w) ∷ d) h e s =
    ground (arith, eq_iff i k, eq_iff k i, lookup-insert k i v d, insert-Keyed k v d h.3 e s)

modify-Keyed :
    (k : String) (f : NodeRecord → NodeRecord) (d : Dict NodeRecord)
    → ((n : NodeRecord) → (f n).node_id ≡ n.node_id)
    → ((n : NodeRecord)
        → same_state n.state NodeState.disconnected ≡ false
        → same_state (f n).state NodeState.disconnected ≡ false)
    → Keyed d
    → Keyed (modify k f d)
unfolding modify
modify-Keyed k f [] same alive h = tt
modify-Keyed k f ((i, w) ∷ d) same alive h = ground (
  arith,
  eq_iff i k,
  eq_iff k i,
  same w,
  alive w h.2,
  lookup-modify k i f d,
  modify-Keyed k f d same alive h.3,
)

lookup-Keyed :
    (k : String) (n : NodeRecord) (d : Dict NodeRecord)
    → Keyed d
    → lookup k d ≡ some n
    → n.node_id ≡ k
unfolding lookup
lookup-Keyed k n [] h e = cc
lookup-Keyed k n ((i, w) ∷ d) h e = ground (arith, eq_iff i k, lookup-Keyed k n d h.3)

module _ (id host ip ident : String) (now : ℤ) where
  registered_id :
      (o : Option NodeRecord) (d : Dict NodeRecord)
      → Keyed d
      → lookup id d ≡ o
      → (registered id host ip ident now o).node_id ≡ id
  unfolding registered
  registered_id none d h e = refl
  registered_id (some n) d h e = lookup-Keyed id n d h e

  registered_alive :
      (o : Option NodeRecord)
      → same_state (registered id host ip ident now o).state NodeState.disconnected ≡ false
  unfolding registered same_state
  registered_alive none = refl
  registered_alive (some n) = refl

pub new_registry-IsValid : (tokens : Dict String) → IsValid (new_registry tokens)
unfolding new_registry
new_registry-IsValid tokens = tt

module _ (r : NodeRegistry) (h : IsValid r) where
  pub register-IsValid :
      (id host ip ident : String) (now : ℤ) → IsValid (register id host ip ident now r).2
  unfolding register
  register-IsValid id host ip ident now =
      insert-Keyed id _ r.nodes h
        (registered_id id host ip ident now (lookup id r.nodes) r.nodes h refl)
        (registered_alive id host ip ident now (lookup id r.nodes))

  pub update_state-IsValid :
      (id : String) (s : NodeState) (now : ℤ)
      → same_state s NodeState.disconnected ≡ false
      → IsValid (update_state id s now r)
  unfolding update_state
  update_state-IsValid id s now live =
      modify-Keyed id (set_state s now) r.nodes (λ n. refl) (λ n _. live) h

  pub touch-IsValid : (id : String) (now : ℤ) → IsValid (touch id now r)
  unfolding touch
  touch-IsValid id now = modify-Keyed id (seen_at now) r.nodes (λ n. refl) (λ n a. a) h

-- `q` of the record that is there
abbrev pub test : (NodeRecord → Bool) → Option NodeRecord → Bool
test q none = false
test q (some n) = q n

elem-keep :
    (j : String) (q : NodeRecord → Bool) (d : Dict NodeRecord)
    → Keyed d
    → elem j (ids (keep q (values d))) ≡ test q (lookup j d)
unfolding lookup
elem-keep j q [] h = refl
elem-keep j q ((k, n) ∷ d) h = ground (arith, eq_iff k j, eq_iff n.node_id j, elem-keep j q d h.3)

-- In a valid registry the listing by state names exactly the nodes whose record is in that state.
pub elem-all_in_state :
    (r : NodeRegistry) (j : String) (s : NodeState)
    → IsValid r
    → elem j (ids (all_in_state s r)) ≡ test (λ n. same_state n.state s) (get j r)
unfolding all_in_state get
elem-all_in_state r j s h = elem-keep j (λ n. same_state n.state s) r.nodes h

keep_alive :
    (d : Dict NodeRecord)
    → Keyed d
    → keep (λ n. not (same_state n.state NodeState.disconnected)) (values d) ≡ values d
keep_alive [] h = refl
keep_alive ((k, n) ∷ d) h = ground (arith, keep_alive d h.3)

-- No operation ever disconnects a node: the listing of the connected nodes is the whole registry.
pub all_connected_lem : (r : NodeRegistry) → IsValid r → all_connected r ≡ values r.nodes
unfolding all_connected
all_connected_lem r h = keep_alive r.nodes h
