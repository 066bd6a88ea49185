-- ===== src/Metrics/Store/Totals.antt =====
-- What `get_totals_per_node` of central_server/metrics/store.py adds up.
use agentic_juggling.Prelude.{
  String, Bool, true, false, ◌≡◌, refl, ◌∙◌, ap, sym, Option, none, some, List, [], ◌∷◌, arith,
  ◌==◌, ◌&&◌, ◌||◌, eq_iff, if◌then◌else◌, or_default, keep, Bool-cases, inl, inr,
}
use agentic_juggling.Prelude.Int.{ℤ, pos, ◌+ℤ◌, +ℤ_assoc, +ℤ_zero, zero-+ℤ}
use agentic_juggling.Prelude.Dict.{Dict, lookup, insert, lookup-nil, lookup-insert}
use agentic_juggling.Metrics.Store.{
  MetricRow, MetricsStore, Total, zero_total, add_row, group_rows, get_totals_per_node,
}

-- the row counts for the node in the match
abbrev pub counts_for : String → String → MetricRow → Bool
counts_for match_id node_id r = (r.match_id == match_id) && (r.node_id == node_id)

abbrev pub any_row : (MetricRow → Bool) → List MetricRow → Bool
any_row q [] = false
any_row q (r ∷ rs) = q r || any_row q rs

-- the sum of a column over the rows that `q` selects
abbrev pub sum_of : (MetricRow → Bool) → (MetricRow → ℤ) → List MetricRow → ℤ
sum_of q f [] = pos 0
sum_of q f (r ∷ rs) = if q r then f r +ℤ sum_of q f rs else sum_of q f rs

abbrev pub sums_of : (MetricRow → Bool) → List MetricRow → Total
sums_of q rs = record {
  tokens_used = sum_of q (λ r. r.tokens_used) rs;
  idle_seconds = sum_of q (λ r. r.idle_seconds) rs;
}

abbrev plus : Total → Total → Total
plus a b = record {
  tokens_used = a.tokens_used +ℤ b.tokens_used;
  idle_seconds = a.idle_seconds +ℤ b.idle_seconds;
}

plus_zero : (t : Total) → plus t zero_total ≡ t
plus_zero t =
    λ i. record { tokens_used = +ℤ_zero t.tokens_used i; idle_seconds = +ℤ_zero t.idle_seconds i }

zero_plus : (t : Total) → plus zero_total t ≡ t
zero_plus t =
    λ i. record { tokens_used = zero-+ℤ t.tokens_used i; idle_seconds = zero-+ℤ t.idle_seconds i }

plus-add_row :
    (q : MetricRow → Bool) (r : MetricRow) (t : Total) (rs : List MetricRow)
    → q r ≡ true
    → plus (add_row r t) (sums_of q rs) ≡ plus t (sums_of q (r ∷ rs))
plus-add_row q r t rs h = rw h (λ i. record {
  tokens_used = +ℤ_assoc t.tokens_used r.tokens_used (sum_of q (λ r. r.tokens_used) rs) i;
  idle_seconds = +ℤ_assoc t.idle_seconds r.idle_seconds (sum_of q (λ r. r.idle_seconds) rs) i;
})

-- what the rows of a node add to the total that the group had
abbrev grown : (MetricRow → Bool) → List MetricRow → Option Total → Option Total
grown q rs o = if any_row q rs then some (plus (or_default o zero_total) (sums_of q rs)) else o

sum_of_none :
    (q : MetricRow → Bool) (f : MetricRow → ℤ) (rs : List MetricRow)
    → any_row q rs ≡ false
    → sum_of q f rs ≡ pos 0
sum_of_none q f [] h = refl
sum_of_none q f (r ∷ rs) h = ground (arith, sum_of_none q f rs)

grown-add_row :
    (q : MetricRow → Bool) (r : MetricRow) (t : Total) (rs : List MetricRow)
    → q r ≡ true
    → grown q rs (some (add_row r t)) ≡ some (plus t (sums_of q (r ∷ rs)))
grown-add_row q r t rs h = elim (Bool-cases (any_row q rs)) [
  | inl e ↦ rw e (ap some (plus-add_row q r t rs h))
  | inr e ↦
      rw
        (
          e,
          ← plus-add_row q r t rs h,
          sum_of_none q (λ r. r.tokens_used) rs e,
          sum_of_none q (λ r. r.idle_seconds) rs e,
        )
        (ap some (sym (plus_zero (add_row r t))))
]

grown-cons :
    (q : MetricRow → Bool) (r : MetricRow) (rs : List MetricRow) (o : Option Total)
    → grown q (r ∷ rs) o
      ≡ (if q r then grown q rs (some (add_row r (or_default o zero_total))) else grown q rs o)
grown-cons q r rs o = elim (Bool-cases (q r)) [
  | inl e ↦ rw (grown-add_row q r (or_default o zero_total) rs e) (
      ap
        (λ b.
          if b || any_row q rs
          then some (plus (or_default o zero_total) (sums_of q (r ∷ rs)))
          else o)
        e
      ∙ sym (
          ap
            (λ b.
              if b
              then some (plus (or_default o zero_total) (sums_of q (r ∷ rs)))
              else grown q rs o)
            e))
  | inr e ↦ rw e refl
]

lookup-group_rows :
    (n : String) (rs : List MetricRow) (acc : Dict Total)
    → lookup n (group_rows rs acc) ≡ grown (λ r. r.node_id == n) rs (lookup n acc)
unfolding group_rows
lookup-group_rows n [] acc = refl
lookup-group_rows n (r ∷ rs) acc =
    let q = λ (r : MetricRow). r.node_id == n in
    let new = add_row r (or_default (lookup r.node_id acc) zero_total) in
    lookup-group_rows n rs (insert r.node_id new acc) ∙ elim (Bool-cases (r.node_id == n)) [
      | inl e ↦
          let there : lookup n (insert r.node_id new acc)
              ≡ some (add_row r (or_default (lookup n acc) zero_total)) =
            rw (lookup-insert r.node_id n new acc, e)
              (ap (λ k. some (add_row r (or_default (lookup k acc) zero_total)))
                ((eq_iff r.node_id n).0 e)) in
          ap (grown q rs) there
          ∙ sym (
              grown-cons q r rs (lookup n acc)
              ∙ ap
                  (λ b.
                    if b
                    then grown q rs (some (add_row r (or_default (lookup n acc) zero_total)))
                    else grown q rs (lookup n acc))
                  e)
      | inr e ↦
          let there : lookup n (insert r.node_id new acc) ≡ lookup n acc =
            rw (lookup-insert r.node_id n new acc, e) refl in
          ap (grown q rs) there
          ∙ sym (
              grown-cons q r rs (lookup n acc)
              ∙ ap
                  (λ b.
                    if b
                    then grown q rs (some (add_row r (or_default (lookup n acc) zero_total)))
                    else grown q rs (lookup n acc))
                  e)
    ]

-- the rows of the match, and among them those of the node
any_row-keep :
    (m n : String) (rs : List MetricRow)
    → any_row (λ r. r.node_id == n) (keep (λ r. r.match_id == m) rs) ≡ any_row (counts_for m n) rs
any_row-keep m n [] = refl
any_row-keep m n (r ∷ rs) = ground (arith, any_row-keep m n rs)

sum_of-keep :
    (m n : String) (f : MetricRow → ℤ) (rs : List MetricRow)
    → sum_of (λ r. r.node_id == n) f (keep (λ r. r.match_id == m) rs) ≡ sum_of (counts_for m n) f rs
sum_of-keep m n f [] = refl
sum_of-keep m n f (r ∷ rs) = ground (arith, sum_of-keep m n f rs)

-- The total of a node in a match is the sum of each column over all its stored rows in that match, of
-- whatever terminal and time; a node without a row has no total.
pub lookup-get_totals_per_node :
    (m n : String) (s : MetricsStore)
    → lookup n (get_totals_per_node m s) ≡ (
        if any_row (counts_for m n) s.metrics
        then some (sums_of (counts_for m n) s.metrics)
        else none)
unfolding get_totals_per_node
lookup-get_totals_per_node m n s =
    lookup-group_rows n (keep (λ r. r.match_id == m) s.metrics) []
    ∙ rw
        (
          lookup-nil n,
          any_row-keep m n s.metrics,
          sum_of-keep m n (λ r. r.tokens_used) s.metrics,
          sum_of-keep m n (λ r. r.idle_seconds) s.metrics,
        )
        (ap (λ t. if any_row (counts_for m n) s.metrics then some t else none)
          (zero_plus (sums_of (counts_for m n) s.metrics)))
