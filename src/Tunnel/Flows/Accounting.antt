-- ===== src/Tunnel/Flows/Accounting.antt =====
-- The streams that serveUDPListener (internal/tunnel/udp.go) opens and closes.
use cando.Base.{
  ℕ, ◌≡◌, ◌≢◌, ◌⊎◌, inl, inr, refl, sym, ap, ◌∙◌, subst, Bool, true, false, Bool-cases, some, none,
  Option-cases, List, [], ◌∷◌, Holds, arith,
}
use cando.Base.Bytes.{Bytes, bytes_eq, bytes_eq_iff}
use cando.Base.Dict.{Dict, lookup, insert, lookup-insert, lookup-remove, bytes_instance}
use cando.Tunnel.Flows.{
  Flows, new_flows, get, put, is_current, del, streams, close_all, forward, start_flow, arrive_new,
  arrive, Opened, Closed, Step, dropped, arrives, ends, Reach, here, next,
}

pub record Inv (f : Flows) : Type 0 where
  pub alive : (k : Bytes) (s : ℕ) → lookup k f.table ≡ some s → Opened f k s × ¬ Closed f s
  pub accounted : (k : Bytes) (s : ℕ) → Opened f k s → (lookup k f.table ≡ some s) ⊎ Closed f s
  pub apart : (k j : Bytes) (s : ℕ) → Opened f k s → Opened f j s → k ≡ j

new_flows-Inv : Inv new_flows
unfolding new_flows lookup
new_flows-Inv = record {
  alive = λ k s e. cc;
  accounted = λ k s o. absurd o;
  apart = λ k j s o. absurd o;
}

-- What a deletion does to the table.
lookup-del :
    (f : Flows) (key : Bytes) (s : ℕ) (k : Bytes)
    → ((lookup k (del f key s).table ≡ lookup k f.table)
        × ((k ≢ key) ⊎ (lookup key f.table ≢ some s)))
      ⊎ ((k ≡ key) × (lookup key f.table ≡ some s) × (lookup k (del f key s).table ≡ none))
unfolding del is_current
lookup-del f key s k = ground (arith, lookup-remove key k f.table, bytes_eq_iff key k)

-- A stream in the table under another source than its own cannot be.
clash :
    (f : Flows) (key k : Bytes) (s : ℕ)
    → Inv f
    → Opened f key s
    → lookup k f.table ≡ some s
    → (k ≢ key) ⊎ (lookup key f.table ≢ some s)
    → ⊥
clash f key k s v o e other =
    let same : k ≡ key = v.apart k key s (v.alive k s e).0 o in
    elim other [ inl ne ↦ ne same | inr ne ↦ ne (ap (λ j. lookup j f.table) (sym same) ∙ e) ]

del-alive :
    (f : Flows) (key : Bytes) (s : ℕ) (k : Bytes) (s' : ℕ)
    → Inv f
    → Opened f key s
    → lookup k (del f key s).table ≡ some s'
    → Opened f k s' × ¬ Holds (s ∷ f.closed) s'
del-alive f key s k s' v o e = elim (lookup-del f key s k) [
  | inr (same, current, gone) ↦ cc
  | inl (kept, other) ↦
      let (op, open_) = v.alive k s' (sym kept ∙ e) in
      (
        op,
        λ c. elim c [
          | inl q ↦ clash f key k s v o (sym kept ∙ e ∙ ap some (sym q)) other
          | inr c' ↦ open_ c'
        ],
      )
]

del-accounted :
    (f : Flows) (key : Bytes) (s : ℕ) (k : Bytes) (s' : ℕ)
    → Inv f
    → Opened f k s'
    → (lookup k (del f key s).table ≡ some s') ⊎ Holds (s ∷ f.closed) s'
del-accounted f key s k s' v op = elim (v.accounted k s' op) [
  | inr c ↦ inr (inr c)
  | inl e ↦ elim (lookup-del f key s k) [
    | inl (kept, other) ↦ inl (kept ∙ e)
    | inr (same, current, gone) ↦ inr (inl (ground (arith, ap (λ j. lookup j f.table) same)))
  ]
]

del-Inv : (f : Flows) (key : Bytes) (s : ℕ) → Inv f → Opened f key s → Inv (del f key s)
del-Inv f key s v o = record {
  alive = λ k s' e. unfold del in del-alive f key s k s' v o e;
  accounted = λ k s' op. unfold del in del-accounted f key s k s' v op;
  apart = unfold del in v.apart;
}

module _ (f : Flows) (key : Bytes) (s : ℕ) (v : Inv f) (free : lookup key f.table ≡ none)
    (new : (k : Bytes) → ¬ Opened f k s) (unclosed : ¬ Closed f s) where
  start-alive :
      (k : Bytes) (s' : ℕ)
      → lookup k (insert key s f.table) ≡ some s'
      → Holds ((key, s) ∷ f.opened) (k, s') × ¬ Closed f s'
  start-alive k s' e = elim (Bool-cases (bytes_eq key k)) [
    | inl q ↦
        let same : some s ≡ some s' = ground (arith, lookup-insert key k s f.table) in
        let here_ : s ≡ s' = ground arith in
        (
          inl (ap (λ j. (j, s)) ((bytes_eq_iff key k).0 q) ∙ ap (λ n. (k, n)) here_),
          λ c. unclosed (subst (Closed f) (sym here_) c),
        )
    | inr q ↦
        let old = v.alive k s' (ground (arith, lookup-insert key k s f.table)) in (inr old.0, old.1)
  ]

  start-accounted :
      (k : Bytes) (s' : ℕ)
      → Holds ((key, s) ∷ f.opened) (k, s')
      → (lookup k (insert key s f.table) ≡ some s') ⊎ Closed f s'
  start-accounted k s' (inl e) =
      let k_same : key ≡ k = ap (λ p. p.0) e in
      let s_same : s ≡ s' = ap (λ p. p.1) e in
      inl (ground (arith, lookup-insert key k s f.table, bytes_eq_iff key k))
  start-accounted k s' (inr op) = elim (v.accounted k s' op) [
    | inr c ↦ inr c
    | inl e ↦
        let other : key ≢ k = λ q. ground (arith, ap (λ j. lookup j f.table) q) in
        inl (ground (arith, lookup-insert key k s f.table, bytes_eq_iff key k))
  ]

  start-apart :
      (k j : Bytes) (s' : ℕ)
      → Holds ((key, s) ∷ f.opened) (k, s')
      → Holds ((key, s) ∷ f.opened) (j, s')
      → k ≡ j
  start-apart k j s' (inl p) (inl q) = ap (λ e. e.0) (sym p ∙ q)
  start-apart k j s' (inl p) (inr q) = absurd (new j (subst (Opened f j) (ap (λ e. e.1) (sym p)) q))
  start-apart k j s' (inr p) (inl q) = absurd (new k (subst (Opened f k) (ap (λ e. e.1) (sym q)) p))
  start-apart k j s' (inr p) (inr q) = v.apart k j s' p q

  start-Inv : Inv (start_flow f key s)
  unfolding start_flow put
  start-Inv = record { alive = start-alive; accounted = start-accounted; apart = start-apart }

-- A table entry belongs to a stream that was opened, which may be dropped.
forward-Inv :
    (f : Flows) (key : Bytes) (s : ℕ) (sent : Bool)
    → Inv f
    → Opened f key s
    → Inv (forward f key s sent)
unfolding forward
forward-Inv f key s true v o = v
forward-Inv f key s false v o = del-Inv f key s v o

dropped-Inv : (f : Flows) (key : Bytes) (sent : Bool) → Inv f → Inv (arrive f key none sent)
unfolding arrive get
dropped-Inv f key sent v = elim (Option-cases (lookup key f.table)) [
  | inl e ↦ rw (arrive, get, e, arrive_new) v
  | inr (s, e) ↦ rw (arrive, get, e) (forward-Inv f key s sent v (v.alive key s e).0)
]

start-Opened : (f : Flows) (key : Bytes) (s : ℕ) → Opened (start_flow f key s) key s
unfolding start_flow put
start-Opened f key s = inl refl

arrive-Inv :
    (f : Flows) (key : Bytes) (s : ℕ) (sent : Bool)
    → Inv f
    → ((k : Bytes) → ¬ Opened f k s)
    → ¬ Closed f s
    → Inv (arrive f key (some s) sent)
unfolding arrive get
arrive-Inv f key s sent v new unclosed = elim (Option-cases (lookup key f.table)) [
  | inl e ↦
      rw (arrive, get, e, arrive_new)
        (forward-Inv (start_flow f key s) key s sent (start-Inv f key s v e new unclosed)
          (start-Opened f key s))
  | inr (s', e) ↦ rw (arrive, get, e) (forward-Inv f key s' sent v (v.alive key s' e).0)
]

Step-Inv : {f g : Flows} → Step f g → Inv f → Inv g
Step-Inv {f} (dropped key sent) v = dropped-Inv f key sent v
Step-Inv {f} (arrives key s sent new unclosed) v = arrive-Inv f key s sent v new unclosed
Step-Inv {f} (ends key s o) v = del-Inv f key s v o

-- However datagrams and the ends of flows follow one another from an empty table, a stream that
-- the table gives for a source was opened for that source and is not closed, every opened stream
-- is in the table under its source or closed, and no stream was opened for two sources.
pub Reach-Inv : {f : Flows} → Reach new_flows f → Inv f
Reach-Inv here = new_flows-Inv
Reach-Inv (next r s) = Step-Inv s (Reach-Inv r)

streams-keeps :
    (m : Dict Bytes ℕ) (closed : List ℕ) (s : ℕ) → Holds closed s → Holds (streams m closed) s
unfolding streams
streams-keeps [] closed s h = h
streams-keeps ((k, t) ∷ m) closed s h = inr (streams-keeps m closed s h)

streams-has :
    (m : Dict Bytes ℕ) (closed : List ℕ) (k : Bytes) (s : ℕ)
    → lookup k m ≡ some s
    → Holds (streams m closed) s
unfolding streams lookup
streams-has [] closed k s e = ground arith
streams-has ((j, t) ∷ m) closed k s e = ground (arith, streams-has m closed k s)

-- However datagrams and the ends of flows followed one another from an empty table, after closeAll
-- the table is empty and every stream that was ever opened is closed.
pub close_all-Reach :
    {f : Flows} (r : Reach new_flows f)
    → ((close_all f).table ≡ []) × ((k : Bytes) (s : ℕ) → Opened f k s → Closed (close_all f) s)
unfolding close_all
close_all-Reach {f} r = (
  refl,
  λ k s o. elim ((Reach-Inv r).accounted k s o) [
    | inl e ↦ streams-has f.table f.closed k s e
    | inr c ↦ streams-keeps f.table f.closed s c
  ],
)
