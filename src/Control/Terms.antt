-- ===== src/Control/Terms.antt =====
-- The terms of the nodes of ha_control.rs: what elections, proposals and repairs do to them.
use mutsuki_distributed_host.Base.{
  ℕ, ◌≤◌, ◌≡◌, ◌≢◌, refl, ap, sym, ◌∙◌, inl, inr, Bool, true, false, List, [], ◌∷◌, some, if-either,
  All, u64_max, arith, Bool-cases,
}
use mutsuki_distributed_host.Base.Outcome.{Result, ok, err}
use mutsuki_distributed_host.Base.Map.{Map, get, text_key}
use mutsuki_distributed_host.Contracts.{NodeId}
use mutsuki_distributed_host.Control.Cluster.{
  ControlNode, max_term, persist_node, next_write, later_writes, take_vote, after_vote, cast_votes,
}
use mutsuki_distributed_host.Control.Types.{CommittedControlRecord}
use mutsuki_distributed_host.Control.Propose.{write_entry, write_entries, written_nodes}
use mutsuki_distributed_host.Control.ProposeLaws.{memory}

abbrev pub term_of : ControlNode → ℕ
term_of node = node.snapshot.current_term

abbrev pub TermsFit : Map NodeId ControlNode → Type 0
TermsFit nodes = All (λ e. term_of e.1 ≤ u64_max) nodes

-- The same nodes, with terms that did not fall.
abbrev pub Grows : Map NodeId ControlNode → Map NodeId ControlNode → Type 0
Grows [] [] = Unit
Grows [] (e ∷ n) = ⊥
Grows (e ∷ m) [] = ⊥
Grows (d ∷ m) (e ∷ n) =
    (d.0 ≡ e.0) × (term_of d.1 ≤ term_of e.1) × (term_of e.1 ≤ u64_max) × Grows m n

-- A node with at least this term.
abbrev pub HasTerm : NodeId → ℕ → Map NodeId ControlNode → Type 0
HasTerm id term nodes = (node : ControlNode) × (get id nodes ≡ some node) × (term ≤ term_of node)

pub Grows-TermsFit : (m n : Map NodeId ControlNode) → Grows m n → TermsFit n
Grows-TermsFit [] [] g = tt
Grows-TermsFit [] (e ∷ n) g = absurd g
Grows-TermsFit (d ∷ m) [] g = absurd g
Grows-TermsFit (d ∷ m) (e ∷ n) (same, up, fits, g) = (fits, Grows-TermsFit m n g)

pub Grows-HasTerm :
    (id : NodeId) (term : ℕ) (m n : Map NodeId ControlNode)
    → Grows m n
    → HasTerm id term m
    → HasTerm id term n
unfolding get
Grows-HasTerm id term [] [] g h = h
Grows-HasTerm id term [] (e ∷ n) g h = absurd g
Grows-HasTerm id term (d ∷ m) [] g h = absurd g
Grows-HasTerm id term ((k, v) ∷ m) ((j, w) ∷ n) (same, up, fits, g) (node, found, low) =
    elim (text_key.discrete k id) [
      | yes e ↦
          let here : v ≡ node = ground arith in
          let key : j ≡ id = sym same ∙ e in (w, ground arith, omega (arith, ap term_of here))
      | no e ↦
          let key : j ≢ id = λ h. e (same ∙ h) in
          let (node', found', low') : HasTerm id term n =
            Grows-HasTerm id term m n g (node, ground arith, low) in
          (node', ground (arith, found'), low')
    ]

pub max_term-ge :
    (id : NodeId) (term : ℕ) (nodes : Map NodeId ControlNode)
    → HasTerm id term nodes
    → term ≤ max_term nodes
unfolding max_term get
max_term-ge id term [] (node, found, low) = absurd cc
max_term-ge id term ((k, v) ∷ m) (node, found, low) = elim (text_key.discrete k id) [
  | yes e ↦ let here : v ≡ node = ground arith in omega (arith, ap term_of here)
  | no e ↦ omega (arith, max_term-ge id term m (node, ground arith, low))
]

-- A write leaves the term.
pub persist_node-term :
    (works : Bool) (node : ControlNode) → term_of (persist_node works node).0 ≡ term_of node
unfolding persist_node
persist_node-term true node = refl
persist_node-term false node = refl

-- The same terms.
pub Grows-self : (nodes : Map NodeId ControlNode) → TermsFit nodes → Grows nodes nodes
Grows-self [] fits = tt
Grows-self (e ∷ nodes) fits = (refl, omega arith, fits.0, Grows-self nodes fits.1)

after_vote-Grows :
    (id : NodeId) (node : ControlNode) (voted : ControlNode × Result (Unit {0})) (disk : List Bool)
    (nodes : Map NodeId ControlNode) (rest : Map NodeId ControlNode × List Bool × Result (Unit {0}))
    → term_of node ≤ term_of voted.0
    → term_of voted.0 ≤ u64_max
    → TermsFit nodes
    → Grows nodes rest.0
    → Grows ((id, node) ∷ nodes) (after_vote id voted disk nodes rest).0
unfolding after_vote
after_vote-Grows id node (voted, err e) disk nodes rest up fits old g =
    (refl, up, fits, Grows-self nodes old)
after_vote-Grows id node (voted, ok done) disk nodes rest up fits old g = (refl, up, fits, g)

-- The votes.
pub cast_votes-Grows :
    (votes : NodeId × ControlNode → Bool) (candidate : NodeId) (term : ℕ) (disk : List Bool)
    (nodes : Map NodeId ControlNode)
    → TermsFit nodes
    → max_term nodes ≤ term
    → term ≤ u64_max
    → Grows nodes (cast_votes votes candidate term disk nodes).0
unfolding cast_votes max_term take_vote
cast_votes-Grows votes candidate term disk [] old above fits = tt
cast_votes-Grows votes candidate term disk ((id, node) ∷ nodes) old above fits =
    let voted : ControlNode × Result (Unit {0}) =
      persist_node (next_write disk) (take_vote candidate term node) in
    let new : term_of voted.0 ≡ term =
      persist_node-term (next_write disk) (take_vote candidate term node) in
    elim (Bool-cases (votes (id, node))) [
      | inr e ↦ rw e (
        refl,
        omega arith,
        old.0,
        cast_votes-Grows votes candidate term disk nodes old.1 (omega arith) fits,
      )
      | inl e ↦ rw e (
          after_vote-Grows id node voted (later_writes disk) nodes
            (cast_votes votes candidate term (later_writes disk) nodes) (omega (arith, new))
            (omega (arith, new)) old.1
            (cast_votes-Grows votes candidate term (later_writes disk) nodes old.1 (omega arith)
              fits))
    ]

abbrev pub Cast : Type 0
Cast = Map NodeId ControlNode × List Bool × Result (Unit {0})

-- Where all writes succeeded, the node has the term.
abbrev pub Voted : NodeId → ℕ → Cast → Type 0
Voted id term x = x.2 ≡ ok tt → HasTerm id term x.0

later-HasTerm :
    (id k : NodeId) (term : ℕ) (v : ControlNode) (nodes : Map NodeId ControlNode)
    → k ≢ id
    → HasTerm id term nodes
    → HasTerm id term ((k, v) ∷ nodes)
unfolding get
later-HasTerm id k term v nodes apart (node, found, low) = (node, ground (arith, found), low)

after_vote-here :
    (id k : NodeId) (term : ℕ) (voted : ControlNode × Result (Unit {0})) (disk : List Bool)
    (nodes : Map NodeId ControlNode) (rest : Cast)
    → k ≡ id
    → term ≤ term_of voted.0
    → Voted id term (after_vote k voted disk nodes rest)
unfolding after_vote get
after_vote-here id k term (voted, err e) disk nodes rest same low = λ h. absurd cc
after_vote-here id k term (voted, ok done) disk nodes rest same low =
    λ h. (voted, ground arith, low)

after_vote-there :
    (id k : NodeId) (term : ℕ) (voted : ControlNode × Result (Unit {0})) (disk : List Bool)
    (nodes : Map NodeId ControlNode) (rest : Cast)
    → k ≢ id
    → Voted id term rest
    → Voted id term (after_vote k voted disk nodes rest)
unfolding after_vote
after_vote-there id k term (voted, err e) disk nodes rest apart later = λ h. absurd cc
after_vote-there id k term (voted, ok done) disk nodes rest apart later =
    λ h. later-HasTerm id k term voted rest.0 apart (later h)

-- A node that votes in an election whose writes succeed has its term.
pub cast_votes-term :
    (votes : NodeId × ControlNode → Bool) (candidate : NodeId) (term : ℕ) (disk : List Bool)
    (nodes : Map NodeId ControlNode) (id : NodeId) (node : ControlNode)
    → get id nodes ≡ some node
    → votes (id, node) ≡ true
    → Voted id term (cast_votes votes candidate term disk nodes)
unfolding cast_votes get take_vote
cast_votes-term votes candidate term disk [] id node found chosen = absurd cc
cast_votes-term votes candidate term disk ((k, v) ∷ nodes) id node found chosen =
    let voted : ControlNode × Result (Unit {0}) =
      persist_node (next_write disk) (take_vote candidate term v) in
    let new : term_of voted.0 ≡ term =
      persist_node-term (next_write disk) (take_vote candidate term v) in
    let rest = cast_votes votes candidate term (later_writes disk) nodes in
    let others = cast_votes votes candidate term disk nodes in
    elim (text_key.discrete k id) [
      | yes e ↦
          let here : v ≡ node = ground arith in
          let vote : votes (k, v) ≡ true = cc (e, here, chosen) in
          rw vote
            (after_vote-here id k term voted (later_writes disk) nodes rest e (omega (arith, new)))
      | no e ↦
          let there : get id nodes ≡ some node = ground arith in
          if-either (Voted id term) (votes (k, v))
            (after_vote-there id k term voted (later_writes disk) nodes rest e
              (cast_votes-term votes candidate term (later_writes disk) nodes id node there chosen))
            (λ h.
              later-HasTerm id k term v others.0 e
                (cast_votes-term votes candidate term disk nodes id node there chosen h))
    ]

-- Proposals leave the terms.
pub memory-Grows : (m n : Map NodeId ControlNode) → memory n ≡ memory m → TermsFit m → Grows m n
memory-Grows [] [] h fits = tt
memory-Grows [] (e ∷ n) h fits = absurd cc
memory-Grows (d ∷ m) [] h fits = absurd cc
memory-Grows (d ∷ m) (e ∷ n) h fits =
    let key : e.0 ≡ d.0 = cc in
    let same : e.1.snapshot ≡ d.1.snapshot = cc in
    let rest : memory n ≡ memory m = cc in
    let term : term_of e.1 ≡ term_of d.1 = ap (λ s. s.current_term) same in
    (sym key, omega (arith, term), omega (arith, term, fits.0), memory-Grows m n rest fits.1)

write_entry-term :
    (c : CommittedControlRecord) (works : Bool) (node : ControlNode)
    → term_of (write_entry c works node).0 ≡ term_of node
unfolding write_entry persist_node
write_entry-term c true node = refl
write_entry-term c false node = refl

pub write_entries-Grows :
    (reached : NodeId × ControlNode → Bool) (c : CommittedControlRecord) (disk : List Bool)
    (nodes : Map NodeId ControlNode)
    → TermsFit nodes
    → Grows nodes (written_nodes (write_entries reached c disk nodes).0)
unfolding write_entries
write_entries-Grows reached c disk [] fits = tt
write_entries-Grows reached c disk ((id, node) ∷ nodes) fits =
    let same : term_of (write_entry c (next_write disk) node).0 ≡ term_of node =
      write_entry-term c (next_write disk) node in
    elim (Bool-cases (reached (id, node))) [
      | inr e ↦ rw e (refl, omega arith, fits.0, write_entries-Grows reached c disk nodes fits.1)
      | inl e ↦ rw e (
        refl,
        omega (arith, same),
        omega (arith, same, fits.0),
        write_entries-Grows reached c (later_writes disk) nodes fits.1,
      )
    ]
