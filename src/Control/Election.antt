-- ===== src/Control/Election.antt =====
-- Elections of ha_control.rs over any calls: the terms of the leaders rise.
use mutsuki_distributed_host.Base.{
  ℕ, ◌≤◌, ◌≡◌, ◌≢◌, ◌⊎◌, refl, ◌∙◌, inl, inr, true, not, ◌||◌, [], ◌∷◌, none, some, ltb, if-either,
  if-cases, filter, length, u64_max, arith, Option-cases,
}
use mutsuki_distributed_host.Base.Outcome.{Result, ok, err}
use mutsuki_distributed_host.Base.Map.{Map, get, insert, text_key, is_self, get-insert}
use mutsuki_distributed_host.Contracts.{NodeId}
use mutsuki_distributed_host.Control.Cluster.{
  ControlNode, ReferenceCftModel, max_term, next_term, cast_votes, finish_election, elect,
  votes_for, last_index, is_full, connected, quorum_size,
}
use mutsuki_distributed_host.Control.Terms.{
  term_of, TermsFit, Grows, HasTerm, Grows-TermsFit, Grows-HasTerm, Grows-self, max_term-ge,
  cast_votes-Grows, cast_votes-term, Cast, Voted,
}

-- The leader is the same, or there is none.
abbrev pub Lead : ReferenceCftModel → ReferenceCftModel → Type 0
Lead m n = (n.leader ≡ m.leader) ⊎ (n.leader ≡ none)

-- A leader was elected in a term: its node still has at least that term, and no one else leads.
abbrev pub IsLed : ℕ → ReferenceCftModel → Type 0
IsLed term m =
    TermsFit m.nodes
    × (id : NodeId) × HasTerm id term m.nodes
    × ((m.leader ≡ none) ⊎ (m.leader ≡ some id))

pub keep-leader :
    (m n : ReferenceCftModel) (id : NodeId)
    → Lead m n
    → (m.leader ≡ none) ⊎ (m.leader ≡ some id)
    → (n.leader ≡ none) ⊎ (n.leader ≡ some id)
keep-leader m n id (inl same) (inl e) = inl (same ∙ e)
keep-leader m n id (inl same) (inr e) = inr (same ∙ e)
keep-leader m n id (inr gone) h = inl gone

pub grown-IsLed :
    (term : ℕ) (m n : ReferenceCftModel)
    → Grows m.nodes n.nodes
    → Lead m n
    → IsLed term m
    → IsLed term n
grown-IsLed term m n grows lead (fit, id, has, led) = (
  Grows-TermsFit m.nodes n.nodes grows,
  id,
  Grows-HasTerm id term m.nodes n.nodes grows has,
  keep-leader m n id lead led,
)

pub max_term-fits : (nodes : Map NodeId ControlNode) → TermsFit nodes → max_term nodes ≤ u64_max
unfolding max_term
max_term-fits [] fit = omega arith
max_term-fits (e ∷ nodes) fit = omega (arith, fit.0, max_term-fits nodes fit.1)

-- How an election ends: the nodes' terms grow, and either it fails and no new leader stands, or the
-- candidate leads with the term that it got.
abbrev pub Elected : ReferenceCftModel → NodeId → ℕ → ReferenceCftModel × Result ℕ → Type 0
Elected m candidate term x =
    Grows m.nodes x.0.nodes
    × ((Lead m x.0 × ((got : ℕ) → x.1 ≢ ok got))
        ⊎ ((x.0.leader ≡ some candidate) × HasTerm candidate term x.0.nodes × (x.1 ≡ ok term)))

finish_election-Elected :
    (candidate : NodeId) (term : ℕ) (m : ReferenceCftModel) (cast : Cast)
    → Grows m.nodes cast.0
    → Voted candidate term cast
    → Elected m candidate term (finish_election candidate term m cast)
unfolding finish_election
finish_election-Elected candidate term m (nodes, disk, err e) grows voted =
    (grows, inl (inl refl, λ got h. absurd cc))
finish_election-Elected candidate term m (nodes, disk, ok done) grows voted =
    (grows, inr (refl, voted refl, refl))

votes_for_self :
    (m : ReferenceCftModel) (candidate : NodeId) (node : ControlNode)
    → node.alive ≡ true
    → votes_for m candidate (last_index node) (candidate, node) ≡ true
unfolding connected
votes_for_self m candidate node up = rw (up, is_self candidate) (ground arith)

pub elect-Elected :
    (candidate : NodeId) (m : ReferenceCftModel)
    → TermsFit m.nodes
    → Elected m candidate (next_term m) (elect candidate m)
unfolding elect
elect-Elected candidate m fit =
    let same : Grows m.nodes m.nodes = Grows-self m.nodes fit in
    elim (Option-cases (get candidate m.nodes)) [
      | inl e ↦ rw (e, elect) (same, inl (inl refl, λ got h. absurd cc))
      | inr (node, e) ↦
          let votes = votes_for m candidate (last_index node) in
          let cast : Cast = cast_votes votes candidate (next_term m) m.disk m.nodes in
          rw (e, elect)
            (if-cases (Elected m candidate (next_term m))
              (not node.alive || not (is_full node.snapshot.kind))
              (λ down. (same, inl (inl refl, λ got h. absurd cc)))
              (λ up.
                if-either (Elected m candidate (next_term m))
                  (ltb (length (filter votes m.nodes)) (quorum_size m))
                  (same, inl (inr refl, λ got h. absurd cc))
                  (finish_election-Elected candidate (next_term m) m cast
                    (cast_votes-Grows votes candidate (next_term m) m.disk m.nodes fit
                      (omega (arith, max_term-fits m.nodes fit)) (omega arith))
                    (cast_votes-term votes candidate (next_term m) m.disk m.nodes candidate node e
                      (votes_for_self m candidate node (ground (arith, up)))))))
    ]

pub elect-IsLed :
    (candidate : NodeId) (term : ℕ) (m : ReferenceCftModel)
    → IsLed term m
    → IsLed term (elect candidate m).0
elect-IsLed candidate term m led =
    let (fit, id, has, leads) = led in
    let (grows, end) : Elected m candidate (next_term m) (elect candidate m) =
      elect-Elected candidate m fit in
    let n : ReferenceCftModel = (elect candidate m).0 in
    elim end [
      | inl (lead, failed) ↦ grown-IsLed term m n grows lead led
      | inr (leader, (node, found, low), won) ↦ (
        Grows-TermsFit m.nodes n.nodes grows,
        candidate,
        (node, found, omega (arith, max_term-ge id term m.nodes has, max_term-fits m.nodes fit)),
        inr leader,
      )
    ]

pub insert-HasTerm :
    (id k : NodeId) (term : ℕ) (node : ControlNode) (nodes : Map NodeId ControlNode)
    → (k ≡ id → term ≤ term_of node)
    → HasTerm id term nodes
    → HasTerm id term (insert k node nodes)
insert-HasTerm id k term node nodes low (old, found, h) = elim (text_key.discrete k id) [
  | yes e ↦ (node, ground (arith, get-insert k id node nodes), low e)
  | no e ↦ (old, ground (arith, get-insert k id node nodes), h)
]
