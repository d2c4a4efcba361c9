-- ===== src/Host/Graph/Blast.antt =====
-- The reachability search of host/src/graph.ts, `blastRadius`.
use vivim_omega.Common.{
  ℕ, zero, suc, ◌+◌, ◌≤◌, String, Bool, true, false, ◌||◌, some, List, [], ◌∷◌, ◌++◌, ◌==◌, ◌≡◌,
  refl, sym, length, length-append, eq_iff, eq_refl, arith, Bool-cases, inl, inr, if◌then◌else◌,
}
use mathlib.Core.Path.{subst}
use vivim_omega.Common.Dict
use vivim_omega.Common.Dict.{Dict}
use vivim_omega.Common.StrSet
use vivim_omega.Common.StrSet.{StrSet, has-add}
use vivim_omega.Host.Graph.{
  CapabilityGraph, members, neighbours, reach, degrees, blast_fuel, blast_radius,
}

has-append :
    (k : String) (xs ys : List String)
    → StrSet.has k (xs ++ ys) ≡ (StrSet.has k xs || StrSet.has k ys)
unfolding StrSet.has
has-append k [] ys = refl
has-append k (x ∷ xs) ys = ground (arith, has-append k xs ys)

-- only keys have members
members_key :
    (id : String) (m : Dict StrSet) → StrSet.has id (Dict.keys m) ≡ false → members id m ≡ []
unfolding members StrSet.has Dict.get
members_key id [] h = refl
members_key id ((k, xs) ∷ m) h = ground (arith, h, members_key id m)

module _ (g : CapabilityGraph) where
  abbrev ids : List String
  ids = Dict.keys g.outgoing ++ Dict.keys g.offerors ++ Dict.keys g.holders

  neighbours_key : (id : String) → StrSet.has id ids ≡ false → length (neighbours id g) ≡ 0
  unfolding neighbours
  neighbours_key id h =
      let out = Dict.keys g.outgoing in
      let off = Dict.keys g.offerors in
      let hold = Dict.keys g.holders in
      ground (
        arith,
        h,
        has-append id (out ++ off) hold,
        has-append id out off,
        members_key id g.outgoing,
        members_key id g.offerors,
        members_key id g.holders,
      )

  -- the sets of the nodes that are not seen yet
  unfoldable left : StrSet → List String → ℕ
  left seen [] = 0
  left seen (id ∷ xs) =
      let rest = left seen xs in
      if StrSet.has id seen then rest else length (neighbours id g) + rest

  left-add :
      (k : String) (seen : StrSet) (xs : List String) → left (StrSet.add k seen) xs ≤ left seen xs
  unfolding left
  left-add k seen [] = omega arith
  left-add k seen (x ∷ xs) = ground (arith, left-add k seen xs, has-add k x seen, eq_iff k x)

  left-add_lt :
      (k : String) (seen : StrSet) (xs : List String)
      → StrSet.has k seen ≡ false
      → StrSet.has k xs ≡ true
      → left (StrSet.add k seen) xs + length (neighbours k g) ≤ left seen xs
  unfolding left StrSet.has
  left-add_lt k seen [] h e = ground (arith, e)
  left-add_lt k seen (x ∷ xs) h e = elim (Bool-cases (x == k)) [
    | inl same ↦
        ground (arith, same, h, left-add k seen xs, has-add k x seen, eq_iff x k, eq_refl k)
    | inr other ↦
        ground (arith, other, h, e, left-add_lt k seen xs, has-add k x seen, eq_iff x k, eq_iff k x)
  ]

  left-add_all :
      (k : String) (seen : StrSet)
      → StrSet.has k seen ≡ false
      → left (StrSet.add k seen) ids + length (neighbours k g) ≤ left seen ids
  left-add_all k seen h = elim (Bool-cases (StrSet.has k ids)) [
    | inl inside ↦ left-add_lt k seen ids h inside
    | inr outside ↦ omega (arith, neighbours_key k outside, left-add k seen ids)
  ]

  -- with fuel for what is queued and what is not seen, the search ends
  reach_ends :
      (fuel : ℕ) (seen : StrSet) (queue : List String)
      → length queue + left seen ids ≤ fuel
      → (s : StrSet) × (reach fuel g seen queue ≡ some s)
  unfolding reach
  reach_ends fuel seen [] enough = (seen, refl)
  reach_ends zero seen (next ∷ queue) enough = absurd (omega (arith, enough))
  reach_ends (suc fuel) seen (next ∷ queue) enough = elim (Bool-cases (StrSet.has next seen)) [
    | inl old ↦
        let (s, e) = reach_ends fuel seen queue (omega (arith, enough)) in
        (s, ground (arith, old, e))
    | inr fresh ↦
        let (s, e) = reach_ends fuel (StrSet.add next seen) (queue ++ neighbours next g) (
          omega (
            arith,
            enough,
            left-add_all next seen fresh,
            length-append queue (neighbours next g),
          )) in
        (s, ground (arith, fresh, e))
  ]

  left_le : (seen : StrSet) (xs : List String) → left seen xs ≤ degrees xs g
  unfolding left degrees
  left_le seen [] = omega arith
  left_le seen (x ∷ xs) = ground (arith, left_le seen xs)

  -- an edge of the graph, in either direction
  abbrev pub IsEdge : String → String → Type 0
  IsEdge x y = StrSet.has y (neighbours x g) ≡ true

  reach_keeps :
      (k : String) (fuel : ℕ) (seen : StrSet) (queue : List String) {s : StrSet}
      → reach fuel g seen queue ≡ some s
      → StrSet.has k seen ≡ true
      → StrSet.has k s ≡ true
  unfolding reach
  reach_keeps k fuel seen [] {s} e h =
      let same : seen ≡ s = ground (arith, e) in subst (λ t. StrSet.has k t ≡ true) same h
  reach_keeps k zero seen (next ∷ queue) e h = cc
  reach_keeps k (suc fuel) seen (next ∷ queue) {s} e h = elim (Bool-cases (StrSet.has next seen)) [
    | inl old ↦ reach_keeps k fuel seen queue {s = s} (ground (arith, old, e)) h
    | inr fresh ↦
        reach_keeps k fuel (StrSet.add next seen) (queue ++ neighbours next g) {s = s}
          (ground (arith, fresh, e)) (ground (arith, h, has-add next k seen))
  ]

  -- no node is counted twice
  reach-IsDistinct :
      (fuel : ℕ) (seen : StrSet) (queue : List String) {s : StrSet}
      → reach fuel g seen queue ≡ some s
      → StrSet.IsDistinct seen
      → StrSet.IsDistinct s
  unfolding reach
  reach-IsDistinct fuel seen [] {s} e d =
      let same : seen ≡ s = ground (arith, e) in subst StrSet.IsDistinct same d
  reach-IsDistinct zero seen (next ∷ queue) e d = cc
  reach-IsDistinct (suc fuel) seen (next ∷ queue) {s} e d =
      elim (Bool-cases (StrSet.has next seen)) [
        | inl old ↦ reach-IsDistinct fuel seen queue {s = s} (ground (arith, old, e)) d
        | inr fresh ↦
            reach-IsDistinct fuel (StrSet.add next seen) (queue ++ neighbours next g) {s = s}
              (ground (arith, fresh, e)) (StrSet.add-IsDistinct next seen d)
      ]

  -- the edges of what is seen lead to what is seen or queued
  reach_closed :
      (fuel : ℕ) (seen : StrSet) (queue : List String) {s : StrSet}
      → reach fuel g seen queue ≡ some s
      → ((x y : String)
          → StrSet.has x seen ≡ true
          → IsEdge x y
          → (StrSet.has y seen || StrSet.has y queue) ≡ true)
      → (x y : String) → StrSet.has x s ≡ true
      → IsEdge x y
      → StrSet.has y s ≡ true
  unfolding reach StrSet.has
  reach_closed fuel seen [] {s} e inv = λ x y h edge.
      let same : seen ≡ s = ground (arith, e) in
      subst (λ t. StrSet.has y t ≡ true) same
        (ground (arith, inv x y (subst (λ t. StrSet.has x t ≡ true) (sym same) h) edge))
  reach_closed zero seen (next ∷ queue) e inv = cc
  reach_closed (suc fuel) seen (next ∷ queue) {s} e inv = elim (Bool-cases (StrSet.has next seen)) [
    | inl old ↦
        reach_closed fuel seen queue {s = s} (ground (arith, old, e))
          (λ x y h edge. ground (arith, old, inv x y h edge, eq_iff next y))
    | inr fresh ↦
        reach_closed fuel (StrSet.add next seen) (queue ++ neighbours next g) {s = s}
          (ground (arith, fresh, e))
          (λ x y h edge. elim (Bool-cases (next == x)) [
            | inl new ↦ ground (
              arith,
              edge,
              (eq_iff next x).0 new,
              has-add next y seen,
              has-append y queue (neighbours next g),
            )
            | inr before ↦
                let was : StrSet.has x seen ≡ true =
                  ground (arith, before, h, has-add next x seen) in
                ground (
                  arith,
                  inv x y was edge,
                  has-add next y seen,
                  has-append y queue (neighbours next g),
                )
          ])
  ]

  -- nothing is seen but what every closed set holds
  reach_least :
      (Q : String → Bool)
      → ((x y : String) → Q x ≡ true → IsEdge x y → Q y ≡ true)
      → (fuel : ℕ) (seen : StrSet) (queue : List String) {s : StrSet}
      → reach fuel g seen queue ≡ some s
      → ((x : String) → (StrSet.has x seen || StrSet.has x queue) ≡ true → Q x ≡ true)
      → (x : String) → StrSet.has x s ≡ true
      → Q x ≡ true
  unfolding reach StrSet.has
  reach_least Q closed fuel seen [] {s} e inv = λ x h.
      let same : seen ≡ s = ground (arith, e) in
      inv x (ground (arith, subst (λ t. StrSet.has x t ≡ true) (sym same) h))
  reach_least Q closed zero seen (next ∷ queue) e inv = cc
  reach_least Q closed (suc fuel) seen (next ∷ queue) {s} e inv =
      elim (Bool-cases (StrSet.has next seen)) [
        | inl old ↦
            reach_least Q closed fuel seen queue {s = s} (ground (arith, old, e))
              (λ x h. inv x (ground (arith, h)))
        | inr fresh ↦
            let q : Q next ≡ true = inv next (ground (arith, eq_refl next)) in
            reach_least Q closed fuel (StrSet.add next seen) (queue ++ neighbours next g) {s = s}
              (ground (arith, fresh, e))
              (λ x h. elim (Bool-cases (StrSet.has x (neighbours next g))) [
                | inl edge ↦ closed next x q edge
                | inr none_of ↦ inv x (
                    ground (
                      arith,
                      h,
                      none_of,
                      has-add next x seen,
                      has-append x queue (neighbours next g),
                    ))
              ])
      ]

  -- `blastRadius` ends on every graph. For a node it counts, the node left out, the members of a list
  -- without repetition that holds the node and the ends of all edges at its members, in either
  -- direction, and nothing that is not in every such set.
  pub blast_radius_lem :
      (id : String)
      → Dict.has id g.nodes ≡ true
      → (s : StrSet) × (blast_radius id g ≡ some (length (StrSet.delete id s)))
        × StrSet.IsDistinct s
        × (StrSet.has id s ≡ true)
        × ((x y : String) → StrSet.has x s ≡ true → IsEdge x y → StrSet.has y s ≡ true)
        × ((Q : String → Bool)
            → Q id ≡ true
            → ((x y : String) → Q x ≡ true → IsEdge x y → Q y ≡ true)
            → (x : String) → StrSet.has x s ≡ true
            → Q x ≡ true)
  unfolding blast_radius blast_fuel StrSet.has
  blast_radius_lem id known =
      let start = neighbours id g in
      let fuel = blast_fuel id g in
      let (s, e) = reach_ends fuel (id ∷ []) start (omega (arith, left_le (id ∷ []) ids)) in
      let closed =
        reach_closed fuel (id ∷ []) start {s = s} e
          (λ x y h edge. ground (arith, h, edge, eq_iff id x)) in
      (
        s,
        ground (arith, known, e),
        reach-IsDistinct fuel (id ∷ []) start {s = s} e (refl, tt),
        reach_keeps id fuel (id ∷ []) start {s = s} e (ground (arith, eq_refl id)),
        closed,
        (λ Q q shut x h.
            reach_least Q shut fuel (id ∷ []) start {s = s} e
              (λ y there. elim (Bool-cases (StrSet.has y start)) [
                | inl edge ↦ shut id y q edge
                | inr none_of ↦ ground (arith, there, none_of, q, eq_iff id y)
              ])
              x h),
      )
