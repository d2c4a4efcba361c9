-- ===== src/Host/Lanes/Expiry.antt =====
-- Releasing a place in front of a queue with expired calls, `release` and `admit` of
-- host/src/ports.ts.
use vivim_omega.Common.{
  ℕ, String, ◌≡◌, refl, List, [], ◌∷◌, ◌++◌, eq_refl, arith, if◌then◌else◌, Bool-cases, inl, inr,
}
use vivim_omega.Common.Dict
use vivim_omega.Common.Dict.{get-put}
use vivim_omega.Host.Port.{PortResult, fail, budget}
use vivim_omega.Host.Lanes.{
  Item, Message, Lanes, waiting_of, settle, dec_inflight, is_expired, start, admit_next, release,
}

-- the queue from its first item within its deadline on
unfoldable pub live_part : ℕ → List Item → List Item
live_part now [] = []
live_part now (item ∷ q) =
    let rest = live_part now q in if is_expired now item then rest else item ∷ q

abbrev pub posts : List Item → List (String × Message)
posts [] = []
posts (item ∷ q) = (item.target_id, item.msg) ∷ []

abbrev pub behind : List Item → List Item
behind [] = []
behind (item ∷ q) = q

module _ {V : Type 0} where
  -- the answers to the expired items at the front, newest first
  unfoldable pub expired_answers : ℕ → List Item → List (ℕ × PortResult V) → List (ℕ × PortResult V)
  expired_answers now [] settled = settled
  expired_answers now (item ∷ q) settled =
      let more = expired_answers now q ((item.ticket, fail budget) ∷ settled) in
      if is_expired now item then more else settled

  waiting-dec :
      (target key t : String) (s : Lanes V)
      → waiting_of (dec_inflight target key s) t ≡ waiting_of s t
  unfolding dec_inflight waiting_of
  waiting-dec target key t s = ground arith

  posted-dec : (target key : String) (s : Lanes V) → (dec_inflight target key s).posted ≡ s.posted
  unfolding dec_inflight
  posted-dec target key s = ground arith

  settled-dec :
      (target key : String) (s : Lanes V) → (dec_inflight target key s).settled ≡ s.settled
  unfolding dec_inflight
  settled-dec target key s = ground arith

  posted-admit_next :
      (now : ℕ) (target : String) (q : List Item) (s : Lanes V)
      → (admit_next now target q s).posted ≡ posts (live_part now q) ++ s.posted
  unfolding admit_next live_part
  posted-admit_next now target [] s = refl
  posted-admit_next now target (item ∷ q) s = elim (Bool-cases (is_expired now item)) [
    | inl e ↦ rw e (
        unfold settle in
        cc (
          posted-admit_next now target q (
              dec_inflight item.target_id "" (
                settle item.ticket (fail budget)
                  (record s { waiting = Dict.put target q s.waiting }))),
          posted-dec item.target_id "" (
              settle item.ticket (fail budget)
                (record s { waiting = Dict.put target q s.waiting })),
        ))
    | inr e ↦ rw e (unfold start in refl)
  ]

  settled-admit_next :
      (now : ℕ) (target : String) (q : List Item) (s : Lanes V)
      → (admit_next now target q s).settled ≡ expired_answers now q s.settled
  unfolding admit_next expired_answers
  settled-admit_next now target [] s = refl
  settled-admit_next now target (item ∷ q) s = elim (Bool-cases (is_expired now item)) [
    | inl e ↦ rw e (
        unfold settle in
        cc (
          settled-admit_next now target q (
              dec_inflight item.target_id "" (
                settle item.ticket (fail budget)
                  (record s { waiting = Dict.put target q s.waiting }))),
          settled-dec item.target_id "" (
              settle item.ticket (fail budget)
                (record s { waiting = Dict.put target q s.waiting })),
        ))
    | inr e ↦ rw e (unfold start in refl)
  ]

  waiting-start :
      (item : Item) (t : String) (s : Lanes V) → waiting_of (start item s) t ≡ waiting_of s t
  unfolding start waiting_of
  waiting-start item t s = refl

  waiting-settle :
      (n : ℕ) (r : PortResult V) (t : String) (s : Lanes V)
      → waiting_of (settle n r s) t ≡ waiting_of s t
  unfolding settle waiting_of
  waiting-settle n r t s = refl

  waiting-queue :
      (target : String) (q : List Item) (s : Lanes V)
      → waiting_of (record s { waiting = Dict.put target q s.waiting }) target ≡ q
  unfolding waiting_of
  waiting-queue target q s = simp (get-put, eq_refl)

  waiting-admit_next :
      (now : ℕ) (target : String) (q : List Item) (s : Lanes V)
      → waiting_of s target ≡ q
      → waiting_of (admit_next now target q s) target ≡ behind (live_part now q)
  unfolding admit_next live_part
  waiting-admit_next now target [] s h = h
  waiting-admit_next now target (item ∷ q) s h =
      let s' = record s { waiting = Dict.put target q s.waiting } in
      let s2 = settle item.ticket (fail budget) s' in
      elim (Bool-cases (is_expired now item)) [
        | inl e ↦ rw e (
            waiting-admit_next now target q (dec_inflight item.target_id "" s2) (
              cc (
                waiting-dec item.target_id "" target s2,
                waiting-settle item.ticket (fail budget) target s',
                waiting-queue target q s,
              )))
        | inr e ↦ rw e (cc (waiting-start item target s', waiting-queue target q s))
      ]

  -- A place that comes free goes to the first waiting call that is within its deadline: that call
  -- alone is posted, every call before it is answered BUDGET and is not posted, and what stands
  -- behind it is what still waits.
  pub release_lem :
      (now : ℕ) (target key : String) (s : Lanes V)
      → let q = waiting_of s target in
        ((release now target key s).posted ≡ posts (live_part now q) ++ s.posted)
        × ((release now target key s).settled ≡ expired_answers now q s.settled)
        × (waiting_of (release now target key s) target ≡ behind (live_part now q))
  unfolding release
  release_lem now target key s =
      let q = waiting_of s target in
      let s' = dec_inflight target key s in
      (
        cc (posted-admit_next now target q s', posted-dec target key s),
        cc (settled-admit_next now target q s', settled-dec target key s),
        waiting-admit_next now target q s' (waiting-dec target key target s),
      )
