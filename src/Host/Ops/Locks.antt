-- ===== src/Host/Ops/Locks.antt =====
-- The host operations stateAcquire and stateRelease and their caller, host/src/ports.ts.
use vivim_omega.Common.{
  String, ◌≡◌, refl, Bool, Option, none, some, List, [], ◌∷◌, ◌++◌, ◌==◌, eq_iff, eq_refl, arith,
  ap, true, false, if◌then◌else◌, Bool-cases, Option-cases, inl, inr,
}
use vivim_omega.Common.Dict
use vivim_omega.Common.Dict.{get-put}
use vivim_omega.Host.Arbiter.{
  LockMode, Holder, StateArbitrator, holders_of, is_conflict, try_acquire, without, release,
}
use vivim_omega.Host.Audit.{GrantPayload}
use vivim_omega.Host.Kernel.{Kernel}
use vivim_omega.Host.Port.{
  PortResult, stats_op, terminate_op, spawn_op, journal_op, revoke_op, acquire_op, release_op,
  snapshot_op, chain_op,
}
use vivim_omega.Host.Ops.{
  HostValue, PluginField, absent, plugin_text, other_value, HostPayload, HostState, text_of,
  lock_mode, terminate, revoke_tokens, state_acquire, state_release, host_op,
}

-- the holders of a key that are not `p`
abbrev pub others : String → String → StateArbitrator → List Holder
others p key locks = without p (holders_of locks key)

without-snoc :
    (p : String) (mode : LockMode) (hs : List Holder)
    → without p (hs ++ record { principal = p; mode = mode } ∷ []) ≡ without p hs
unfolding without
without-snoc p mode [] = ground (arith, eq_refl p)
without-snoc p mode (h ∷ hs) = ground (arith, without-snoc p mode hs)

without-without : (p : String) (hs : List Holder) → without p (without p hs) ≡ without p hs
unfolding without
without-without p [] = refl
without-without p (h ∷ hs) = ground (arith, without-without p hs)

others-try_acquire :
    (key p k : String) (mode : LockMode) (locks : StateArbitrator)
    → others p k (try_acquire key p mode locks).0 ≡ others p k locks
unfolding try_acquire holders_of
others-try_acquire key p k mode locks =
    let hs = holders_of locks key in
    elim (Bool-cases (is_conflict hs mode)) [
      | inl e ↦ rw e refl
      | inr e ↦ rw e (elim (Bool-cases (key == k)) [
        | inl same ↦ simp get-put (rw same (cc (without-snoc p mode hs, (eq_iff key k).0 same)))
        | inr other ↦ simp get-put (rw other refl)
      ])
    ]

others-release :
    (key p k : String) (locks : StateArbitrator)
    → others p k (release key p locks) ≡ others p k locks
unfolding release holders_of
others-release key p k locks = elim (Option-cases (Dict.get key locks)) [
  | inl e ↦ rw (e, release) refl
  | inr (hs, e) ↦
      rw (e, release)
        (elim (Bool-cases (key == k)) [
          | inl same ↦
              simp get-put
                (rw same (ground (arith, without-without p hs, e, (eq_iff key k).0 same)))
          | inr other ↦ simp get-put (rw other refl)
        ])
]

-- the locks of the kernel, none where there is no kernel
abbrev pub locks_of : Option Kernel → StateArbitrator
locks_of none = []
locks_of (some k) = k.state

module _ {V : Type 0} where
  acquire-others :
      (caller key : String) (p : HostPayload) (s : HostState V)
      → others caller key (locks_of (state_acquire caller p s).1.kernel)
        ≡ others caller key (locks_of s.kernel)
  unfolding state_acquire
  acquire-others caller key p s = elim (Option-cases s.kernel) [
    | inl e ↦ rw (e, state_acquire) (rw e refl)
    | inr (k, e) ↦ elim (Option-cases (text_of p.key)) [
      | inl f ↦ rw (e, state_acquire) (rw f (rw e refl))
      | inr (at, f) ↦
          let same = others-try_acquire at caller key (lock_mode p.mode) k.state in
          elim (Bool-cases (try_acquire at caller (lock_mode p.mode) k.state).1) [
            | inl g ↦ rw (e, state_acquire) (rw f (rw g same))
            | inr g ↦ rw (e, state_acquire) (rw f (rw g (rw e refl)))
          ]
    ]
  ]

  release-others :
      (caller key : String) (p : HostPayload) (s : HostState V)
      → others caller key (locks_of (state_release caller p s).1.kernel)
        ≡ others caller key (locks_of s.kernel)
  unfolding state_release
  release-others caller key p s = elim (Option-cases s.kernel) [
    | inl e ↦ rw (e, state_release) (rw e refl)
    | inr (k, e) ↦ elim (Option-cases (text_of p.key)) [
      | inl f ↦ rw (e, state_release) (rw f (rw e refl))
      | inr (at, f) ↦ rw (e, state_release) (rw f (others-release at caller key k.state))
    ]
  ]

  terminate-kernel : (q : PluginField) (s : HostState V) → (terminate q s).1.kernel ≡ s.kernel
  unfolding terminate
  terminate-kernel absent s = refl
  terminate-kernel other_value s = refl
  terminate-kernel (plugin_text q) s = ground arith

  revoke_tokens-kernel :
      (q : PluginField) (s : HostState V) → (revoke_tokens q s).1.kernel ≡ s.kernel
  unfolding revoke_tokens
  revoke_tokens-kernel absent s = refl
  revoke_tokens-kernel other_value s = refl
  revoke_tokens-kernel (plugin_text q) s = refl

  -- the locks of the others at a key are those of `s`
  abbrev IsKept : String → String → HostState V → PortResult HostValue × HostState V → Type 0
  IsKept caller key s r =
      others caller key (locks_of r.1.kernel) ≡ others caller key (locks_of s.kernel)

  IsKept-if :
      (caller key : String) (s : HostState V) (b : Bool) (x y : PortResult HostValue × HostState V)
      → IsKept caller key s x
      → IsKept caller key s y
      → IsKept caller key s (if b then x else y)
  IsKept-if caller key s true x y h k = h
  IsKept-if caller key s false x y h k = k

  -- Whatever host operation a caller issues and whatever its payload names, at every key the locks of
  -- all other principals stay as they are.
  pub own_locks_only :
      (hash : GrantPayload → String) (verify : GrantPayload → String → Bool) (caller op : String)
      (p : HostPayload) (s : HostState V) (key : String)
      → others caller key (locks_of (host_op hash verify caller op p s).1.kernel)
        ≡ others caller key (locks_of s.kernel)
  unfolding host_op
  own_locks_only hash verify caller op p s key =
      let keep = IsKept-if caller key s in
      keep (op == stats_op) _ _ refl (
        keep (op == terminate_op) _ _
          (ap (λ k. others caller key (locks_of k)) (terminate-kernel p.plugin_id s))
          (keep (op == spawn_op) _ _ refl (
            keep (op == journal_op) _ _ refl (
              keep (op == revoke_op) _ _
                (ap (λ k. others caller key (locks_of k)) (revoke_tokens-kernel p.plugin_id s))
                (keep (op == acquire_op) _ _ (acquire-others caller key p s) (
                  keep (op == release_op) _ _ (release-others caller key p s)
                    (keep (op == snapshot_op) _ _ refl (keep (op == chain_op) _ _ refl refl))))))))
