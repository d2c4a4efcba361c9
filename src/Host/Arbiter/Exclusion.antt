-- ===== src/Host/Arbiter/Exclusion.antt =====
-- Exclusive and shared holders over sequences of calls, host/src/state.ts.
use vivim_omega.Common.{
  String, ◌≡◌, ◌≢◌, refl, true, false, ◌⊎◌, List, [], ◌∷◌, ◌++◌, ◌==◌, eq_iff, arith, any, All,
  All-append, if◌then◌else◌, Bool-cases, Option-cases, inl, inr,
}
use vivim_omega.Common.Dict
use vivim_omega.Common.Dict.{Dict, get-put}
use vivim_omega.Host.Arbiter.{
  LockMode, shared, exclusive, Holder, StateArbitrator, is_exclusive, holders_of, is_conflict,
  try_acquire, without, release,
}

abbrev AllShared : List Holder → Type 0
AllShared = All (λ (h : Holder). h.mode ≡ shared)

-- any number of shared holders, or one exclusive holder
abbrev pub IsCoherent : List Holder → Type 0
IsCoherent hs = AllShared hs ⊎ ((h : Holder) × (hs ≡ h ∷ []))

pub record IsSafe (s : StateArbitrator) : Type 0 where
  pub at_key : (key : String) → IsCoherent (holders_of s key)

AllShared-conflict : (hs : List Holder) → any (λ h. is_exclusive h.mode) hs ≡ false → AllShared hs
AllShared-conflict [] e = tt
AllShared-conflict (h ∷ hs) e = (ground (arith, e), AllShared-conflict hs (ground (arith, e)))

IsCoherent-acquire :
    (hs : List Holder) (h : Holder) → is_conflict hs h.mode ≡ false → IsCoherent (hs ++ h ∷ [])
unfolding is_conflict
IsCoherent-acquire [] h e = inr (h, refl)
IsCoherent-acquire (g ∷ hs) h e = inl (
    All-append (λ (h : Holder). h.mode ≡ shared) (g ∷ hs) (h ∷ [])
      (AllShared-conflict (g ∷ hs) (ground (arith, e))) (ground (arith, e), tt))

AllShared-without : (p : String) (hs : List Holder) → AllShared hs → AllShared (without p hs)
unfolding without
AllShared-without p [] h = tt
AllShared-without p (g ∷ hs) h = ground (arith, h.0, AllShared-without p hs h.1)

IsCoherent-without : (p : String) (hs : List Holder) → IsCoherent hs → IsCoherent (without p hs)
IsCoherent-without p hs (inl h) = inl (AllShared-without p hs h)
IsCoherent-without p hs (inr (h, e)) = rw e (elim (Bool-cases (h.principal == p)) [
  | inl same ↦ inl (unfold without in rw same tt)
  | inr other ↦ inr (h, unfold without in rw other)
])

holders-put :
    (key k : String) (hs : List Holder) (s : StateArbitrator)
    → holders_of (Dict.put key hs s) k ≡ (if key == k then hs else holders_of s k)
unfolding holders_of
holders-put key k hs s = simp get-put (ground arith)

put-IsSafe :
    (key : String) (hs : List Holder) (s : StateArbitrator)
    → IsCoherent hs
    → IsSafe s
    → IsSafe (Dict.put key hs s)
put-IsSafe key hs s c h = record {
  at_key = λ k.
      rw (holders-put key k hs s)
        (elim (Bool-cases (key == k)) [ inl e ↦ rw e c | inr e ↦ rw e (h.at_key k) ]);
}

try_acquire-IsSafe :
    (key p : String) (mode : LockMode) (s : StateArbitrator)
    → IsSafe s
    → IsSafe (try_acquire key p mode s).0
unfolding try_acquire
try_acquire-IsSafe key p mode s h = elim (Bool-cases (is_conflict (holders_of s key) mode)) [
  | inl e ↦ rw e h
  | inr e ↦ rw e (
      put-IsSafe key _ s
        (IsCoherent-acquire (holders_of s key) (record { principal = p; mode = mode }) e) h)
]

release-IsSafe : (key p : String) (s : StateArbitrator) → IsSafe s → IsSafe (release key p s)
unfolding release holders_of
release-IsSafe key p s h = elim (Option-cases (Dict.get key s)) [
  | inl e ↦ rw (e, release) h
  | inr (hs, e) ↦
      rw (e, release)
        (put-IsSafe key (without p hs) s
          (IsCoherent-without p hs (rw (e, holders_of) at (h.at_key key))) h)
]

-- the calls of host ops stateAcquire and stateRelease
pub data LockCall : Type 0 where
  acquire : String → String → LockMode → LockCall
  give_back : String → String → LockCall

unfoldable pub lock_step : StateArbitrator → LockCall → StateArbitrator
lock_step s (acquire key p mode) = (try_acquire key p mode s).0
lock_step s (give_back key p) = release key p s

unfoldable pub lock_run : StateArbitrator → List LockCall → StateArbitrator
lock_run s [] = s
lock_run s (c ∷ cs) = lock_run (lock_step s c) cs

lock_step-IsSafe : (s : StateArbitrator) (c : LockCall) → IsSafe s → IsSafe (lock_step s c)
unfolding lock_step
lock_step-IsSafe s (acquire key p mode) h = try_acquire-IsSafe key p mode s h
lock_step-IsSafe s (give_back key p) h = release-IsSafe key p s h

-- Whatever is acquired and released, every key has either shared holders only or one single holder.
pub lock_run-IsSafe : (s : StateArbitrator) (cs : List LockCall) → IsSafe s → IsSafe (lock_run s cs)
unfolding lock_run
lock_run-IsSafe s [] h = h
lock_run-IsSafe s (c ∷ cs) h = lock_run-IsSafe (lock_step s c) cs (lock_step-IsSafe s c h)

-- no call of the list gives `key` back for `p`
abbrev pub Keeps : String → String → List LockCall → Type 0
Keeps key p [] = Unit
Keeps key p (acquire k q mode ∷ cs) = Keeps key p cs
Keeps key p (give_back k q ∷ cs) = ((k ≢ key) ⊎ (q ≢ p)) × Keeps key p cs

abbrev pub owned : String → List Holder
owned p = record { principal = p; mode = exclusive } ∷ []

-- a release of another key, or for another principal, leaves the owner
holders-release_ne :
    (key p k q : String) (s : StateArbitrator)
    → (k ≢ key) ⊎ (q ≢ p)
    → holders_of s key ≡ owned p
    → holders_of (release k q s) key ≡ owned p
unfolding release holders_of without
holders-release_ne key p k q s ne h = elim (Option-cases (Dict.get k s)) [
  | inl e ↦ rw (e, release) h
  | inr (hs, e) ↦
      rw (e, release) (simp get-put (ground (arith, h, e, ne, eq_iff k key, eq_iff p q)))
]

-- an owned key conflicts with every request
owned_conflict : (p : String) (mode : LockMode) → is_conflict (owned p) mode ≡ true
unfolding is_conflict
owned_conflict p mode = refl

holders-acquire_owned :
    (key p k q : String) (mode : LockMode) (s : StateArbitrator)
    → holders_of s key ≡ owned p
    → holders_of (try_acquire k q mode s).0 key ≡ owned p
unfolding try_acquire
holders-acquire_owned key p k q mode s h = elim (Bool-cases (is_conflict (holders_of s k) mode)) [
  | inl e ↦ rw e h
  | inr e ↦ rw e (elim (Bool-cases (k == key)) [
    | inl same ↦ absurd (ground (arith, e, h, (eq_iff k key).0 same, owned_conflict p mode))
    | inr other ↦ cc (holders-put k key _ s, other, h)
  ])
]

-- Once `p` has the exclusive lock of a key, then whatever else is acquired or released, by `p` too,
-- `p` alone holds the key and every request for it is refused, until `p` releases that key.
pub exclusive_lem :
    (s : StateArbitrator) (key p : String) (cs : List LockCall)
    → holders_of s key ≡ owned p
    → Keeps key p cs
    → (holders_of (lock_run s cs) key ≡ owned p)
      × ((q : String) (mode : LockMode) → (try_acquire key q mode (lock_run s cs)).1 ≡ false)
unfolding lock_run lock_step
exclusive_lem s key p [] h k = (h, λ q mode. unfold try_acquire in rw h)
exclusive_lem s key p (acquire k q mode ∷ cs) h rest =
    exclusive_lem (try_acquire k q mode s).0 key p cs (holders-acquire_owned key p k q mode s h)
      rest
exclusive_lem s key p (give_back k q ∷ cs) h rest =
    exclusive_lem (release k q s) key p cs (holders-release_ne key p k q s rest.0 h) rest.1
