-- ===== src/Vault/Ops/Names.antt =====
-- The separator of a changelog entry's digest, plugins/vivim-vault/src/validate.ts and canon.ts: the
-- names that the checks let through cannot shift one field into the next.
use Prim.Native.Nat.{◌%◌}
use Prim.Native.Char.{code}
use Prim.Native.String.{String}
use vivim_omega.Law.ConsentId.{char_at, is_hex, is_hex_text}
use vivim_omega.Common.Text.{◌⧺◌}
use vivim_omega.Common.{
  ℕ, zero, suc, ◌/◌, ◌*◌, ◌+◌, ◌-◌, ◌<◌, leb, Bool, true, false, ◌&&◌, ◌||◌, Option, none, some,
  ◌≡◌, refl, sym, ◌∙◌, ap, eqb, ltb, arith, Bool-cases, Option-cases, inl, inr, if◌then◌else◌,
}
use vivim_omega.Vault.Canon.{Json, ◌⦙◌, decimal, decimal_from, entry_text}
use vivim_omega.Vault.Store.{is_cid}
use vivim_omega.Vault.Append.{AppendInput}
use vivim_omega.Vault.Ops.{
  is_forbidden, require_name, append_input, digits, require_object, property,
}

-- no character is the separator
unfoldable has_bar : String → Bool
has_bar String.[] = false
has_bar (String.◌∷◌ c s) = eqb (code c) 124 || has_bar s

-- the text before and after the first separator
before : String → String
before String.[] = ""
before (String.◌∷◌ c s) = let rest = before s in if eqb (code c) 124 then "" else String.◌∷◌ c rest

after : String → String
after String.[] = ""
after (String.◌∷◌ c s) = let rest = after s in if eqb (code c) 124 then s else rest

before-⦙ : (s u : String) → has_bar s ≡ false → before (s ⦙ u) ≡ s
unfolding has_bar ◌⦙◌ ◌⧺◌ before
before-⦙ String.[] u h = refl
before-⦙ (String.◌∷◌ c s) u h = ground (arith, h, before-⦙ s u)

after-⦙ : (s u : String) → has_bar s ≡ false → after (s ⦙ u) ≡ u
unfolding has_bar ◌⦙◌ ◌⧺◌ after
after-⦙ String.[] u h = refl
after-⦙ (String.◌∷◌ c s) u h = ground (arith, h, after-⦙ s u)

bar_split :
    (s t u w : String) → has_bar s ≡ false → has_bar t ≡ false → s ⦙ u ≡ t ⦙ w → (s ≡ t) × (u ≡ w)
bar_split s t u w hs ht e = (
  sym (before-⦙ s u hs) ∙ ap before e ∙ before-⦙ t w ht,
  sym (after-⦙ s u hs) ∙ ap after e ∙ after-⦙ t w ht,
)

-- a decimal numeral has no separator
digit_no_bar : (n : ℕ) (s : String) → has_bar s ≡ false → eqb (code (char_at n s)) 124 ≡ false
unfolding char_at has_bar
digit_no_bar n String.[] h = refl
digit_no_bar zero (String.◌∷◌ c s) h = ground (arith, h)
digit_no_bar (suc n) (String.◌∷◌ c s) h = digit_no_bar n s (ground (arith, h))

digits_no_bar : has_bar "0123456789" ≡ false
unfolding has_bar
digits_no_bar = refl

decimal_no_bar :
    (fuel n : ℕ) (rest : String) → has_bar rest ≡ false → has_bar (decimal_from fuel n rest) ≡ false
unfolding decimal_from has_bar
decimal_no_bar zero n rest h = h
decimal_no_bar (suc fuel) n rest h =
    let c = char_at (n % 10) "0123456789" in
    let digit = digit_no_bar (n % 10) "0123456789" digits_no_bar in
    let rest' : has_bar (String.◌∷◌ c rest) ≡ false = ground (arith, h, digit) in
    elim (Bool-cases (ltb n 10)) [
      | inl small ↦ rw small rest'
      | inr big ↦ rw big (decimal_no_bar fuel (n / 10) (String.◌∷◌ c rest) rest')
    ]

forbidden_bar : (s : String) → is_forbidden s ≡ false → has_bar s ≡ false
unfolding is_forbidden has_bar
forbidden_bar String.[] h = refl
forbidden_bar (String.◌∷◌ c s) h = ground (arith, h, forbidden_bar s)

name_no_bar : (value : Json) {s : String} → require_name value ≡ some s → has_bar s ≡ false
unfolding require_name
name_no_bar (Json.text t) {s} e =
    let (same, allowed) : (t ≡ s) × (is_forbidden t ≡ false) =
      (ground (arith, e), ground (arith, e)) in
    rw (sym same) (forbidden_bar t allowed)
name_no_bar Json.undefined e = cc
name_no_bar Json.null e = cc
name_no_bar (Json.boolean b) e = cc
name_no_bar (Json.number n) e = cc
name_no_bar (Json.array xs) e = cc
name_no_bar (Json.object fs) e = cc

hex_no_bar : (n : ℕ) (s : String) → is_hex_text n s ≡ true → has_bar s ≡ false
unfolding is_hex_text is_hex has_bar
hex_no_bar zero String.[] h = refl
hex_no_bar zero (String.◌∷◌ c s) h = ground (arith, h)
hex_no_bar (suc n) String.[] h = refl
hex_no_bar (suc n) (String.◌∷◌ c s) h = ground (arith, h, hex_no_bar n s)

-- printing and reading a numeral
digit_value :
    (k : ℕ)
    → k < 10
    → ((leb b'0' (code (char_at k "0123456789")) && leb (code (char_at k "0123456789")) b'9')
        ≡ true)
      × (code (char_at k "0123456789") - b'0' ≡ k)
unfolding char_at
digit_value zero lt = (refl, refl)
digit_value (suc zero) lt = (refl, refl)
digit_value (suc (suc zero)) lt = (refl, refl)
digit_value (suc (suc (suc zero))) lt = (refl, refl)
digit_value (suc (suc (suc (suc zero)))) lt = (refl, refl)
digit_value (suc (suc (suc (suc (suc zero))))) lt = (refl, refl)
digit_value (suc (suc (suc (suc (suc (suc zero)))))) lt = (refl, refl)
digit_value (suc (suc (suc (suc (suc (suc (suc zero))))))) lt = (refl, refl)
digit_value (suc (suc (suc (suc (suc (suc (suc (suc zero)))))))) lt = (refl, refl)
digit_value (suc (suc (suc (suc (suc (suc (suc (suc (suc zero))))))))) lt = (refl, refl)
digit_value (suc (suc (suc (suc (suc (suc (suc (suc (suc (suc k)))))))))) lt =
    absurd (omega (arith, lt))

digits_step :
    (acc k : ℕ) (rest : String)
    → k < 10
    → digits acc (String.◌∷◌ (char_at k "0123456789") rest) ≡ digits (10 * acc + k) rest
unfolding digits
digits_step acc k rest lt =
    let (is_digit, value) = digit_value k lt in
    ap
      (λ b. elim b as (λ _. Option ℕ) [
        | true ↦ digits (10 * acc + (code (char_at k "0123456789") - b'0')) rest
        | false ↦ none
      ])
      is_digit
    ∙ ap (λ d. digits (10 * acc + d) rest) value

digits-decimal_from :
    (fuel n : ℕ) (rest : String) → n < fuel → digits 0 (decimal_from fuel n rest) ≡ digits n rest
unfolding decimal_from
digits-decimal_from zero n rest lt = absurd (omega (arith, lt))
digits-decimal_from (suc fuel) n rest lt = elim (Bool-cases (ltb n 10)) [
  | inl small ↦
      let all_of : 10 * 0 + n % 10 ≡ n = ground (arith, small) in
      rw small (digits_step 0 (n % 10) rest (omega arith) ∙ ap (λ m. digits m rest) all_of)
  | inr big ↦
      let rest' = String.◌∷◌ (char_at (n % 10) "0123456789") rest in
      let next : 10 * (n / 10) + n % 10 ≡ n = omega arith in
      rw big (
        digits-decimal_from fuel (n / 10) rest' (ground (arith, big, lt))
        ∙ digits_step (n / 10) (n % 10) rest (omega arith)
        ∙ ap (λ m. digits m rest) next)
]

-- A number that is printed in a template literal reads back as itself.
pub digits-decimal : (n : ℕ) → digits 0 (decimal n) ≡ some n
unfolding decimal digits
digits-decimal n = digits-decimal_from (suc n) n "" (omega arith)

decimal-injective : (m n : ℕ) → decimal m ≡ decimal n → m ≡ n
decimal-injective m n e =
    let h = sym (digits-decimal m) ∙ ap (digits 0) e ∙ digits-decimal n in ground (arith, h)

decimal_bar : (n : ℕ) → has_bar (decimal n) ≡ false
unfolding decimal has_bar
decimal_bar n = decimal_no_bar (suc n) n "" refl

-- the names of an append, as its checks leave them
named :
    (payload causation_id : Json) {input : AppendInput}
    → append_input payload causation_id ≡ some input
    → (has_bar input.causation_id ≡ false) × (has_bar input.ns ≡ false) × (has_bar input.id ≡ false)
unfolding append_input
named payload causation_id {input} e = elim (Option-cases (require_object payload)) [
  | inl refused ↦ absurd (ground (arith, e, refused))
  | inr (p, o) ↦
      let causation : require_name causation_id ≡ some input.causation_id = ground (arith, e, o) in
      let ns : require_name (property "ns" p) ≡ some input.ns = ground (arith, e, o) in
      let id : require_name (property "id" p) ≡ some input.id = ground (arith, e, o) in
      (
        name_no_bar causation_id causation,
        name_no_bar (property "ns" p) ns,
        name_no_bar (property "id" p) id,
      )
]

-- Two changelog rows of appends whose payloads passed the checks, with digests for their cids, are
-- digested as different texts unless they agree in every field: no name carries a separator, and
-- numbers print differently.
pub entry_text-append_input :
    (p c q d : Json) (a b : AppendInput)
    → append_input p c ≡ some a
    → append_input q d ≡ some b
    → (seq rev seq' rev' : ℕ) (cid cid' prev prev' : String) → is_cid cid ≡ true
    → is_cid cid' ≡ true
    → entry_text seq a.causation_id a.ns a.id rev cid prev
      ≡ entry_text seq' b.causation_id b.ns b.id rev' cid' prev'
    → (seq ≡ seq')
      × (a.causation_id ≡ b.causation_id)
      × (a.ns ≡ b.ns)
      × (a.id ≡ b.id)
      × (rev ≡ rev')
      × (cid ≡ cid')
      × (prev ≡ prev')
unfolding entry_text is_cid
entry_text-append_input p c q d a b ha hb seq rev seq' rev' cid cid' prev prev' hc hc' e =
    let (a1, a2, a3) = named p c {input = a} ha in
    let (b1, b2, b3) = named q d {input = b} hb in
    let (e1, r1) =
      bar_split (decimal seq) (decimal seq') _ _ (decimal_bar seq) (decimal_bar seq') e in
    let (e2, r2) = bar_split a.causation_id b.causation_id _ _ a1 b1 r1 in
    let (e3, r3) = bar_split a.ns b.ns _ _ a2 b2 r2 in
    let (e4, r4) = bar_split a.id b.id _ _ a3 b3 r3 in
    let (e5, r5) =
      bar_split (decimal rev) (decimal rev') _ _ (decimal_bar rev) (decimal_bar rev') r4 in
    let (e6, r6) = bar_split cid cid' _ _ (hex_no_bar 64 cid hc) (hex_no_bar 64 cid' hc') r5 in
    (decimal-injective seq seq' e1, e2, e3, e4, decimal-injective rev rev' e5, e6, r6)
