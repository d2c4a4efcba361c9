-- ===== src/Law/Principal/Life.antt =====
-- The life of a principal row, plugins/vivim-law/src/principal.ts.
use vivim_omega.Common.{ℕ, ◌+◌, String, ◌≡◌, refl, none, some, List, [], ◌∷◌, arith, ◌∙◌, ap}
use vivim_omega.Law.Principal.{
  PrincipalRecord, active, retired, require_principal, new_record, retire_record,
}

-- the row after the retirements that are tried at the given times; one that throws leaves it
unfoldable pub retire_all : List ℕ → PrincipalRecord → PrincipalRecord
retire_all [] rec = rec
retire_all (now ∷ nows) rec = elim (retire_record now rec) [
  | none ↦ retire_all nows rec
  | some rec' ↦ retire_all nows rec'
]

retire_record-retired :
    (now : ℕ) (rec : PrincipalRecord) → rec.state ≡ retired → retire_record now rec ≡ none
unfolding retire_record
retire_record-retired now rec h = ground (arith, h)

retire_all-retired :
    (nows : List ℕ) (rec : PrincipalRecord) → rec.state ≡ retired → retire_all nows rec ≡ rec
unfolding retire_all
retire_all-retired [] rec h = refl
retire_all-retired (now ∷ nows) rec h =
    rw (retire_record-retired now rec h, retire_all) (retire_all-retired nows rec h)

-- A registered principal that is retired keeps, however often a retirement is tried again, its
-- principal, its time of registration, its first time of retirement and generation 2.
pub retired_for_ever :
    (at now : ℕ) (nows : List ℕ) (principal : String) (rec : PrincipalRecord)
    → new_record at principal ≡ some rec
    → (rec.generation ≡ 1)
      × ((retire_all (now ∷ nows) rec).state ≡ retired)
      × ((retire_all (now ∷ nows) rec).retired_at ≡ some now)
      × ((retire_all (now ∷ nows) rec).registered_at ≡ at)
      × ((retire_all (now ∷ nows) rec).principal ≡ principal)
      × ((retire_all (now ∷ nows) rec).generation ≡ 2)
unfolding new_record require_principal
retired_for_ever at now nows principal rec h =
    let first : rec.state ≡ active = ground (arith, h) in
    let gone : PrincipalRecord = record rec {
      state = retired;
      retired_at = some now;
      generation = rec.generation + 1;
    } in
    let same : retire_all (now ∷ nows) rec ≡ gone =
      unfold retire_all retire_record in rw first (retire_all-retired nows gone refl) in
    (
      ground (arith, h),
      ap (λ r. r.state) same,
      ap (λ r. r.retired_at) same,
      ap (λ r. r.registered_at) same ∙ ground (arith, h),
      ap (λ r. r.principal) same ∙ ground (arith, h),
      ap (λ r. r.generation) same ∙ ground (arith, h),
    )
