-- ===== src/Vault/Verify/Growth.antt =====
-- The hash chain of plugins/vivim-vault/src/changelog.ts as it grows, under the walk of verify.ts.
use mathlib.Core.Path.{subst}
use vivim_omega.Common.{
  ℕ, suc, ◌+◌, ◌<◌, String, none, some, List, [], ◌∷◌, ◌++◌, ◌≡◌, refl, sym, ◌∙◌, ap, length, arith,
  eq_refl, Option-cases, inl, inr, max,
}
use vivim_omega.Vault.Canon.{entry_hash, genesis_hash}
use vivim_omega.Vault.Store.{ChangelogRow}
use vivim_omega.Vault.Append.{newest_entry, chain_head, max_seq, next_entry}
use vivim_omega.Vault.Verify.{walk, by_seq, insert_entry}
use vivim_omega.Vault.Verify.Intact.{IsChain}

-- the entry hash that a list of entries ends with
abbrev last_hash : String → List ChangelogRow → String
last_hash prev [] = prev
last_hash prev (e ∷ es) = last_hash e.entry_hash es

module _ (hash : String → String) where
  pub by_seq_chain :
      (i : ℕ) (prev : String) (es : List ChangelogRow) → IsChain hash i prev es → by_seq es ≡ es
  unfolding by_seq insert_entry
  by_seq_chain i prev [] h = refl
  by_seq_chain i prev (e ∷ []) h = refl
  by_seq_chain i prev (e ∷ f ∷ es) h =
      ap (insert_entry e) (by_seq_chain (suc i) e.entry_hash (f ∷ es) h.3)
      ∙ ground (arith, h.0, h.3.0)

  max_seq_chain :
      (i : ℕ) (prev : String) (es : List ChangelogRow)
      → IsChain hash i prev es
      → max i (max_seq es) ≡ i + length es
  unfolding max_seq
  max_seq_chain i prev [] h = omega arith
  max_seq_chain i prev (e ∷ es) h = omega (arith, h.0, max_seq_chain (suc i) e.entry_hash es h.3)

  newest_seq :
      (i : ℕ) (prev : String) (es : List ChangelogRow) {f : ChangelogRow}
      → IsChain hash i prev es
      → newest_entry es ≡ some f
      → i < f.seq
  unfolding newest_entry
  newest_seq i prev [] h e = cc
  newest_seq i prev (d ∷ es) {f} h e = elim (Option-cases (newest_entry es)) [
    | inl nothing ↦ ground (arith, nothing, e, h.0)
    | inr (g, there) ↦
        ground (arith, there, e, h.0, newest_seq (suc i) d.entry_hash es {f = g} h.3 there)
  ]

  head_chain :
      (i : ℕ) (prev : String) (es : List ChangelogRow)
      → IsChain hash i prev es
      → (elim (newest_entry es) as (λ _. String) [ none ↦ prev | some e ↦ e.entry_hash ])
        ≡ last_hash prev es
  unfolding newest_entry
  head_chain i prev [] h = refl
  head_chain i prev (e ∷ es) h =
      let ih = head_chain (suc i) e.entry_hash es h.3 in
      elim (Option-cases (newest_entry es)) [
        | inl nothing ↦ ground (arith, nothing, ih)
        | inr (g, there) ↦
            let lt = newest_seq (suc i) e.entry_hash es {f = g} h.3 there in
            ground (arith, there, ih, lt, h.0)
      ]

  walk_head :
      (i : ℕ) (prev : String) (es : List ChangelogRow)
      → IsChain hash i prev es
      → (walk hash i prev es).head ≡ last_hash prev es
  unfolding walk
  walk_head i prev [] h = refl
  walk_head i prev (e ∷ es) (seq, link, own, rest) =
      let ih =
        subst (λ c. (walk hash (suc i) c es).head ≡ last_hash e.entry_hash es) own
          (walk_head (suc i) e.entry_hash es rest) in
      ground (arith, seq, link, own, ih, eq_refl e.prev_hash, eq_refl e.entry_hash)

  pub head_of_chain :
      (es : List ChangelogRow)
      → IsChain hash 0 genesis_hash es
      → (walk hash 0 genesis_hash es).head ≡ chain_head es
  unfolding chain_head
  head_of_chain es h = walk_head 0 genesis_hash es h ∙ sym (head_chain 0 genesis_hash es h)

  IsChain-snoc :
      (i : ℕ) (prev : String) (es : List ChangelogRow) (e : ChangelogRow)
      → IsChain hash i prev es
      → e.seq ≡ i + length es + 1
      → e.prev_hash ≡ last_hash prev es
      → e.entry_hash
        ≡ entry_hash hash e.seq e.causation_id e.ns e.id e.rev e.cid (last_hash prev es)
      → IsChain hash i prev (es ++ e ∷ [])
  IsChain-snoc i prev [] e h seq link own = (omega (arith, seq), link, own, tt)
  IsChain-snoc i prev (f ∷ es) e h seq link own =
      (h.0, h.1, h.2, IsChain-snoc (suc i) f.entry_hash es e h.3 (omega (arith, seq)) link own)

  pub IsChain-next_entry :
      (es : List ChangelogRow) (causation_id ns id : String) (rev : ℕ) (cid : String)
      → IsChain hash 0 genesis_hash es
      → IsChain hash 0 genesis_hash (es ++ next_entry hash es causation_id ns id rev cid ∷ [])
  unfolding next_entry chain_head
  IsChain-next_entry es causation_id ns id rev cid h =
      let head = head_chain 0 genesis_hash es h in
      let e = next_entry hash es causation_id ns id rev cid in
      IsChain-snoc 0 genesis_hash es e h (omega (arith, max_seq_chain 0 genesis_hash es h)) head
        (ap (entry_hash hash e.seq causation_id ns id rev cid) head)
