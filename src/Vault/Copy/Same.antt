-- ===== src/Vault/Copy/Same.antt =====
-- The copy that roundtrip.ts writes answers as its source.
use vivim_omega.Common.Dict
use vivim_omega.Common.Dict.{Dict}
use vivim_omega.Common.StrSet.{StrSet}
use vivim_omega.Common.{
  ℕ, suc, ◌≤◌, ◌+◌, String, Option, none, some, List, [], ◌∷◌, ◌++◌, ◌≡◌, refl, ◌∙◌, ap, length,
  All, All-map, arith, eq_iff, Bool-cases, Option-cases, inl, inr, if◌then◌else◌, leb,
}
use vivim_omega.Vault.Store.{
  ObjectRow, ChangelogRow, Vault, is_cid, cas_get, cas_has, cold_rows, read_object, record_of,
  row_of,
}
use vivim_omega.Vault.Verify.{
  Detail, verify, by_seq, insert_entry, first_dangling, blame, blame_unless, probe_blobs,
  chain_corrupt, distinct_cids,
}
use vivim_omega.Vault.Copy.{cas_copy_all, copy_of, roundtrip}
use vivim_omega.Vault.Rows.{first_of}

-- ordering twice is ordering once
abbrev IsOrdered : List ChangelogRow → Type 0
IsOrdered [] = Unit
IsOrdered (e ∷ es) = All (λ f. e.seq ≤ f.seq) es × IsOrdered es

All-insert_entry :
    (P : ChangelogRow → Type 0) (e : ChangelogRow) (es : List ChangelogRow)
    → P e
    → All P es
    → All P (insert_entry e es)
unfolding insert_entry
All-insert_entry P e [] h hs = (h, tt)
All-insert_entry P e (f ∷ es) h hs = elim (Bool-cases (leb e.seq f.seq)) [
  | inl le ↦ rw le (h, hs)
  | inr gt ↦ rw gt (hs.0, All-insert_entry P e es h hs.1)
]

insert_entry-IsOrdered :
    (e : ChangelogRow) (es : List ChangelogRow) → IsOrdered es → IsOrdered (insert_entry e es)
unfolding insert_entry
insert_entry-IsOrdered e [] h = (tt, tt)
insert_entry-IsOrdered e (f ∷ es) h = elim (Bool-cases (leb e.seq f.seq)) [
  | inl le ↦
      let first : e.seq ≤ f.seq = ground (arith, le) in
      rw le ((first, All-map (λ g q. omega (arith, first, q)) es h.0), h)
  | inr gt ↦ rw gt (
    All-insert_entry (λ g. f.seq ≤ g.seq) e es (ground (arith, gt)) h.0,
    insert_entry-IsOrdered e es h.1,
  )
]

by_seq-IsOrdered : (es : List ChangelogRow) → IsOrdered (by_seq es)
unfolding by_seq
by_seq-IsOrdered [] = tt
by_seq-IsOrdered (e ∷ es) = insert_entry-IsOrdered e (by_seq es) (by_seq-IsOrdered es)

by_seq_ordered : (es : List ChangelogRow) → IsOrdered es → by_seq es ≡ es
unfolding by_seq insert_entry
by_seq_ordered [] h = refl
by_seq_ordered (e ∷ []) h = refl
by_seq_ordered (e ∷ f ∷ es) h =
    ap (insert_entry e) (by_seq_ordered (f ∷ es) h.1) ∙ ground (arith, h.0.0)

by_seq_twice : (es : List ChangelogRow) → by_seq (by_seq es) ≡ by_seq es
by_seq_twice es = by_seq_ordered (by_seq es) (by_seq-IsOrdered es)

length-by_seq : (es : List ChangelogRow) → length (by_seq es) ≡ length es
unfolding by_seq
length-by_seq [] = refl
length-by_seq (e ∷ es) = length_inserted e (by_seq es) ∙ ap suc (length-by_seq es)
  where
    length_inserted :
        (d : ChangelogRow) (ds : List ChangelogRow) → length (insert_entry d ds) ≡ suc (length ds)
    length_inserted d [] = refl
    length_inserted d (c ∷ ds) = ground (arith, length_inserted d ds)

get-cas_copy_all :
    (cid : String) (blobs target : Dict String)
    → Dict.IsDistinct blobs
    → Dict.get cid (cas_copy_all blobs target).1
      ≡ first_of (if is_cid cid then Dict.get cid blobs else none) (Dict.get cid target)
unfolding cas_copy_all Dict.get
get-cas_copy_all cid [] target d = ground arith
get-cas_copy_all cid ((c, t) ∷ blobs) target d = elim (Bool-cases (is_cid c)) [
  | inl named ↦ ground (
    arith,
    named,
    d.0,
    get-cas_copy_all cid blobs (Dict.put c t target) d.1,
    eq_iff c cid,
    Dict.get-put c cid t target,
  )
  | inr other ↦ ground (arith, other, get-cas_copy_all cid blobs target d.1, eq_iff c cid)
]

module _ (parse_body : String → Option String) (v : Vault) (names : Dict.IsDistinct v.cas) where
  abbrev copy : Vault
  copy = copy_of parse_body v

  get_copied : (cid : String) → cas_get cid copy ≡ cas_get cid v
  unfolding cas_get copy_of Dict.get
  get_copied cid = ground (arith, get-cas_copy_all cid v.cas [] names)

  has_copied : (cid : String) → cas_has cid copy ≡ cas_has cid v
  unfolding cas_has copy_of Dict.get
  has_copied cid = ground (arith, get-cas_copy_all cid v.cas [] names)

  first_dangling_copied : (es : List ChangelogRow) → first_dangling copy es ≡ first_dangling v es
  unfolding first_dangling copy_of
  first_dangling_copied [] = refl
  first_dangling_copied (e ∷ es) = ground (arith, first_dangling_copied es)

  blame_copied : (cid : String) → blame copy cid ≡ blame v cid
  unfolding blame copy_of
  blame_copied cid = ground (arith, by_seq_twice v.changelog)

  blame_unless_copied :
      (c : Option (ℕ × Detail)) (cid : String) → blame_unless copy c cid ≡ blame_unless v c cid
  unfolding blame copy_of
  blame_unless_copied none cid = blame_copied cid
  blame_unless_copied (some c) cid = refl

  probe_copied :
      (m : ℕ) (c : Option (ℕ × Detail)) (cids : StrSet)
      → probe_blobs copy m c cids ≡ probe_blobs v m c cids
  unfolding probe_blobs
  probe_copied m c [] = refl
  probe_copied m c (cid ∷ cids) = ground (
    arith,
    has_copied cid,
    probe_copied m c cids,
    blame_unless_copied c cid,
    probe_copied (m + 1) (blame_unless v c cid) cids,
  )

  chain_corrupt_copied : (hash : String → String) → chain_corrupt hash copy ≡ chain_corrupt hash v
  unfolding chain_corrupt copy_of
  chain_corrupt_copied hash =
      ground (arith, by_seq_twice v.changelog, first_dangling_copied (by_seq v.changelog))

  verify_copied : (hash : String → String) → verify hash copy ≡ verify hash v
  unfolding verify copy_of
  verify_copied hash = ground (
    arith,
    by_seq_twice v.changelog,
    length-by_seq v.changelog,
    chain_corrupt_copied hash,
    probe_copied 0 (chain_corrupt hash v) (distinct_cids (v.objects ++ cold_rows v.cold_objects)),
  )

  -- The copy that is written into an empty target is judged as the vault is, whatever the vault's
  -- state, where the files of the blobs have different names: `verify` gives both the same answer,
  -- and `roundtrip` passes on its verdict, the head and the number of entries.
  pub roundtrip-verify :
      (hash : String → String)
      → (verify hash (roundtrip hash parse_body v).1 ≡ verify hash v)
        × ((roundtrip hash parse_body v).0.ok ≡ (verify hash v).ok)
        × ((roundtrip hash parse_body v).0.head_hash ≡ (verify hash v).head_hash)
        × ((roundtrip hash parse_body v).0.entries ≡ (verify hash v).entries)
  unfolding roundtrip
  roundtrip-verify hash =
      let same = verify_copied hash in
      (same, ap (λ a. a.ok) same, ap (λ a. a.head_hash) same, ap (λ a. a.entries) same)

  row_copied : (ns id : String) (rev : Option ℕ) → row_of copy ns id rev ≡ row_of v ns id rev
  unfolding row_of copy_of
  row_copied ns id none = refl
  row_copied ns id (some rev) = refl

  record_copied : (row : ObjectRow) → record_of copy row ≡ record_of v row
  unfolding record_of
  record_copied row = ground (arith, get_copied row.cid)

  -- Every read of the copy that is written into an empty target answers as the same read of the
  -- vault, where the files of the blobs have different names.
  pub read_object-roundtrip :
      (hash : String → String) (ns id : String) (rev : Option ℕ)
      → read_object (roundtrip hash parse_body v).1 ns id rev ≡ read_object v ns id rev
  unfolding roundtrip read_object row_of copy_of
  read_object-roundtrip hash ns id rev = elim (Option-cases (row_of v ns id rev)) [
    | inl nothing ↦ ground (arith, row_copied ns id rev, nothing)
    | inr (row, e) ↦ ground (arith, row_copied ns id rev, e, record_copied row)
  ]
