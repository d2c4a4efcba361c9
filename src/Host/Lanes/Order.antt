-- ===== src/Host/Lanes/Order.antt =====
-- The order of a waiting queue, `enqueue` of host/src/ports.ts.
use mathlib.Core.List.{append-nil}
use vivim_omega.Common.{◌⊎◌, inl, inr, ◌≡◌, refl, List, [], ◌∷◌, ◌++◌, All, arith}
use vivim_omega.Host.Lanes.{Priority, gate, normal, Item, insert_item}

Priority-cases : (p : Priority) → (p ≡ gate) ⊎ (p ≡ normal)
Priority-cases gate = inl refl
Priority-cases normal = inr refl

-- no gate item stands behind a normal one
abbrev pub GatesFirst : List Item → Type 0
GatesFirst [] = Unit
GatesFirst (w ∷ q) =
    (w.priority ≡ normal → All (λ (i : Item). i.priority ≡ normal) q) × GatesFirst q

unfoldable pub keep : Priority → Item → List Item → List Item
keep gate item rest = elim item.priority [ gate ↦ item ∷ rest | normal ↦ rest ]
keep normal item rest = elim item.priority [ gate ↦ rest | normal ↦ item ∷ rest ]

-- the items of one class, in their order
unfoldable pub of_class : Priority → List Item → List Item
unfolding keep
of_class p [] = []
of_class p (w ∷ q) = keep p w (of_class p q)

of_class-insert_normal :
    (p : Priority) (item : Item) (q : List Item)
    → item.priority ≡ normal
    → of_class p (insert_item item q) ≡ of_class p q ++ keep p item []
unfolding of_class keep insert_item
of_class-insert_normal gate item [] e = ground (arith, e)
of_class-insert_normal normal item [] e = ground (arith, e)
of_class-insert_normal gate item (w ∷ q) e = ground (arith, e, of_class-insert_normal gate item q)
of_class-insert_normal normal item (w ∷ q) e =
    ground (arith, e, of_class-insert_normal normal item q)

of_class-normals :
    (q : List Item) → All (λ (i : Item). i.priority ≡ normal) q → of_class gate q ≡ []
unfolding of_class keep
of_class-normals [] h = refl
of_class-normals (w ∷ q) h = ground (arith, h.0, of_class-normals q h.1)

of_class-insert_gate :
    (p : Priority) (item : Item) (q : List Item)
    → item.priority ≡ gate
    → GatesFirst q
    → of_class p (insert_item item q) ≡ of_class p q ++ keep p item []
unfolding of_class keep insert_item
of_class-insert_gate gate item [] e h = ground (arith, e)
of_class-insert_gate normal item [] e h = ground (arith, e)
of_class-insert_gate gate item (w ∷ q) e h =
    ground (arith, e, of_class-insert_gate gate item q e h.1, h.0, of_class-normals q)
of_class-insert_gate normal item (w ∷ q) e h =
    ground (arith, e, append-nil (of_class normal q), of_class-insert_gate normal item q e h.1)

All-insert_normal :
    (item : Item) (q : List Item)
    → item.priority ≡ normal
    → All (λ (i : Item). i.priority ≡ normal) q
    → All (λ (i : Item). i.priority ≡ normal) (insert_item item q)
unfolding insert_item
All-insert_normal item [] e h = (e, tt)
All-insert_normal item (w ∷ q) e h = ground (arith, e, h.0, All-insert_normal item q e h.1)

GatesFirst-insert : (item : Item) (q : List Item) → GatesFirst q → GatesFirst (insert_item item q)
unfolding insert_item
GatesFirst-insert item [] h = ground arith
GatesFirst-insert item (w ∷ q) h = elim (Priority-cases w.priority) [
  | inl wg ↦ rw (wg, insert_item) ((λ e. cc (wg, e)), GatesFirst-insert item q h.1)
  | inr wn ↦ elim (Priority-cases item.priority) [
    | inl ig ↦ rw (wn, ig, insert_item) ((λ e. cc (ig, e)), h)
    | inr other ↦
        rw (wn, other, insert_item)
          ((λ _. All-insert_normal item q other (h.0 wn)), GatesFirst-insert item q h.1)
  ]
]

of_class-insert_item :
    (p : Priority) (item : Item) (q : List Item)
    → GatesFirst q
    → of_class p (insert_item item q) ≡ of_class p q ++ keep p item []
of_class-insert_item p item q h = elim (Priority-cases item.priority) [
  | inl e ↦ of_class-insert_gate p item q e h
  | inr e ↦ of_class-insert_normal p item q e
]

-- Queueing an item keeps the gate calls before the normal ones, and puts the item behind all those
-- of its own class: each class is served first come, first served.
pub insert_item_order :
    (item : Item) (q : List Item)
    → GatesFirst q
    → GatesFirst (insert_item item q)
      × ((p : Priority) → of_class p (insert_item item q) ≡ of_class p q ++ keep p item [])
insert_item_order item q h = (GatesFirst-insert item q h, λ p. of_class-insert_item p item q h)
