-- ===== src/BTree/Nodes/Members.antt =====
-- The entries of a leaf that got one more, and of the halves of a leaf that was split.
use buffer_pool.Base.{
  ℕ, zero, suc, ◌+◌, ◌≡◌, refl, ap, ◌∙◌, ◌↔◌, ◌⊎◌, inl, inr, some, List, [], ◌∷◌, ◌++◌, Bool-cases,
  some_inj, if_true, if_false, length, get_elem?, get_elem?-append_left, get_elem?-append_right,
  get_elem?-lt,
}
use buffer_pool.BTree.Key.{ℤ, key_le}
use buffer_pool.BTree.Leaf.{LeafNode, RecordId}
use buffer_pool.BTree.Nodes.{insert_by_key, sort_by_key, add_entry}
use buffer_pool.BTree.Nodes.Splitting.{Has}

-- The entry stands in the list.
abbrev pub In : List (ℤ × RecordId) → ℤ × RecordId → Type 0
In l e = (i : ℕ) × (get_elem? l i ≡ some e)

cons-In : (x e : ℤ × RecordId) (l : List (ℤ × RecordId)) → In (x ∷ l) e → (x ≡ e) ⊎ In l e
cons-In x e l (zero, h) = inl (some_inj h)
cons-In x e l (suc i, h) = inr (i, h)

In-cons : (x e : ℤ × RecordId) (l : List (ℤ × RecordId)) → (x ≡ e) ⊎ In l e → In (x ∷ l) e
In-cons x e l (inl h) = (0, ap some h)
In-cons x e l (inr (i, h)) = (suc i, h)

insert-In :
    (x e : ℤ × RecordId) (l : List (ℤ × RecordId)) → In (insert_by_key x l) e ↔ ((x ≡ e) ⊎ In l e)
unfolding insert_by_key
insert-In x e [] = (cons-In x e [], In-cons x e [])
insert-In x e (y ∷ rest) = elim (Bool-cases (key_le x.0 y.0)) [
  | inl first ↦ rw (if_true _ _ first) (cons-In x e (y ∷ rest), In-cons x e (y ∷ rest))
  | inr later ↦
      let (out, back) = insert-In x e rest in
      rw (if_false _ _ later) (
        λ h. elim (cons-In y e (insert_by_key x rest) h) [
          | inl is ↦ inr (In-cons y e rest (inl is))
          | inr inside ↦ elim (out inside) [
            | inl is ↦ inl is
            | inr deep ↦ inr (In-cons y e rest (inr deep))
          ]
        ],
        λ h. In-cons y e (insert_by_key x rest) (elim h [
          | inl is ↦ inr (back (inl is))
          | inr inside ↦ elim (cons-In y e rest inside) [
            | inl is ↦ inl is
            | inr deep ↦ inr (back (inr deep))
          ]
        ]),
      )
]

sort-In : (e : ℤ × RecordId) (l : List (ℤ × RecordId)) → In (sort_by_key l) e ↔ In l e
unfolding sort_by_key
sort-In e [] = (λ h. h, λ h. h)
sort-In e (x ∷ rest) =
    let (out, back) = insert-In x e (sort_by_key rest) in
    let (down, up) = sort-In e rest in
    (
      λ h. In-cons x e rest (elim (out h) [ inl is ↦ inl is | inr deep ↦ inr (down deep) ]),
      λ h. back (elim (cons-In x e rest h) [ inl is ↦ inl is | inr deep ↦ inr (up deep) ]),
    )

append-In : (x e : ℤ × RecordId) (l : List (ℤ × RecordId)) → In (l ++ x ∷ []) e ↔ (In l e ⊎ (x ≡ e))
append-In x e [] = (
  λ h. elim (cons-In x e [] h) [ inl is ↦ inr is | inr deep ↦ inl deep ],
  λ h. In-cons x e [] (elim h [ inl deep ↦ inr deep | inr is ↦ inl is ]),
)
append-In x e (y ∷ rest) =
    let (out, back) = append-In x e rest in
    (
      λ h. elim (cons-In y e (rest ++ x ∷ []) h) [
        | inl is ↦ inl (In-cons y e rest (inl is))
        | inr deep ↦ elim (out deep) [
          | inl inside ↦ inl (In-cons y e rest (inr inside))
          | inr is ↦ inr is
        ]
      ],
      λ h. In-cons y e (rest ++ x ∷ []) (elim h [
        | inl inside ↦ elim (cons-In y e rest inside) [
          | inl is ↦ inl is
          | inr deep ↦ inr (back (inl deep))
        ]
        | inr is ↦ inr (back (inr is))
      ]),
    )

-- The entries of a leaf that got an entry are its old ones and the new one.
pub add_entry-In :
    (node : LeafNode) (key : ℤ) (page_id slot_num : ℕ) (e : ℤ × RecordId)
    → In (add_entry node key page_id slot_num).entries e
      ↔ (In node.entries e ⊎ ((key, record { page_id = page_id; slot_num = slot_num }) ≡ e))
unfolding add_entry
add_entry-In node key page_id slot_num e =
    let x : ℤ × RecordId = (key, record { page_id = page_id; slot_num = slot_num }) in
    let (down, up) = sort-In e (node.entries ++ x ∷ []) in
    let (out, back) = append-In x e node.entries in (λ h. out (down h), λ h. up (back h))

-- The same of its keys.
pub add_entry-Has :
    (node : LeafNode) (key sought : ℤ) (page_id slot_num : ℕ)
    → Has (add_entry node key page_id slot_num).entries sought
      ↔ (Has node.entries sought ⊎ (key ≡ sought))
add_entry-Has node key sought page_id slot_num = (
  λ (i, e, at, is). elim ((add_entry-In node key page_id slot_num e).0 (i, at)) [
    | inl (j, old) ↦ inl (j, e, old, is)
    | inr new ↦ inr (ap (λ (x : ℤ × RecordId). x.0) new ∙ is)
  ],
  λ h. elim h [
    | inl (i, e, at, is) ↦
        let (j, found) = (add_entry-In node key page_id slot_num e).1 (inl (i, at)) in
        (j, e, found, is)
    | inr is ↦
        let x : ℤ × RecordId = (key, record { page_id = page_id; slot_num = slot_num }) in
        let (j, found) = (add_entry-In node key page_id slot_num x).1 (inr refl) in
        (j, x, found, is)
  ],
)

-- An entry of a part is one of the whole.
pub In-joined : (l m : List (ℤ × RecordId)) (e : ℤ × RecordId) → In l e ⊎ In m e → In (l ++ m) e
In-joined l m e (inl (i, h)) = (i, get_elem?-append_left l m i (get_elem?-lt l i e h) ∙ h)
In-joined l m e (inr (i, h)) = (length l + i, get_elem?-append_right l m i ∙ h)
