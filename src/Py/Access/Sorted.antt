-- ===== src/Py/Access/Sorted.antt =====
-- Sorting texts keeps what is in the list.
use oscal_aap_ansible_playbo.Prelude.{
  String, ◌≡◌, refl, ◌⊎◌, inl, inr, List, [], ◌∷◌, ◌+◌, arith, In, length, Bool-cases,
}
use oscal_aap_ansible_playbo.Py.Access.{str_lt, insert_text, sort_texts}

pub In-insert_text : (a s : String) (ts : List String) → In a (insert_text s ts) → (a ≡ s) ⊎ In a ts
unfolding insert_text
In-insert_text a s [] h = h
In-insert_text a s (t ∷ ts) h = elim (Bool-cases (str_lt t s)) [
  | inl e ↦ elim (rw e at h) [
    | inl q ↦ inr (inl q)
    | inr k ↦ elim (In-insert_text a s ts k) [ inl q ↦ inl q | inr m ↦ inr (inr m) ]
  ]
  | inr e ↦ rw e at h
]

pub In-insert_text_of :
    (a s : String) (ts : List String) → (a ≡ s) ⊎ In a ts → In a (insert_text s ts)
unfolding insert_text
In-insert_text_of a s [] h = h
In-insert_text_of a s (t ∷ ts) h = elim (Bool-cases (str_lt t s)) [
  | inr e ↦ rw e h
  | inl e ↦ rw e (elim h [
    | inl q ↦ inr (In-insert_text_of a s ts (inl q))
    | inr (inl q) ↦ inl q
    | inr (inr m) ↦ inr (In-insert_text_of a s ts (inr m))
  ])
]

-- What is in the sorted list is in the list, and the other way round.
pub In-sort_texts : (a : String) (ss : List String) → In a (sort_texts ss) → In a ss
unfolding sort_texts
In-sort_texts a [] h = h
In-sort_texts a (s ∷ ss) h = elim (In-insert_text a s (sort_texts ss) h) [
  | inl q ↦ inl q
  | inr m ↦ inr (In-sort_texts a ss m)
]

pub In-sort_texts_of : (a : String) (ss : List String) → In a ss → In a (sort_texts ss)
unfolding sort_texts
In-sort_texts_of a [] h = h
In-sort_texts_of a (s ∷ ss) (inl q) = In-insert_text_of a s (sort_texts ss) (inl q)
In-sort_texts_of a (s ∷ ss) (inr m) =
    In-insert_text_of a s (sort_texts ss) (inr (In-sort_texts_of a ss m))

length-insert_text : (s : String) (ts : List String) → length (insert_text s ts) ≡ length ts + 1
unfolding insert_text
length-insert_text s [] = omega arith
length-insert_text s (t ∷ ts) = ground (arith, length-insert_text s ts)

pub length-sort_texts : (ss : List String) → length (sort_texts ss) ≡ length ss
unfolding sort_texts
length-sort_texts [] = refl
length-sort_texts (s ∷ ss) =
    omega (arith, length-insert_text s (sort_texts ss), length-sort_texts ss)
