-- ===== src/Surround/Arrays.antt =====
-- Arrays of arrays, as C lays them out.
use adplug.Base.{ℕ, ◌≡◌, ◌≢◌, refl, sym, ap, arith, List, get_elem?, set, ◌⊎◌, inl, inr, some}
use adplug.Base.{get_elem?-set_self, get_elem?-set_ne, lt-of_get_elem?, Option-cases, order_cases}
use adplug.Base.{Outcome, ok, ◌>>=◌, deref}

abbrev pub get2 : List (List ℕ) → ℕ → ℕ → Outcome ℕ
get2 rows i j = do row ← deref (get_elem? rows i); deref (get_elem? row j)

abbrev pub set2 : List (List ℕ) → ℕ → ℕ → ℕ → Outcome (List (List ℕ))
set2 rows i j v = do
  row ← deref (get_elem? rows i)
  _ ← deref (get_elem? row j)
  ok (set rows i (set row j v))

-- What is known of a place that can be read.
get2-places :
    (rows : List (List ℕ)) (i j w : ℕ)
    → get2 rows i j ≡ ok w
    → (row : List ℕ) × (get_elem? rows i ≡ some row) × (get_elem? row j ≡ some w)
get2-places rows i j w e = elim (Option-cases (get_elem? rows i)) [
  | inl nothing ↦ absurd (cc)
  | inr (row, er) ↦ elim (Option-cases (get_elem? row j)) [
    | inl nothing ↦ absurd (cc)
    | inr (x, ex) ↦ (row, er, cc)
  ]
]

-- A write to a place that can be read: the place has the value then, and all others are as before.
pub record IsStored (rows rows' : List (List ℕ)) (i j v : ℕ) : Type 0 where
  pub here : get2 rows' i j ≡ ok v
  pub others : (k l : ℕ) → (k ≢ i) ⊎ (l ≢ j) → get2 rows' k l ≡ get2 rows k l

module _ (rows : List (List ℕ)) (i j v w : ℕ) (row : List ℕ) (at_row : get_elem? rows i ≡ some row)
    (at_place : get_elem? row j ≡ some w) where
  abbrev written : List (List ℕ)
  written = set rows i (set row j v)

  new_row : get_elem? written i ≡ some (set row j v)
  new_row = get_elem?-set_self rows i (set row j v) (lt-of_get_elem? rows i row at_row)

  other_row : (k l : ℕ) → k ≢ i → get2 written k l ≡ get2 rows k l
  other_row k l ne = rw (get_elem?-set_ne rows i k (set row j v) (λ e. ne (sym e))) refl

  same_row : (l : ℕ) → l ≢ j → get2 written i l ≡ get2 rows i l
  same_row l ne = rw (new_row, at_row) (ap deref (get_elem?-set_ne row j l v (λ e. ne (sym e))))

  written-IsStored : IsStored rows written i j v
  written-IsStored = record {
    here = rw new_row (ap deref (get_elem?-set_self row j v (lt-of_get_elem? row j w at_place)));
    others = λ k l different. elim (order_cases k i) [
      | inl lt ↦ other_row k l (λ e. absurd (omega arith))
      | inr (inr gt) ↦ other_row k l (λ e. absurd (omega arith))
      | inr (inl same) ↦ elim different [
        | inl ne ↦ absurd (ne same)
        | inr ne ↦ rw same (same_row l ne)
      ]
    ];
  }

pub set2-IsStored :
    (rows : List (List ℕ)) (i j v w : ℕ)
    → get2 rows i j ≡ ok w
    → (rows' : List (List ℕ)) × (set2 rows i j v ≡ ok rows') × IsStored rows rows' i j v
set2-IsStored rows i j v w e =
    let (row, er, ej) = get2-places rows i j w e in
    (set rows i (set row j v), rw (er, ej) refl, written-IsStored rows i j v w row er ej)
