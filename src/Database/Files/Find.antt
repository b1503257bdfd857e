-- ===== src/Database/Files/Find.antt =====
-- src/database.cpp: the records of a database as a list, and the map that the list stands for.
use adplug.Base.{suc, ◌≤◌, ◌≡◌, refl, arith, List, [], ◌∷◌, length}
use adplug.Base.{Option, none, some, true, Bool-cases, inl, inr, if◌then◌else◌}
use adplug.Database.{Key, Record, Bucket, key_eq, hit}
use adplug.Database.Places.{key_eq_refl}
use adplug.Database.Validity.{AreUnique, contents, contents-none, live_count}
use adplug.Database.Files.Bytes.{live_records}

abbrev pub find : List Record → Key → Option Record
find [] key = none
find (r ∷ rs) key = if key_eq r.key key then some r else find rs key

-- No two records have one key.
abbrev pub AreDistinct : List Record → Type 0
AreDistinct [] = Unit {0}
AreDistinct (r ∷ rs) = (find rs r.key ≡ none) × AreDistinct rs

pub contents-live_records :
    (bs : List Bucket) (key : Key) → contents bs key ≡ find (live_records bs) key
unfolding contents hit
contents-live_records [] key = refl
contents-live_records (b ∷ bs) key = elim (Bool-cases b.deleted) [
  | inl e ↦ rw e (contents-live_records bs key)
  | inr e ↦ rw (e, contents-live_records bs key) refl
]

pub length-live_records : (bs : List Bucket) → length (live_records bs) ≡ live_count bs
length-live_records [] = refl
length-live_records (b ∷ bs) = elim (Bool-cases b.deleted) [
  | inl e ↦ rw e (omega (arith, length-live_records bs))
  | inr e ↦ rw e (omega (arith, length-live_records bs))
]

pub live_count-le : (bs : List Bucket) → live_count bs ≤ length bs
live_count-le [] = omega arith
live_count-le (b ∷ bs) = ground (arith, live_count-le bs)

pub live_records-AreDistinct : (bs : List Bucket) → AreUnique bs → AreDistinct (live_records bs)
live_records-AreDistinct [] unique = tt
live_records-AreDistinct (b ∷ bs) unique =
    let rest : AreDistinct (live_records bs) =
      live_records-AreDistinct bs
        (λ key i j a c ei ej ha hc. omega (arith, unique key (suc i) (suc j) a c ei ej ha hc)) in
    elim (Bool-cases b.deleted) [
      | inl e ↦ rw e rest
      | inr e ↦
          let here : hit b.rec.key b ≡ true = unfold hit in rw (e, key_eq_refl b.rec.key) refl in
          let no_other : contents bs b.rec.key ≡ none = contents-none bs b.rec.key (λ m c em.
            elim (Bool-cases (hit b.rec.key c)) [
              | inl again ↦
                  absurd (omega (arith, unique b.rec.key 0 (suc m) b c refl em here again))
              | inr other ↦ other
            ]) in
          rw e (rw (← contents-live_records bs b.rec.key) no_other, rest)
    ]
