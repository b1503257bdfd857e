-- ===== src/Capture/Dro/Playback.antt =====
-- src/dro.cpp: `update` stays inside of the song and gets on with it.
use adplug.Base.{ℕ, suc, ◌+◌, ◌-◌, ◌%◌, ◌^◌, ◌≤◌, ◌<◌, ◌≡◌, refl, arith, List, Bool, true, false}
use adplug.Base.{ltb, leb, ◌==◌, ◌||◌, Bool-cases, inl, inr, get_elem?-of_lt, if_both}
use adplug.Base.{length, ok, Returns}
use adplug.Base.Loops.{Round, return_with, next_round, Progress, rounds-Returns}
use adplug.Capture.Dro.{Dro, after, byte_at, short_delay, long_delay, write_value, normal_write}
use adplug.Capture.Dro.{command, round, update}

-- The whole song is there, and the position is in it or at its end.
pub record IsPlace (song : List ℕ) (size pos : ℕ) : Type 0 where
  pub all_there : length song ≡ size
  pub in_song : pos ≤ size

abbrev pub IsValid : Dro → Type 0
IsValid p = IsPlace p.song p.length p.pos

-- Further on in the song if there is more to play.
abbrev pub GotOn : Dro → Bool × Dro → Type 0
GotOn p (more, q) =
    IsValid q × (q.length ≡ p.length) × (p.pos ≤ q.pos) × (more ≡ true → p.pos < q.pos)

abbrev After : Dro → Dro → Type 0
After p q = IsValid q × (q.length ≡ p.length) × (p.pos ≤ q.pos)

abbrev left : Dro → ℕ
left p = p.length - p.pos

abbrev GetsOn : Dro → ℕ → Round Bool Dro → Type 0
GetsOn p before = Progress (After p) (GotOn p) left before

-- From a command on, whose code is read.
module _ (p : Dro) (before : ℕ) (small : p.length < 2 ^ 32 - 1) where
  abbrev Moved : Dro → Type 0
  Moved r = IsValid r × (r.length ≡ p.length) × (p.pos < r.pos) × (r.length - r.pos < before)

  Moved-GetsOn :
      (r : Dro)
      → Moved r
      → GetsOn p before (return_with true r)
        × GetsOn p before (return_with false r)
        × GetsOn p before (next_round r)
  Moved-GetsOn r (v, same, on, less) = (
    (v, same, omega arith, λ e. on),
    (v, same, omega arith, λ e. on),
    ((v, same, omega arith), less),
  )

  -- A byte can be read before the song's end, and reading goes on behind it.
  read_on :
      (r : Dro)
      → Moved r
      → r.pos < r.length
      → (b : ℕ) × (byte_at r r.pos ≡ ok b)
        × (after r ≡ r.pos + 1)
        × IsPlace r.song r.length (r.pos + 1)
  unfolding byte_at
  read_on r (v, same, on, less) room =
      let (b, e) = get_elem?-of_lt r.song r.pos (omega (arith, v.all_there)) in
      (b, rw e, omega arith, record { all_there = v.all_there; in_song = omega arith })

  short_delay-GetsOn : (r : Dro) → Moved r → Returns (GetsOn p before) (short_delay r)
  unfolding short_delay
  short_delay-GetsOn r m = elim (Bool-cases (leb r.length r.pos)) [
    | inl e ↦ rw (e, Returns) (Moved-GetsOn r m).1
    | inr e ↦
        let (b, eb, up, v) = read_on r m (ground arith) in
        rw (e, eb, up, Returns) (v, m.1, omega (arith, m.2), λ e'. omega (arith, m.2))
  ]

  long_delay-GetsOn : (r : Dro) → Moved r → Returns (GetsOn p before) (long_delay r)
  unfolding long_delay byte_at
  long_delay-GetsOn r m =
      let up : after r ≡ r.pos + 1 = omega (arith, m.0.in_song, m.1) in
      elim (Bool-cases (leb r.length (r.pos + 1))) [
        | inl e ↦ rw (up, e, Returns) (Moved-GetsOn r m).1
        | inr e ↦
            let room : r.pos + 1 < r.length = ground arith in
            let (low, el) = get_elem?-of_lt r.song r.pos (omega (arith, m.0.all_there)) in
            let (high, eh) = get_elem?-of_lt r.song (r.pos + 1) (omega (arith, m.0.all_there)) in
            let on : (r.pos + 2) % 2 ^ 32 ≡ r.pos + 2 = omega (arith, m.1) in
            let v : IsPlace r.song r.length (r.pos + 2) = record {
              all_there = m.0.all_there;
              in_song = omega arith;
            } in
            rw (up, e, el, eh, on, Returns) (v, m.1, omega (arith, m.2), λ e'. omega (arith, m.2))
      ]

  write_value-GetsOn :
      (index : ℕ) (r : Dro)
      → Moved r
      → r.pos < r.length
      → Returns (GetsOn p before) (write_value index r)
  unfolding write_value
  write_value-GetsOn index r m room =
      let (b, eb, up, v) = read_on r m room in
      rw (eb, up, Returns) ((v, m.1, omega (arith, m.2)), omega (arith, m.3))

  normal_write-GetsOn :
      (index : ℕ) (r : Dro) → Moved r → Returns (GetsOn p before) (normal_write index r)
  unfolding normal_write
  normal_write-GetsOn index r m =
      let up : after r ≡ r.pos + 1 = omega (arith, m.0.in_song, m.1) in
      if_both (Returns (GetsOn p before)) (index == 0x04) _ _
        (elim (Bool-cases (leb r.length (r.pos + 1))) [
          | inl e ↦ rw (up, e, Returns) (Moved-GetsOn r m).1
          | inr e ↦
              let room : r.pos + 1 < r.length = ground arith in
              let (b, eb, up', v) = read_on r m (omega arith) in
              rw (up, e, eb)
                (write_value-GetsOn b (record r { pos = r.pos + 1 })
                  (v, m.1, omega (arith, m.2), omega (arith, m.3)) room)
        ])
        (elim (Bool-cases (leb r.length r.pos)) [
          | inl e ↦ rw (e, Returns) (Moved-GetsOn r m).1
          | inr e ↦ rw e (write_value-GetsOn index r m (ground arith))
        ])

  command-GetsOn : (index : ℕ) (r : Dro) → Moved r → Returns (GetsOn p before) (command index r)
  unfolding command
  command-GetsOn index r m =
      if_both (Returns (GetsOn p before)) (index == 0x00) _ _ (short_delay-GetsOn r m) (
        if_both (Returns (GetsOn p before)) (index == 0x01) _ _ (long_delay-GetsOn r m) (
          if_both (Returns (GetsOn p before)) (index == 0x02 || index == 0x03) _ _
            (Moved-GetsOn r m).2 (normal_write-GetsOn index r m)))

round-GetsOn :
    (p : Dro)
    → p.length < 2 ^ 32 - 1
    → (q : Dro) → After p q
    → Returns (GetsOn p (left q)) (round q)
unfolding round byte_at
round-GetsOn p small q (v, same, on) = elim (Bool-cases (ltb q.pos q.length)) [
  | inl e ↦
      let room : q.pos < q.length = ground arith in
      let (index, ei) = get_elem?-of_lt q.song q.pos (omega (arith, v.all_there)) in
      let up : after q ≡ q.pos + 1 = omega arith in
      let v' : IsPlace q.song q.length (q.pos + 1) = record {
        all_there = v.all_there;
        in_song = omega (arith, room);
      } in
      rw (e, round, ei, up)
        (command-GetsOn p (left q) small index (record q { pos = q.pos + 1 })
          (v', same, omega arith, omega arith))
  | inr e ↦ rw (e, round, Returns) (v, same, on, λ e'. cc)
]

-- On a valid DRO song of fewer than 2^32 - 1 bytes update reads inside of it only, whatever the
-- bytes are, and ends. It keeps the song valid and never goes back in it; when it answers true it
-- has got on.
pub update-GotOn : (p : Dro) → IsValid p → p.length < 2 ^ 32 - 1 → Returns (GotOn p) (update p)
unfolding update
update-GotOn p v small =
    rounds-Returns (After p) (GotOn p) left round (round-GetsOn p small) (suc p.length) p
      (v, refl, omega arith) (omega arith)
