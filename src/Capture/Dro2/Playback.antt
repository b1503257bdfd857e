-- ===== src/Capture/Dro2/Playback.antt =====
-- src/dro2.cpp: `update` stays inside of the song and gets on with it.
use adplug.Base.{ℕ, suc, ◌+◌, ◌-◌, ◌%◌, ◌^◌, ◌≤◌, ◌<◌, ◌≡◌, refl, arith, List, Bool, true, false}
use adplug.Base.{ltb, ◌==◌, Bool-cases, inl, inr, bit_and, get_elem?-of_lt, if_both, if◌then◌else◌}
use adplug.Base.{◌∙◌, length, Outcome, Returns}
use adplug.Base.{◌-◌, Returns-map}
use adplug.Base.Loops.{
  play_on, play_on-Returns, PlaysOn, Round, return_with, next_round, Progress, rounds-Returns,
}
use adplug.Capture.Dro2.{Dro2, normal_write, command, round, update, rewind}

-- The song is pairs of bytes, and the position is at a pair or at the end.
pub record HasPlace (song conv_table : List ℕ) (conv_table_len size pos : ℕ) : Type 0 where
  pub all_there : length song ≡ size
  pub table_there : length conv_table ≡ conv_table_len
  pub pairs : size % 2 ≡ 0
  pub short : size < 2 ^ 32
  pub at_pair : pos % 2 ≡ 0
  pub in_song : pos ≤ size

abbrev pub IsValid : Dro2 → Type 0
IsValid p = HasPlace p.song p.conv_table p.conv_table_len p.length p.pos

-- Further on in the song, by a pair at least if there is more to play.
abbrev pub Advanced : Dro2 → Bool × Dro2 → Type 0
Advanced p (more, q) =
    IsValid q × (q.length ≡ p.length) × (p.pos ≤ q.pos) × (more ≡ true → p.pos < q.pos)

-- The same song, not before `p`.
abbrev After : Dro2 → Dro2 → Type 0
After p q = IsValid q × (q.length ≡ p.length) × (p.pos ≤ q.pos)

abbrev left : Dro2 → ℕ
left p = p.length - p.pos

abbrev GetsOn : Dro2 → Dro2 → Round Bool Dro2 → Type 0
GetsOn p q = Progress (After p) (Advanced p) left (left q)

module _ (p q : Dro2) (a : After p q) (going : q.pos < q.length) where
  abbrev Moved : Dro2 → Type 0
  Moved r = IsValid r × (r.length ≡ q.length) × (r.pos ≡ q.pos + 2)

  Moved-GetsOn :
      (r : Dro2)
      → Moved r
      → GetsOn p q (return_with true r)
        × GetsOn p q (return_with false r)
        × GetsOn p q (next_round r)
  Moved-GetsOn r (v, same, at) = (
    (v, same ∙ a.1, omega (arith, a.2), λ e. omega (arith, a.2)),
    (v, same ∙ a.1, omega (arith, a.2), λ e. omega (arith, a.2)),
    ((v, same ∙ a.1, omega (arith, a.2)), omega (arith, v.in_song)),
  )

  normal_write-GetsOn :
      (index value : ℕ) (r : Dro2) → Moved r → Returns (GetsOn p q) (normal_write index value r)
  unfolding normal_write
  normal_write-GetsOn index value r h =
      let index' = if bit_and index 0x80 == 0 then index else bit_and index 0x7f in
      elim (Bool-cases (ltb index' r.conv_table_len)) [
        | inl e ↦
            let (reg, er) = get_elem?-of_lt r.conv_table index' (ground (arith, h.0.table_there)) in
            rw (e, er, Returns) (Moved-GetsOn r h).2
        | inr e ↦ rw (e, Returns) (Moved-GetsOn r h).1
      ]

  command-GetsOn :
      (index value : ℕ) (r : Dro2) → Moved r → Returns (GetsOn p q) (command index value r)
  unfolding command
  command-GetsOn index value r h =
      if_both (Returns (GetsOn p q)) (index == r.cmd_delay_s) _ _ (Moved-GetsOn r h).0 (
        if_both (Returns (GetsOn p q)) (index == r.cmd_delay_l) _ _ (Moved-GetsOn r h).0
          (normal_write-GetsOn index value r h))

  pairs-GetsOn : Returns (GetsOn p q) (round q)
  unfolding round
  pairs-GetsOn =
      let v = a.0 in
      let (index, ei) = get_elem?-of_lt q.song q.pos (omega (arith, v.all_there)) in
      let room : q.pos + 2 ≤ q.length = omega (arith, v.pairs, v.at_pair) in
      let (value, ev) = get_elem?-of_lt q.song (q.pos + 1) (omega (arith, v.all_there)) in
      let up : (q.pos + 1) % 2 ^ 32 ≡ q.pos + 1 = omega (arith, v.short) in
      let on : (q.pos + 2) % 2 ^ 32 ≡ q.pos + 2 = omega (arith, v.short) in
      let place : HasPlace q.song q.conv_table q.conv_table_len q.length (q.pos + 2) = record {
        all_there = v.all_there;
        table_there = v.table_there;
        pairs = v.pairs;
        short = v.short;
        at_pair = omega (arith, v.at_pair);
        in_song = room;
      } in
      let test : ltb q.pos q.length ≡ true = ground arith in
      rw (test, round, ei, up, ev, on)
        (command-GetsOn index value (record q { pos = q.pos + 2 }) (place, refl, refl))

round-GetsOn : (p q : Dro2) → After p q → Returns (GetsOn p q) (round q)
unfolding round
round-GetsOn p q a = elim (Bool-cases (ltb q.pos q.length)) [
  | inl e ↦ pairs-GetsOn p q a (ground arith)
  | inr e ↦ rw (e, round, Returns) (a.0, a.1, a.2, λ e'. cc)
]

-- On a valid song `update` reads inside of it and of the code table only, whatever the bytes are, and
-- ends. It keeps the song valid and never goes back in it; when it answers true it has got on.
pub update-Advanced : (p : Dro2) → IsValid p → Returns (Advanced p) (update p)
unfolding update
update-Advanced p v =
    rounds-Returns (After p) (Advanced p) left round (round-GetsOn p) (suc p.length) p
      (v, refl, omega arith) (omega arith)

abbrev pub play_through : ℕ → Dro2 → Outcome Dro2
play_through fuel p = play_on update fuel p

abbrev left_over : Dro2 → ℕ
left_over p = p.length - p.pos

Advanced-on :
    (p : Dro2) (x : Bool × Dro2)
    → Advanced p x
    → PlaysOn update IsValid IsValid left_over (left_over p) x
Advanced-on p (true, q) (v, same, _, on) =
    let further : p.pos < q.pos = on refl in (v, omega (arith, v.in_song))
Advanced-on p (false, q) (v, same, _, on) = v

pub rewind-IsValid : (p : Dro2) → IsValid p → IsValid (rewind p)
unfolding rewind
rewind-IsValid p v = record {
  all_there = v.all_there;
  table_there = v.table_there;
  pairs = v.pairs;
  short = v.short;
  at_pair = refl;
  in_song = omega arith;
}

-- A valid song that is rewound and then updated until `update` answers false comes to that without a
-- fault, after no more updates than it has bytes, and one.
pub play_through-IsValid :
    (p : Dro2) → IsValid p → Returns IsValid (play_through (suc p.length) (rewind p))
unfolding rewind
play_through-IsValid p v =
    play_on-Returns update IsValid IsValid left_over
      (λ q w. Returns-map (Advanced q) _ (update q) (Advanced-on q) (update-Advanced q w))
      (suc p.length) (rewind p) (rewind-IsValid p v) (omega arith)
