-- ===== src/Hsc/Hsp/Runs.antt =====
-- src/hsp.cpp: the runs that `ChspLoader::load` unpacks.
use adplug.Base.{ℕ, zero, suc, ◌+◌, ◌*◌, ◌/◌, ◌-◌, ◌≤◌, ◌<◌, ◌≡◌, refl, sym, ap, ◌∙◌, arith}
use adplug.Base.{List, [], ◌∷◌, ◌++◌, drop, length, length-append, length-replicate, get_elem?}
use adplug.Base.{
  get_elem?-of_drop, drop-drop, length-of_drop, replicate, lt-of_get_elem?, length-drop_le,
}
use adplug.Base.{some, true, false, ltb, leb, if◌then◌else◌, if_split, ◌&&◌, Bool-cases}
use adplug.Base.{◌⊎◌, inl, inr, Returns}
use adplug.Base.Loops.{rounds}
use adplug.Hsc.Hsp.{Unpacking, memset, run_length, round, unpack}

-- The packed bytes of some runs, and what they stand for.
unfoldable pub pack : List (ℕ × ℕ) → List ℕ
pack [] = []
pack ((cnt, v) ∷ runs) = cnt ∷ v ∷ pack runs

unfoldable pub expand : List (ℕ × ℕ) → List ℕ
expand [] = []
expand ((cnt, v) ∷ runs) = replicate cnt v ++ expand runs

-- `j` bytes of `whole` are in `org`, but for one at the end of the array.
abbrev Holds : ℕ → List ℕ → ℕ → (ℕ → ℕ) → Type 0
Holds orgsize whole j org = (k : ℕ) → k < j → k + 1 < orgsize → get_elem? whole k ≡ some (org k)

-- All that there is room for is unpacked.
pub record IsExpanded (orgsize : ℕ) (whole : List ℕ) (x : (Unit {0}) × Unpacking) : Type 0 where
  pub short : length whole < orgsize → x.1.j ≡ length whole
  pub long : orgsize ≤ length whole → orgsize ≤ x.1.j
  pub bytes : (k : ℕ) → k < length whole → k + 1 < orgsize → get_elem? whole k ≡ some (x.1.org k)

get_elem?-replicate_append :
    (n k v : ℕ) (ys : List ℕ) → k < n → get_elem? (replicate n v ++ ys) k ≡ some v
get_elem?-replicate_append zero k v ys h = absurd (omega arith)
get_elem?-replicate_append (suc n) zero v ys h = refl
get_elem?-replicate_append (suc n) (suc k) v ys h =
    get_elem?-replicate_append n k v ys (omega arith)

drop-replicate_append : (n v : ℕ) (ys : List ℕ) → drop n (replicate n v ++ ys) ≡ ys
drop-replicate_append zero v ys = refl
drop-replicate_append (suc n) v ys = drop-replicate_append n v ys

module _ (cmp whole : List ℕ) (orgsize : ℕ) where
  -- A run more.
  run-Holds :
      (cnt v j : ℕ) (org : ℕ → ℕ) (ys : List ℕ)
      → drop j whole ≡ replicate cnt v ++ ys
      → j < orgsize
      → Holds orgsize whole j org
      → Holds orgsize whole
          (j + cnt)
          (λ k. if leb j k && ltb k (j + run_length cmp orgsize j cnt) then v else org k)
  unfolding run_length
  run-Holds cnt v j org ys e inside so_far k low high =
      let r = if ltb (j + cnt) orgsize then cnt else orgsize - j - 1 in
      let r_le : r ≤ cnt = ground arith in
      let reach : (j + r ≡ j + cnt) ⊎ (j + r + 1 ≡ orgsize) = ground arith in
      if_split (λ (x : ℕ). get_elem? whole k ≡ some x) (leb j k && ltb k (j + r)) v (org k)
        (λ in_run.
          let m : k - j < cnt = ground arith in
          let same : j + (k - j) ≡ k = ground arith in
          let at =
            get_elem?-of_drop whole (replicate cnt v ++ ys) j (k - j) v e
              (get_elem?-replicate_append cnt (k - j) v ys m) in
          ap (λ i. get_elem? whole i) (sym same) ∙ at)
        (λ out. so_far k (ground arith) high)

  rounds-IsExpanded :
      (fuel : ℕ) (runs : List (ℕ × ℕ)) (s : Unpacking)
      → drop s.i cmp ≡ pack runs
      → drop s.j whole ≡ expand runs
      → s.j ≤ length whole
      → Holds orgsize whole s.j s.org
      → length runs < fuel
      → Returns (IsExpanded orgsize whole) (rounds fuel (round cmp orgsize) s)
  unfolding rounds round pack expand memset run_length
  rounds-IsExpanded zero runs s ei ej le so_far enough = absurd (omega arith)
  rounds-IsExpanded (suc fuel) [] s ei ej le so_far enough =
      let over : leb (length cmp) s.i ≡ true = ground (arith, length-of_drop s.i cmp ei) in
      let all : length whole ≤ s.j = length-of_drop s.j whole ej in
      rw over (record {
        short = λ h. omega arith;
        long = λ h. omega arith;
        bytes = λ k low high. so_far k (omega arith) high;
      })
  rounds-IsExpanded (suc fuel) ((cnt, v) ∷ runs) s ei ej le so_far enough =
      let ys = expand runs in
      let first : get_elem? cmp s.i ≡ some cnt =
        ap (λ i. get_elem? cmp i) (omega arith) ∙ get_elem?-of_drop cmp _ s.i 0 cnt ei refl in
      let second : get_elem? cmp (s.i + 1) ≡ some v =
        get_elem?-of_drop cmp (pack ((cnt, v) ∷ runs)) s.i 1 v ei refl in
      let inside : s.i < length cmp = lt-of_get_elem? cmp s.i cnt first in
      let more : leb (length cmp) s.i ≡ false = ground arith in
      let next_i : drop (s.i + 2) cmp ≡ pack runs =
        sym (drop-drop s.i 2 cmp) ∙ ap (λ (xs : List ℕ). drop 2 xs) ei in
      let next_j : drop (s.j + cnt) whole ≡ ys =
        sym (drop-drop s.j cnt whole)
        ∙ ap (λ (xs : List ℕ). drop cnt xs) ej
        ∙ drop-replicate_append cnt v ys in
      let behind : length (drop s.j whole) ≡ cnt + length ys =
        ap (λ (xs : List ℕ). length xs) ej
        ∙ length-append (replicate cnt v) ys
        ∙ ap (λ n. n + length ys) (length-replicate cnt v) in
      let next_le : s.j + cnt ≤ length whole = omega (arith, behind, length-drop_le s.j whole le) in
      elim (Bool-cases (leb orgsize s.j)) [
        | inl over ↦
            rw (more, over)
              (record {
                short = λ h. absurd (ground arith);
                long = λ h. ground arith;
                bytes = λ k low high. so_far k (ground arith) high;
              })
        | inr room ↦
            let before : s.j < orgsize = ground arith in
            let r = if ltb (s.j + cnt) orgsize then cnt else orgsize - s.j - 1 in
            let fits : ltb orgsize (s.j + r) ≡ false = ground arith in
            rw (more, room, first, second, fits)
              (rounds-IsExpanded fuel runs _ next_i next_j next_le
                (run-Holds cnt v s.j s.org ys ej before so_far) (omega arith))
      ]

length-pack : (runs : List (ℕ × ℕ)) → length (pack runs) ≡ 2 * length runs
unfolding pack
length-pack [] = refl
length-pack ((cnt, v) ∷ runs) = omega (arith, length-pack runs)

-- The packed bytes of any runs are unpacked in an array of any size without an access outside of
-- it, after a round at most for each run and one that finds the end. What the runs stand for is in
-- it, up to its size, but for the array's last byte, if they reach that.
pub unpack-IsExpanded :
    (runs : List (ℕ × ℕ)) (orgsize : ℕ) (memory : ℕ → ℕ)
    → Returns (IsExpanded orgsize (expand runs)) (unpack (pack runs) orgsize memory)
unfolding unpack
unpack-IsExpanded runs orgsize memory =
    rounds-IsExpanded (pack runs) (expand runs) orgsize (suc ((length (pack runs) + 1) / 2)) runs _
      refl refl (omega arith) (λ k low high. absurd (omega arith)) (omega (arith, length-pack runs))
