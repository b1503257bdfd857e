-- ===== src/Players/Extensions/Lookup.antt =====
-- src/players.cpp: what the searches and the changes of a list of extensions come to.
use adplug.Base.{ℕ, zero, suc, ◌+◌, ◌≤◌, ◌<◌, ◌≡◌, refl, arith, List, [], ◌∷◌}
use adplug.Base.{drop, length, Option, none, some, Bool, true, false}
use adplug.Base.{if◌then◌else◌, Bool-cases, inl, inr, ok}
use adplug.Base.{order_cases, get_elem?-of_lt, get_elem?-of_le, drop-of_get_elem?}
use adplug.Base.{drop-of_le}
use adplug.Provider.{same_text}
use adplug.Players.{PlayerDesc}
use adplug.Players.{has_extension, lookup_extension}
use adplug.Players.Extensions.{get_extension-encode, Lists, length-lt_extlength}

abbrev any_text : List (List ℕ) → List ℕ → Bool
any_text [] extension = false
any_text (e ∷ es) extension = if same_text extension e then true else any_text es extension

module _ {F : Type 0} where
  abbrev pub AllList : List (PlayerDesc F) → List (List (List ℕ)) → Type 0
  AllList [] [] = Unit {0}
  AllList [] (es ∷ ess) = ⊥
  AllList (pd ∷ pl) [] = ⊥
  AllList (pd ∷ pl) (es ∷ ess) = Lists pd es × AllList pl ess

  -- The first of the players that have a given extension.
  abbrev pub first_with :
      List (PlayerDesc F) → List (List (List ℕ)) → List ℕ → Option (PlayerDesc F)
  first_with [] ess extension = none
  first_with (pd ∷ pl) [] extension = none
  first_with (pd ∷ pl) (es ∷ ess) extension =
      if any_text es extension then some pd else first_with pl ess extension

  -- From the `j`th text on, and with fuel for those that are left.
  has_extension-any_text :
      (fuel j : ℕ) (pd : PlayerDesc F) (es : List (List ℕ)) (extension : List ℕ)
      → Lists pd es
      → j ≤ length es
      → length es < j + fuel
      → has_extension fuel j pd extension ≡ ok (any_text (drop j es) extension)
  unfolding has_extension
  has_extension-any_text zero j pd es extension h there enough = absurd (omega arith)
  has_extension-any_text (suc fuel) j pd es extension h there enough =
      elim (order_cases j (length es)) [
        | inl lt ↦
            let (e, at) = get_elem?-of_lt es j lt in
            rw (get_extension-encode pd es j h.0 h.1, at, drop-of_get_elem? es j e at)
              (elim (Bool-cases (same_text extension e)) [
                | inl same ↦ rw same refl
                | inr other ↦
                    let next : j + 1 ≡ suc j = omega arith in
                    rw (other, next)
                      (has_extension-any_text fuel (suc j) pd es extension h lt (omega arith))
              ])
        | inr ge ↦
            let end : length es ≤ j = ground arith in
            rw (get_extension-encode pd es j h.0 h.1, get_elem?-of_le es j end, drop-of_le es j end)
              refl
      ]

  -- The search finds the first player that has the extension, in whatever case it is written, and
  -- none where there is no such player.
  pub lookup_extension-first_with :
      (pl : List (PlayerDesc F)) (ess : List (List (List ℕ))) (extension : List ℕ)
      → AllList pl ess
      → lookup_extension pl extension ≡ ok (first_with pl ess extension)
  unfolding lookup_extension
  lookup_extension-first_with [] ess extension h = refl
  lookup_extension-first_with (pd ∷ pl) [] extension h = absurd h
  lookup_extension-first_with (pd ∷ pl) (es ∷ ess) extension (h, hs) =
      let found : has_extension pd.extlength 0 pd extension ≡ ok (any_text es extension) =
        has_extension-any_text pd.extlength 0 pd es extension h (omega arith)
          (omega (arith, length-lt_extlength pd es h)) in
      rw found (elim (Bool-cases (any_text es extension)) [
        | inl e ↦ rw e refl
        | inr e ↦ rw e (lookup_extension-first_with pl ess extension hs)
      ])
