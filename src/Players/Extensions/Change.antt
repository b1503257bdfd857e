-- ===== src/Players/Extensions/Change.antt =====
-- src/players.cpp: the operations that lay out a list of extensions.
use adplug.Base.{ℕ, suc, ◌+◌, ◌<◌, ◌≡◌, refl, ap, ◌∙◌, arith, List, [], ◌∷◌, ◌++◌, length}
use adplug.Base.{some, All, ok, length-append}
use adplug.Players.{PlayerDesc, take_bytes, list_end, player_desc, add_extension}
use adplug.Players.Extensions.{IsText, texts, encode, texts-snoc, list_end-texts}
use adplug.Players.Extensions.{take_bytes-append, text-StartsWith, Lists, length-texts}
use mathlib.Core.List.{append_assoc}

All-snoc {ℓ κ} :
    {A : Type ℓ} (P : A → Type κ) (xs : List A) (a : A) → All P xs → P a → All P (xs ++ (a ∷ []))
All-snoc P [] a h ha = (ha, tt)
All-snoc P (x ∷ xs) a (h, hs) ha = (h, All-snoc P xs a hs ha)

encode-length : (es : List (List ℕ)) → length (encode es) ≡ suc (length (texts es))
encode-length es = omega (arith, length-append (texts es) (0 ∷ []))

module _ {F : Type 0} where
  -- The constructor measures the list and copies it, with its end and nothing behind it.
  pub player_desc-Lists :
      (f : F) (type : List ℕ) (es : List (List ℕ)) (junk : List ℕ)
      → All IsText es
      → (pd : PlayerDesc F) × (player_desc f type (texts es ++ (0 ∷ junk)) ≡ ok pd)
        × (pd.factory ≡ some f)
        × (pd.filetype ≡ type)
        × Lists pd es
  unfolding player_desc
  player_desc-Lists f type es junk h =
      let memory = texts es ++ (0 ∷ junk) in
      let short : length es < suc (length memory) =
        omega (arith, length-append (texts es) (0 ∷ junk), length-texts es) in
      let start : 0 + length (texts es) ≡ length (texts es) = omega arith in
      let last : list_end (suc (length memory)) memory 0 ≡ ok (length (texts es)) =
        list_end-texts (suc (length memory)) 0 es junk h short ∙ ap ok start in
      let sized : length (texts es) + 1 ≡ length (encode es) = omega (arith, encode-length es) in
      let copied : take_bytes (length (encode es)) memory ≡ ok (encode es) =
        rw (← append_assoc (texts es) (0 ∷ []) junk) (take_bytes-append (encode es) junk) in
      (_, rw (last, sized, copied) refl, refl, refl, (h, refl, refl))

  -- A new extension goes behind the others.
  pub add_extension-Lists :
      (pd : PlayerDesc F) (es : List (List ℕ)) (e junk : List ℕ)
      → Lists pd es
      → IsText e
      → (after : PlayerDesc F) × (add_extension pd (e ++ (0 ∷ junk)) ≡ ok after)
        × Lists after (es ++ (e ∷ []))
  unfolding add_extension
  add_extension-Lists pd es e junk (h, held, sized) he =
      let s = text-StartsWith e junk he in
      let kept : take_bytes (length (texts es)) (encode es) ≡ ok (texts es) =
        take_bytes-append (texts es) (0 ∷ []) in
      let laid : texts es ++ (e ++ (0 ∷ 0 ∷ [])) ≡ encode (es ++ (e ∷ [])) =
        rw
          (
            texts-snoc es e,
            append_assoc (texts es) (e ++ (0 ∷ [])) (0 ∷ []),
            append_assoc e (0 ∷ []) (0 ∷ []),
          )
          refl in
      let longer : pd.extlength + length e + 1 ≡ length (encode (es ++ (e ∷ []))) =
        rw
          (
            ← laid,
            length-append (texts es) (e ++ (0 ∷ 0 ∷ [])),
            length-append e (0 ∷ 0 ∷ []),
            sized,
          )
          (omega (arith, encode-length es)) in
      let after : PlayerDesc F = record pd {
        extensions = some (texts es ++ (e ++ (0 ∷ 0 ∷ [])));
        extlength = pd.extlength + length e + 1;
      } in
      (
        after,
        simp (s.whole, held, sized, encode-length es, kept) refl,
        (All-snoc IsText es e h he, ap some laid, longer),
      )
