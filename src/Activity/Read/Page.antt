-- ===== src/Activity/Read/Page.antt =====
-- The page that `get_activity` shows.
use mutiny_node.Prelude.{
  ℕ, zero, suc, ap, ◌∙◌, ◌+◌, ◌-◌, ◌≤◌, ◌≡◌, refl, List, [], ◌∷◌, Option, none, some, false, arith,
  min, length, take, drop, ltb,
}
use mutiny_node.Activity.Read.{cut, page}

module _ {ℓ} {A : Type ℓ} where
  drop_nil : (n : ℕ) → drop {A = A} n [] ≡ []
  drop_nil zero = refl
  drop_nil (suc n) = refl

  take_nil : (n : ℕ) → take {A = A} n [] ≡ []
  take_nil zero = refl
  take_nil (suc n) = refl

  drop-min : (n : ℕ) (xs : List A) → drop (min n (length xs)) xs ≡ drop n xs
  drop-min zero xs = let e : min 0 (length xs) ≡ 0 = omega arith in rw e refl
  drop-min (suc n) [] = drop_nil (min (suc n) 0)
  drop-min (suc n) (x ∷ xs) =
      let e : min (suc n) (suc (length xs)) ≡ suc (min n (length xs)) = omega arith in
      rw e (drop-min n xs)

  take-min : (n : ℕ) (xs : List A) → take (min n (length xs)) xs ≡ take n xs
  take-min zero xs = let e : min 0 (length xs) ≡ 0 = omega arith in rw e refl
  take-min (suc n) [] = take_nil (min (suc n) 0)
  take-min (suc n) (x ∷ xs) =
      let e : min (suc n) (suc (length xs)) ≡ suc (min n (length xs)) = omega arith in
      rw e (ap (◌∷◌ x) (take-min n xs))

  length-drop : (n : ℕ) (xs : List A) → length (drop n xs) ≡ length xs - n
  length-drop zero xs = ground arith
  length-drop (suc n) [] = ground arith
  length-drop (suc n) (x ∷ xs) = ground (arith, length-drop n xs)

  -- What the two options ask for.
  abbrev pub skipped : Option ℕ → List A → List A
  skipped none xs = xs
  skipped (some offset) xs = drop offset xs

  abbrev pub limited : Option ℕ → List A → List A
  limited none xs = xs
  limited (some limit) xs = take limit xs

  take_all : (n : ℕ) (xs : List A) → length xs ≤ n → take n xs ≡ xs
  take_all zero [] h = refl
  take_all zero (x ∷ xs) h = absurd (omega arith)
  take_all (suc n) [] h = refl
  take_all (suc n) (x ∷ xs) h = ap (◌∷◌ x) (take_all n xs (omega arith))

  -- A slice whose bounds are in their order: so many items after so many others.
  cut_lem :
      (start end : ℕ) (xs : List A)
      → min start (length xs) ≤ end
      → cut start end xs ≡ some (take (end - start) (drop start xs))
  unfolding cut
  cut_lem start end xs h =
      let order : ltb (min end (length xs)) (min start (length xs)) ≡ false = ground arith in
      let rest : length (drop start xs) ≡ length xs - start = length-drop start xs in
      let count : min end (length xs) - min start (length xs)
          ≡ min (end - start) (length (drop start xs)) =
        omega (arith, h, rest) in
      rw (cut, order)
        (ap some (rw (count, drop-min start xs) (take-min (end - start) (drop start xs))))

  -- If the length of the list is at most the greatest `usize`, then the page is never given up: it is
  -- the list without as many items at its front as the offset says, and of these at most as many as
  -- the limit says.
  page_lem :
      (top : ℕ) (offset limit : Option ℕ) (xs : List A)
      → length xs ≤ top
      → page top offset limit xs ≡ some (limited limit (skipped offset xs))
  unfolding page
  page_lem top none none xs h =
      cut_lem 0 (length xs) xs (omega arith) ∙ ap some (take_all (length xs - 0) xs (omega arith))
  page_lem top (some offset) none xs h =
      let rest = length-drop offset xs in
      cut_lem offset (length xs) xs (omega arith)
      ∙ ap some (take_all (length xs - offset) (drop offset xs) (omega (arith, rest)))
  page_lem top none (some limit) xs h =
      let same : limit - 0 ≡ limit = omega arith in
      cut_lem 0 limit xs (omega arith) ∙ ap some (rw same refl)
  page_lem top (some offset) (some limit) xs h =
      let end = min (min (offset + limit) top) (length xs) in
      let rest : length (drop offset xs) ≡ length xs - offset = length-drop offset xs in
      let count : end - offset ≡ min limit (length (drop offset xs)) = omega (arith, h, rest) in
      cut_lem offset end xs (omega (arith, h))
      ∙ ap some (rw count (take-min limit (drop offset xs)))
