-- ===== src/Nwc/Clear/Removed.antt =====
-- Which profiles the clearing of used single use profiles removes.
use mutiny_node.Prelude.{
  ℕ, suc, ◌≡◌, refl, ap, true, false, not, inl, inr, List, [], ◌∷◌, ◌++◌, some, arith, length,
  length-append, retain, Bool-cases,
}
use mutiny_node.Exec.{◌>>◌}
use mutiny_node.Encrypt.{Crypto}
use mutiny_node.Storage.Values.{Json, Serde}
use mutiny_node.Storage.{Env}
use mutiny_node.Nwc.Invoice.{Bolt11}
use mutiny_node.Nwc.Profile.{Profile, NostrWalletConnect}
use mutiny_node.Nwc.Manager.{Manager, put_nwc}
use mutiny_node.Nwc.Manager.Ops.{save_profiles}
use mutiny_node.Nwc.Node.{InvoiceHandler}
use mutiny_node.Nwc.Clear.{
  remove_at, remove_each, is_spent, spent_positions, remove_and_save,
  clear_successful_single_use_profiles,
}

remove_at-append :
    {A : Type 0} (before : List A) (x : A) (after : List A)
    → remove_at (length before) (before ++ (x ∷ after)) ≡ some (before ++ after)
unfolding remove_at
remove_at-append [] x after = refl
remove_at-append (y ∷ ys) x after = rw (remove_at-append ys x after) refl

append_snoc :
    {A : Type 0} (xs : List A) (x : A) (ys : List A) → (xs ++ (x ∷ [])) ++ ys ≡ xs ++ (x ∷ ys)
append_snoc [] x ys = refl
append_snoc (z ∷ zs) x ys = ap (λ l. z ∷ l) (append_snoc zs x ys)

length_snoc : {A : Type 0} (xs : List A) (x : A) → length (xs ++ (x ∷ [])) ≡ suc (length xs)
length_snoc xs x = omega (arith, length-append xs (x ∷ []))

module _ {V : Type 0} ⦃b : Bolt11⦄ ⦃node : InvoiceHandler⦄ (s : Manager V) where
  abbrev pub unspent : List NostrWalletConnect → List NostrWalletConnect
  unspent l = retain (λ n. not (is_spent s n)) l

  remove_each-spent_positions :
      (before l : List NostrWalletConnect)
      → remove_each (spent_positions s (length before) l) (before ++ l) ≡ some (before ++ unspent l)
  unfolding remove_each spent_positions
  remove_each-spent_positions before [] = refl
  remove_each-spent_positions before (n ∷ ns) =
      let later : remove_each (spent_positions s (suc (length before)) ns) (before ++ (n ∷ ns))
          ≡ some (before ++ (n ∷ unspent ns)) =
        cc (
          remove_each-spent_positions (before ++ (n ∷ [])) ns,
          length_snoc before n,
          append_snoc before n ns,
          append_snoc before n (unspent ns),
        ) in
      elim (Bool-cases (is_spent s n)) [
        | inl spent ↦ rw spent (rw later (remove_at-append before n (unspent ns)))
        | inr kept ↦ rw kept later
      ]

module _ {V : Type 0} ⦃c : Crypto⦄ ⦃j : Json V⦄ ⦃env : Env⦄ ⦃profiles : Serde V (List Profile)⦄
    ⦃b : Bolt11⦄ ⦃node : InvoiceHandler⦄ where
  remove_and_save-some :
      (positions : List ℕ) (s : Manager V) {rest : List NostrWalletConnect}
      → remove_each positions s.nwc ≡ some rest
      → remove_and_save positions s ≡ some ((do put_nwc rest; save_profiles) s)
  unfolding remove_and_save
  remove_and_save-some positions s e = rw (e, remove_and_save) refl

  -- With no change of the list during the look-ups, the clearing of used single use profiles does not
  -- panic: it takes out exactly the single use profiles whose payment has succeeded, keeps the others in
  -- their order, and saves what is left.
  pub clear_successful_single_use_profiles_lem :
      (s : Manager V)
      → clear_successful_single_use_profiles s
        ≡ some ((do put_nwc (unspent s s.nwc); save_profiles) s)
  unfolding clear_successful_single_use_profiles
  clear_successful_single_use_profiles_lem s =
      remove_and_save-some (spent_positions s 0 s.nwc) s (remove_each-spent_positions s [] s.nwc)

  -- If the positions were found when a profile that is not spent stood before a spent one, and the
  -- spent one is now the first of the list, with one that is not spent behind it, then the removal
  -- keeps the spent profile and takes out the one behind it.
  remove_and_save_stale :
      (s : Manager V) (gone spent next : NostrWalletConnect) (rest : List NostrWalletConnect)
      → s.nwc ≡ spent ∷ (next ∷ rest)
      → is_spent s gone ≡ false
      → is_spent s spent ≡ true
      → is_spent s next ≡ false
      → remove_and_save (spent_positions s 0 (gone ∷ (spent ∷ (next ∷ [])))) s
        ≡ some ((do put_nwc (spent ∷ rest); save_profiles) s)
  unfolding remove_and_save spent_positions remove_each remove_at is_spent save_profiles
  remove_and_save_stale s gone spent next rest l p q r = rw (p, q, r, l) refl
