-- ===== src/Labels/Keys.antt =====
-- The storage keys of labels and contacts, and the way back from a key to its label, which is
-- `key.replace(PREFIX, "")`: every occurrence of the prefix is taken out, not only the first.
use mutiny_node.Prelude.{
  ℕ, zero, suc, ◌≡◌, ◌≤◌, refl, ap, [], ◌∷◌, ◌++◌, ◌∙◌, none, some, arith, length,
}
use mutiny_node.Prelude.Text.{Text, codes, strip_prefix, strip_prefix-append}

abbrev pub address_labels_map_key : Text
address_labels_map_key = codes "address_labels"

abbrev pub invoice_labels_map_key : Text
invoice_labels_map_key = codes "invoice_labels"

abbrev pub label_prefix : Text
label_prefix = codes "label/"

abbrev pub contact_prefix : Text
contact_prefix = codes "contact/"

abbrev pub get_label_item_key : Text → Text
get_label_item_key label = label_prefix ++ label

abbrev pub get_contact_key : Text → Text
get_contact_key label = contact_prefix ++ label

-- `str::replace(prefix, "")` for a prefix that is not empty. The fuel is the length of the text, which
-- every step shortens.
pub remove_all_loop : ℕ → Text → Text → Text
remove_all_loop zero prefix s = s
remove_all_loop (suc fuel) prefix [] = []
remove_all_loop (suc fuel) prefix (c ∷ s) = elim (strip_prefix prefix (c ∷ s)) [
  | some rest ↦ remove_all_loop fuel prefix rest
  | none ↦ c ∷ remove_all_loop fuel prefix s
]

unfoldable pub remove_all : Text → Text → Text
unfolding remove_all_loop
remove_all prefix s = remove_all_loop (length s) prefix s

-- The prefix does not occur in the text.
abbrev pub IsFree : Text → Text → Type 0
IsFree prefix [] = Unit
IsFree prefix (c ∷ s) = (strip_prefix prefix (c ∷ s) ≡ none) × IsFree prefix s

remove_all_loop_free :
    (fuel : ℕ) (prefix s : Text)
    → length s ≤ fuel
    → IsFree prefix s
    → remove_all_loop fuel prefix s ≡ s
unfolding remove_all_loop
remove_all_loop_free zero prefix [] h f = refl
remove_all_loop_free zero prefix (c ∷ s) h f = absurd (omega arith)
remove_all_loop_free (suc fuel) prefix [] h f = refl
remove_all_loop_free (suc fuel) prefix (c ∷ s) h f =
    ground (arith, remove_all_loop_free fuel prefix s)

-- A step over an occurrence of the prefix.
remove_all_loop-append :
    (fuel c : ℕ) (cs s : Text)
    → remove_all_loop (suc fuel) (c ∷ cs) ((c ∷ cs) ++ s) ≡ remove_all_loop fuel (c ∷ cs) s
unfolding remove_all_loop
remove_all_loop-append fuel c cs s = ground (arith, strip_prefix-append (c ∷ cs) s)

length-append-le : (s t : Text) → length t ≤ length (s ++ t)
length-append-le [] t = omega arith
length-append-le (c ∷ s) t = omega (arith, length-append-le s t)

length-append-suc : (s : Text) (c : ℕ) (t : Text) → length (s ++ (c ∷ t)) ≡ suc (length (s ++ t))
length-append-suc [] c t = refl
length-append-suc (d ∷ s) c t = ap suc (length-append-suc s c t)

-- The prefix that was put before a label is taken off again, and nothing else, if it does not occur in
-- the label.
remove_all-append :
    (c : ℕ) (cs label : Text)
    → IsFree (c ∷ cs) label
    → remove_all (c ∷ cs) ((c ∷ cs) ++ label) ≡ label
unfolding remove_all
remove_all-append c cs label f =
    remove_all_loop-append (length (cs ++ label)) c cs label
    ∙ remove_all_loop_free (length (cs ++ label)) (c ∷ cs) label (length-append-le cs label) f

-- Two labels, one of which is the other after a further prefix, come back as one.
pub remove_all-append_twice :
    (c : ℕ) (cs label : Text)
    → IsFree (c ∷ cs) label
    → remove_all (c ∷ cs) ((c ∷ cs) ++ ((c ∷ cs) ++ label)) ≡ label
unfolding remove_all
remove_all-append_twice c cs label f =
    let whole = (c ∷ cs) ++ label in
    let step = length-append-suc cs c (cs ++ label) in
    remove_all_loop-append (length (cs ++ whole)) c cs whole
    ∙ ap (λ n. remove_all_loop n (c ∷ cs) whole) step
    ∙ remove_all_loop-append (length (cs ++ (cs ++ label))) c cs label
    ∙ remove_all_loop_free _ (c ∷ cs) label
        (omega (arith, length-append-le cs label, length-append-le cs (cs ++ label))) f
