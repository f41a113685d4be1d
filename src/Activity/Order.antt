-- ===== src/Activity/Order.antt =====
-- mutiny-core/src/storage.rs: the order of the activity index, `Ord for IndexItem`. Pending items come
-- first, then the others from the newest to the oldest.
use Prim.Native.Nat.{compare, Ordering}
use mutiny_node.Prelude.{ℕ, ◌≡◌, refl, ◌↔◌, Option, none, some, [], ◌∷◌, arith}
use mutiny_node.Prelude.Text.{Text}
use mutiny_node.Storage.Values.{IndexItem}

-- `Ordering::then_with`
abbrev pub then_with : Ordering → Ordering → Ordering
then_with Ordering.lt o = Ordering.lt
then_with Ordering.eq o = o
then_with Ordering.gt o = Ordering.gt

-- `Ord for String`: code points compare as their UTF-8 bytes do.
abbrev pub text_cmp : Text → Text → Ordering
text_cmp [] [] = Ordering.eq
text_cmp [] (b ∷ bs) = Ordering.lt
text_cmp (a ∷ as') [] = Ordering.gt
text_cmp (a ∷ as') (b ∷ bs) = then_with (compare a b) (text_cmp as' bs)

abbrev pub entry_cmp : Option ℕ → Text → Option ℕ → Text → Ordering
entry_cmp (some a) k (some b) l = then_with (compare b a) (text_cmp k l)
entry_cmp (some _) k none l = Ordering.gt
entry_cmp none k (some _) l = Ordering.lt
entry_cmp none k none l = text_cmp k l

-- `Ord for IndexItem`
unfoldable pub index_cmp : IndexItem → IndexItem → Ordering
index_cmp a b = entry_cmp a.timestamp a.key b.timestamp b.key

abbrev pub reversed : Ordering → Ordering
reversed Ordering.lt = Ordering.gt
reversed Ordering.eq = Ordering.eq
reversed Ordering.gt = Ordering.lt

text_cmp-eq : (s t : Text) → text_cmp s t ≡ Ordering.eq → s ≡ t
text_cmp-eq [] [] h = refl
text_cmp-eq [] (b ∷ bs) h = absurd (ground arith)
text_cmp-eq (a ∷ as') [] h = absurd (ground arith)
text_cmp-eq (a ∷ as') (b ∷ bs) h = ground (arith, text_cmp-eq as' bs)

text_cmp_self : (s : Text) → text_cmp s s ≡ Ordering.eq
text_cmp_self [] = refl
text_cmp_self (a ∷ s) = ground (arith, text_cmp_self s)

pub text_cmp-reversed : (s t : Text) → text_cmp t s ≡ reversed (text_cmp s t)
text_cmp-reversed [] [] = refl
text_cmp-reversed [] (b ∷ bs) = refl
text_cmp-reversed (a ∷ as') [] = refl
text_cmp-reversed (a ∷ as') (b ∷ bs) = ground (arith, text_cmp-reversed as' bs)

text_cmp_trans :
    (s t u : Text)
    → text_cmp s t ≡ Ordering.lt
    → text_cmp t u ≡ Ordering.lt
    → text_cmp s u ≡ Ordering.lt
text_cmp_trans [] [] u g h = absurd (ground arith)
text_cmp_trans [] (b ∷ bs) [] g h = absurd (ground arith)
text_cmp_trans [] (b ∷ bs) (c ∷ cs) g h = refl
text_cmp_trans (a ∷ as') [] u g h = absurd (ground arith)
text_cmp_trans (a ∷ as') (b ∷ bs) [] g h = absurd (ground arith)
text_cmp_trans (a ∷ as') (b ∷ bs) (c ∷ cs) g h = ground (arith, text_cmp_trans as' bs cs)

entry_cmp-eq : (t u : Option ℕ) (k l : Text) → entry_cmp t k u l ≡ Ordering.eq → (t ≡ u) × (k ≡ l)
entry_cmp-eq (some a) (some b) k l h = ground (arith, text_cmp-eq k l)
entry_cmp-eq (some a) none k l h = absurd (ground arith)
entry_cmp-eq none (some b) k l h = absurd (ground arith)
entry_cmp-eq none none k l h = (refl, text_cmp-eq k l h)

entry_cmp_self : (t : Option ℕ) (k : Text) → entry_cmp t k t k ≡ Ordering.eq
entry_cmp_self (some a) k = ground (arith, text_cmp_self k)
entry_cmp_self none k = text_cmp_self k

entry_cmp-reversed :
    (t u : Option ℕ) (k l : Text) → entry_cmp u l t k ≡ reversed (entry_cmp t k u l)
entry_cmp-reversed (some a) (some b) k l = ground (arith, text_cmp-reversed k l)
entry_cmp-reversed (some a) none k l = refl
entry_cmp-reversed none (some b) k l = refl
entry_cmp-reversed none none k l = text_cmp-reversed k l

entry_cmp_trans :
    (t u v : Option ℕ) (k l m : Text)
    → entry_cmp t k u l ≡ Ordering.lt
    → entry_cmp u l v m ≡ Ordering.lt
    → entry_cmp t k v m ≡ Ordering.lt
entry_cmp_trans (some a) (some b) (some d) k l m g h = ground (arith, text_cmp_trans k l m)
entry_cmp_trans (some a) none v k l m g h = absurd (ground arith)
entry_cmp_trans (some a) (some b) none k l m g h = absurd (ground arith)
entry_cmp_trans none (some b) (some d) k l m g h = refl
entry_cmp_trans none (some b) none k l m g h = absurd (ground arith)
entry_cmp_trans none none (some d) k l m g h = refl
entry_cmp_trans none none none k l m g h = text_cmp_trans k l m g h

-- Two items compare equal exactly if they are the same.
pub index_cmp-eq : (a b : IndexItem) → (index_cmp a b ≡ Ordering.eq) ↔ (a ≡ b)
unfolding index_cmp
index_cmp-eq a b = (
  (λ h. let (t, k) = entry_cmp-eq a.timestamp b.timestamp a.key b.key h in cc),
  (λ e. rw (← e, index_cmp) (entry_cmp_self a.timestamp a.key)),
)

pub index_cmp-reversed : (a b : IndexItem) → index_cmp b a ≡ reversed (index_cmp a b)
unfolding index_cmp
index_cmp-reversed a b = entry_cmp-reversed a.timestamp b.timestamp a.key b.key

pub index_cmp_trans :
    (a b c : IndexItem)
    → index_cmp a b ≡ Ordering.lt
    → index_cmp b c ≡ Ordering.lt
    → index_cmp a c ≡ Ordering.lt
unfolding index_cmp
index_cmp_trans a b c g h =
    entry_cmp_trans a.timestamp b.timestamp c.timestamp a.key b.key c.key g h
