-- ===== src/Activity/Index.antt =====
-- The activity index, a `BTreeSet<IndexItem>`, as the list of its items in their order.
use Prim.Native.Nat.{Ordering}
use mutiny_node.Prelude.{
  ℕ, ◌≡◌, ◌∙◌, refl, sym, Bool, true, false, not, ◌||◌, ◌&&◌, List, [], ◌∷◌, Option, none, some,
  inl, inr, arith, Eq, ◌==◌, ==_iff, All, contains, nat_beq, Bool-cases, ◌⊎◌, ◌↔◌,
}
use mutiny_node.Prelude.Text.{text_eq}
use mutiny_node.Storage.Values.{IndexItem}
use mutiny_node.Activity.Order.{index_cmp, index_cmp-eq, index_cmp-reversed, index_cmp_trans}

-- `BTreeSet::insert`: an item that is there already stays.
unfoldable pub insert : List IndexItem → IndexItem → List IndexItem
insert [] x = x ∷ []
insert (y ∷ ys) x =
    let rest = insert ys x in
    elim (index_cmp x y) [
      | Ordering.lt ↦ x ∷ (y ∷ ys)
      | Ordering.eq ↦ y ∷ ys
      | Ordering.gt ↦ y ∷ rest
    ]

-- `BTreeSet::remove`
unfoldable pub remove : List IndexItem → IndexItem → List IndexItem
remove [] x = []
remove (y ∷ ys) x =
    let rest = remove ys x in
    elim (index_cmp x y) [ Ordering.lt ↦ y ∷ ys | Ordering.eq ↦ ys | Ordering.gt ↦ y ∷ rest ]

-- `BTreeSet::extend`
unfoldable pub extend : List IndexItem → List IndexItem → List IndexItem
extend index [] = index
extend index (x ∷ xs) = extend (insert index x) xs

-- `#[derive(PartialEq)]`
abbrev pub time_beq : Option ℕ → Option ℕ → Bool
time_beq none none = true
time_beq (some a) (some b) = nat_beq a b
time_beq _ _ = false

time_beq_iff : (a b : Option ℕ) → (time_beq a b ≡ true) ↔ (a ≡ b)
time_beq_iff none none = ground arith
time_beq_iff none (some b) = ground arith
time_beq_iff (some a) none = ground arith
time_beq_iff (some a) (some b) = ground arith

abbrev pub item_beq : IndexItem → IndexItem → Bool
item_beq a b = time_beq a.timestamp b.timestamp && a.key == b.key

pub item_beq_iff : (a b : IndexItem) → (item_beq a b ≡ true) ↔ (a ≡ b)
item_beq_iff a b = grind (arith, time_beq_iff a.timestamp b.timestamp, ==_iff a.key b.key)

instance abbrev pub item_eq : Eq IndexItem
item_eq = record { beq = item_beq; beq_iff = item_beq_iff }

-- Strictly increasing.
abbrev pub IsSorted : List IndexItem → Type 0
IsSorted [] = Unit
IsSorted (x ∷ xs) = All (λ y. index_cmp x y ≡ Ordering.lt) xs × IsSorted xs

-- How two items compare, with what it says of them.
pub compared :
    (x y : IndexItem)
    → (index_cmp x y ≡ Ordering.lt)
      ⊎ ((x ≡ y) × (index_cmp x y ≡ Ordering.eq))
      ⊎ ((index_cmp x y ≡ Ordering.gt) × (index_cmp y x ≡ Ordering.lt))
compared x y = go (index_cmp x y) refl
  where
    go :
        (o : Ordering)
        → index_cmp x y ≡ o
        → (index_cmp x y ≡ Ordering.lt)
          ⊎ ((x ≡ y) × (index_cmp x y ≡ Ordering.eq))
          ⊎ ((index_cmp x y ≡ Ordering.gt) × (index_cmp y x ≡ Ordering.lt))
    go Ordering.lt e = inl e
    go Ordering.eq e = inr (inl ((index_cmp-eq x y).0 e, e))
    go Ordering.gt e = inr (inr (e, ground (arith, index_cmp-reversed x y)))

pub contains-insert :
    (xs : List IndexItem) (x y : IndexItem) → contains (insert xs x) y ≡ (x == y || contains xs y)
unfolding insert
contains-insert [] x y = refl
contains-insert (z ∷ zs) x y = elim (compared x z) [
  | inl e ↦ ground arith
  | inr (inl (q, e)) ↦ ground (arith, ==_iff x y, ==_iff z y)
  | inr (inr (e, _)) ↦ ground (arith, contains-insert zs x y)
]

insert-All {κ} :
    (P : IndexItem → Type κ) (xs : List IndexItem) (x : IndexItem)
    → P x
    → All P xs
    → All P (insert xs x)
unfolding insert
insert-All P [] x p h = (p, tt)
insert-All P (z ∷ zs) x p h = elim (compared x z) [
  | inl e ↦ rw (insert, e) (p, h)
  | inr (inl (_, e)) ↦ rw (insert, e) h
  | inr (inr (e, _)) ↦ rw (insert, e) (h.0, insert-All P zs x p h.1)
]

remove-All {κ} :
    (P : IndexItem → Type κ) (xs : List IndexItem) (x : IndexItem) → All P xs → All P (remove xs x)
unfolding remove
remove-All P [] x h = tt
remove-All P (z ∷ zs) x h = elim (compared x z) [
  | inl e ↦ rw (remove, e) h
  | inr (inl (_, e)) ↦ rw (remove, e) h.1
  | inr (inr (e, _)) ↦ rw (remove, e) (h.0, remove-All P zs x h.1)
]

All-trans :
    (x y : IndexItem) (zs : List IndexItem)
    → index_cmp x y ≡ Ordering.lt
    → All (λ z. index_cmp y z ≡ Ordering.lt) zs
    → All (λ z. index_cmp x z ≡ Ordering.lt) zs
All-trans x y [] h a = tt
All-trans x y (z ∷ zs) h a = (index_cmp_trans x y z h a.0, All-trans x y zs h a.1)

pub insert-IsSorted : (xs : List IndexItem) (x : IndexItem) → IsSorted xs → IsSorted (insert xs x)
unfolding insert
insert-IsSorted [] x h = (tt, tt)
insert-IsSorted (z ∷ zs) x h = elim (compared x z) [
  | inl e ↦ rw (insert, e) ((e, All-trans x z zs e h.0), h)
  | inr (inl (_, e)) ↦ rw (insert, e) h
  | inr (inr (e, back)) ↦
      rw (insert, e)
        (insert-All (λ y. index_cmp z y ≡ Ordering.lt) zs x back h.0, insert-IsSorted zs x h.1)
]

pub remove-IsSorted : (xs : List IndexItem) (x : IndexItem) → IsSorted xs → IsSorted (remove xs x)
unfolding remove
remove-IsSorted [] x h = tt
remove-IsSorted (z ∷ zs) x h = elim (compared x z) [
  | inl e ↦ rw (remove, e) h
  | inr (inl (_, e)) ↦ rw (remove, e) h.1
  | inr (inr (e, _)) ↦
      rw (remove, e)
        (remove-All (λ y. index_cmp z y ≡ Ordering.lt) zs x h.0, remove-IsSorted zs x h.1)
]

-- What is below every item of a list is not in it.
below-contains :
    (x : IndexItem) (zs : List IndexItem)
    → All (λ z. index_cmp x z ≡ Ordering.lt) zs
    → contains zs x ≡ false
below-contains x [] h = refl
below-contains x (z ∷ zs) h = elim (Bool-cases (z == x)) [
  | inl e ↦ let same : z ≡ x = (==_iff z x).0 e in absurd (ground (arith, h.0, index_cmp-eq x z))
  | inr e ↦ ground (arith, below-contains x zs h.1)
]

pub contains-remove :
    (xs : List IndexItem) (x y : IndexItem)
    → IsSorted xs
    → contains (remove xs x) y ≡ (not (x == y) && contains xs y)
unfolding remove
contains-remove [] x y h = ground arith
contains-remove (z ∷ zs) x y h = elim (compared x z) [
  | inl e ↦ elim (Bool-cases (x == y)) [
    | inl q ↦
        let same : x ≡ y = (==_iff x y).0 q in
        rw (remove, e, q) (rw (← same) (below-contains x (z ∷ zs) (e, All-trans x z zs e h.0)))
    | inr q ↦ ground arith
  ]
  | inr (inl (p, e)) ↦ elim (Bool-cases (x == y)) [
    | inl q ↦
        let same : z ≡ y = sym p ∙ (==_iff x y).0 q in
        rw (remove, e, q) (rw (← same) (below-contains z zs h.0))
    | inr q ↦ ground (arith, ==_iff x y, ==_iff z y)
  ]
  | inr (inr (e, back)) ↦ elim (Bool-cases (x == y)) [
    | inl q ↦
        let same : x ≡ y = (==_iff x y).0 q in
        ground (arith, contains-remove zs x y h.1, ==_iff z y, index_cmp-eq x z)
    | inr q ↦ ground (arith, contains-remove zs x y h.1)
  ]
]

pub extend-IsSorted : (xs ys : List IndexItem) → IsSorted xs → IsSorted (extend xs ys)
unfolding extend
extend-IsSorted xs [] h = h
extend-IsSorted xs (y ∷ ys) h = extend-IsSorted (insert xs y) ys (insert-IsSorted xs y h)

pub contains-extend :
    (xs ys : List IndexItem) (y : IndexItem)
    → contains (extend xs ys) y ≡ (contains xs y || contains ys y)
unfolding extend
contains-extend xs [] y = ground arith
contains-extend xs (x ∷ ys) y =
    ground (arith, contains-extend (insert xs x) ys y, contains-insert xs x y)
