-- ===== src/Storage/Password/Loops.antt =====
-- What the two loops of a change of password do: the values are read, and written back.
use mutiny_node.Prelude.{
  ◌≡◌, refl, ap, ◌∙◌, ◌⊎◌, true, List, [], ◌∷◌, Option, none, some, inl, inr, arith, ◌==◌, ==_iff,
  contains, is_some, Bool-cases,
}
use mutiny_node.Prelude.Text.{Text, text_eq}
use mutiny_node.Prelude.Map.{Map, get, insert, get-insert}
use mutiny_node.Exec.{Result, ok, Result-cases}
use mutiny_node.Encrypt.{Crypto}
use mutiny_node.Storage.Values.{Json}
use mutiny_node.Storage.{World, Env, set_data, get_data, scan_loop}
use mutiny_node.Storage.Data.{IsKeyed}
use mutiny_node.Storage.Written.{
  Agree, SameClock, set_data-Written, IsKeyed-SameClock, SameClock-trans,
}
use mutiny_node.Storage.Password.{value_serde, rewrite}

module _ {V : Type 0} ⦃c : Crypto⦄ ⦃j : Json V⦄ ⦃env : Env⦄ where
  -- What is read at a key, before the conversion to a type.
  abbrev pub read : Text → World V → Result (Option V)
  read key w = (get_data ⦃s = value_serde⦄ key w).0

  -- Every entry of a map is what the state reads.
  abbrev pub IsReadFrom : World V → Map Text V → Type 0
  IsReadFrom w [] = Unit
  IsReadFrom w ((k, v) ∷ m) = (read k w ≡ ok (some v)) × IsReadFrom w m

  insert-IsReadFrom :
      (w : World V) (m : Map Text V) (k : Text) (v : V)
      → IsReadFrom w m
      → read k w ≡ ok (some v)
      → IsReadFrom w (insert m k v)
  unfolding insert
  insert-IsReadFrom w [] k v h e = (e, tt)
  insert-IsReadFrom w ((i, x) ∷ m) k v h e = elim (Bool-cases (i == k)) [
    | inl q ↦ rw (insert, q) (e, h.1)
    | inr q ↦ rw (insert, q) (h.0, insert-IsReadFrom w m k v h.1 e)
  ]

  pub get-IsReadFrom :
      (w : World V) (m : Map Text V) (k : Text) {v : V}
      → IsReadFrom w m
      → get m k ≡ some v
      → read k w ≡ ok (some v)
  unfolding get
  get-IsReadFrom w [] k h e = cc
  get-IsReadFrom w ((i, x) ∷ m) k {v} h e = elim (Bool-cases (i == k)) [
    | inl q ↦ ground (arith, ==_iff i k, h.0)
    | inr q ↦ get-IsReadFrom w m k {v = v} h.1 (ground arith)
  ]

  -- The entries are what the state reads, and a key that was asked for has one if it is stored.
  pub record Scanned (keys : List Text) (m values : Map Text V) (w w' : World V) : Type 0 where
    pub same : w' ≡ w
    pub from : IsReadFrom w values
    kept : (k : Text) → is_some (get m k) ≡ true → is_some (get values k) ≡ true
    pub covers :
        (k : Text) → contains keys k ≡ true → (read k w ≡ ok none) ⊎ (is_some (get values k) ≡ true)

  pub scan_loop-Scanned :
      (keys : List Text) (m : Map Text V) (w : World V) {values : Map Text V} {w' : World V}
      → IsReadFrom w m
      → scan_loop ⦃s = value_serde⦄ keys m w ≡ (ok values, w')
      → Scanned keys m values w w'
  unfolding scan_loop get_data
  scan_loop-Scanned [] m w {values} {w'} h e =
      let same : values ≡ m = ground arith in
      record {
        same = ground arith;
        from = rw same h;
        kept = λ k q. rw same q;
        covers = λ k q. absurd (ground arith);
      }
  scan_loop-Scanned (key ∷ keys) m w {values} {w'} h e = elim (Result-cases (read key w)) [
    | inr (_, q) ↦ absurd (ground arith)
    | inl (none, q) ↦
        let rest = scan_loop-Scanned keys m w {values = values} {w' = w'} h (ground arith) in
        record {
          same = rest.same;
          from = rest.from;
          kept = rest.kept;
          covers = λ k p. elim (Bool-cases (key == k)) [
            | inl i ↦ inl (ground (arith, ==_iff key k))
            | inr i ↦ rest.covers k (ground arith)
          ];
        }
    | inl (some x, q) ↦
        let rest =
          scan_loop-Scanned keys (insert m key x) w {values = values} {w' = w'}
            (insert-IsReadFrom w m key x h q) (ground arith) in
        record {
          same = rest.same;
          from = rest.from;
          kept = λ k p. rest.kept k (ground (arith, get-insert m key x k));
          covers = λ k p. elim (Bool-cases (key == k)) [
            | inl i ↦ inr (rest.kept k (ground (arith, get-insert m key x k)))
            | inr i ↦ rest.covers k (ground arith)
          ];
        }
  ]

  -- What the loop that writes the values back leaves.
  pub record Rewritten (values : Map Text V) (w0 w1 w2 : World V) : Type 0 where
    pub clock : SameClock w1 w2
    pub others : (k : Text) → get values k ≡ none → Agree k w1 w2
    pub keeps :
        (k : Text) (v : V)
        → read k w0 ≡ ok (some v)
        → read k w1 ≡ ok (some v)
        → read k w2 ≡ ok (some v)
    pub sets : (k : Text) (v : V) → get values k ≡ some v → read k w2 ≡ ok (some v)

  -- What agrees on memory and password reads the same.
  pub read-Agree : (k : Text) {w w' : World V} → Agree k w w' → read k w' ≡ read k w
  unfolding get_data
  read-Agree k a = ground (arith, a.memory, a.password)

  Agree-trans : {k : Text} {u v w : World V} → Agree k u v → Agree k v w → Agree k u w
  Agree-trans a b = record { memory = b.memory ∙ a.memory; password = b.password ∙ a.password }

  pub rewrite-Rewritten :
      (values : Map Text V) (w0 w1 : World V) {w2 : World V}
      → IsKeyed w1.password w1.cipher
      → IsReadFrom w0 values
      → rewrite values w1 ≡ (ok tt, w2)
      → Rewritten values w0 w1 w2
  unfolding rewrite get
  rewrite-Rewritten [] w0 w1 {w2} k h e =
      let same : w2 ≡ w1 = ground arith in
      rw same (record {
        clock = record { password = refl; cipher = refl; now_ms = refl };
        others = λ i q. record { memory = refl; password = refl };
        keeps = λ i v p q. q;
        sets = λ i v q. cc;
      })
  rewrite-Rewritten ((key, x) ∷ values) w0 w1 {w2} k h e =
      let r = set_data ⦃s = value_serde⦄ key x none w1 in
      elim (Result-cases r.0) [
        | inr (_, q) ↦ absurd (ground arith)
        | inl (_, q) ↦
            let d = set_data-Written ⦃s = value_serde⦄ key x none w1 {w' = r.1} k (ground arith) in
            let rest =
              rewrite-Rewritten values w0 r.1 {w2 = w2} (IsKeyed-SameClock d.clock k) h.1
                (ground arith) in
            let at_key : read key r.1 ≡ ok (some x) = ap (λ p. p.0) d.read in
            let step : (i : Text) (v : V)
                → read i w0 ≡ ok (some v)
                → read i w1 ≡ ok (some v)
                → read i r.1 ≡ ok (some v) =
              λ i v p o. elim (Bool-cases (key == i)) [
                | inl s ↦ ground (arith, ==_iff key i, h.0)
                | inr s ↦
                    ground (
                      arith,
                      read-Agree i (d.others i (λ z. absurd (ground (arith, ==_iff key i)))),
                    )
              ] in
            record {
              clock = SameClock-trans d.clock rest.clock;
              others = λ i o. elim (Bool-cases (key == i)) [
                | inl s ↦ absurd (ground arith)
                | inr s ↦
                    Agree-trans (d.others i (λ z. absurd (ground (arith, ==_iff key i))))
                      (rest.others i (ground arith))
              ];
              keeps = λ i v p o. rest.keeps i v p (step i v p o);
              sets = λ i v o. elim (Bool-cases (key == i)) [
                | inl s ↦
                    let p : read i w0 ≡ ok (some v) = ground (arith, ==_iff key i, h.0) in
                    let m : read i r.1 ≡ ok (some v) = ground (arith, ==_iff key i) in
                    rest.keeps i v p m
                | inr s ↦ rest.sets i v (ground arith)
              ];
            }
      ]
