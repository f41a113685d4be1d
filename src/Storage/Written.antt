-- ===== src/Storage/Written.antt =====
-- What a write leaves of the storage, for values of every type.
use mutiny_node.Prelude.{
  ℕ, ◌≡◌, ◌≢◌, refl, inl, inr, List, [], ◌∷◌, Option, none, some, arith, ==_iff, ==_self,
}
use mutiny_node.Prelude.Text.{Text, text_eq}
use mutiny_node.Prelude.Map.{Map, get, insert, get-insert, get-remove}
use mutiny_node.Exec.{ok, Result-cases}
use mutiny_node.Encrypt.{Crypto}
use mutiny_node.Storage.Values.{Json, Serde}
use mutiny_node.Storage.{
  World, Env, set_data, get_data, store_value, delete, scan, scan_loop, scan_keys,
}
use mutiny_node.Storage.Data.{IsKeyed, set_data-eq-ok, get_data-set_data}

-- Two states that read the same at a key, under the same password and at the same time.
pub record Agree {V : Type 0} (k : Text) (w w' : World V) : Type 0 where
  pub memory : get w'.memory k ≡ get w.memory k
  pub password : w'.password ≡ w.password

pub record SameClock {V : Type 0} (w w' : World V) : Type 0 where
  pub password : w'.password ≡ w.password
  pub cipher : w'.cipher ≡ w.cipher
  pub now_ms : w'.now_ms ≡ w.now_ms

-- The removal of one key.
pub delete-Agree :
    {V : Type 0} (key k : Text) (w : World V) → k ≢ key → Agree k w (delete (key ∷ []) w).1
unfolding delete
delete-Agree key k w n = ground (arith, get-remove w.memory key k, ==_iff key k)

module _ {V : Type 0} ⦃c : Crypto⦄ ⦃j : Json V⦄ where
  -- What two states that agree at a key read there, at any type.
  pub get_data-Agree :
      ⦃env : Env⦄ {A : Type 0} ⦃s : Serde V A⦄ (k : Text) {w w' : World V} {r : Option A}
      → Agree k w w'
      → get_data {A = A} k w ≡ (ok r, w)
      → get_data {A = A} k w' ≡ (ok r, w')
  unfolding get_data
  get_data-Agree k a h = ground (arith, a.memory, a.password)

  pub IsKeyed-SameClock :
      {w w' : World V}
      → SameClock w w'
      → IsKeyed w.password w.cipher
      → IsKeyed w'.password w'.cipher
  IsKeyed-SameClock s k = rw (s.password, s.cipher) k

  pub SameClock-trans : {u v w : World V} → SameClock u v → SameClock v w → SameClock u w
  SameClock-trans a b =
      ground (arith, a.password, a.cipher, a.now_ms, b.password, b.cipher, b.now_ms)

module _ {V : Type 0} ⦃c : Crypto⦄ ⦃j : Json V⦄ ⦃env : Env⦄ {A : Type 0} ⦃s : Serde V A⦄ where
  pub record Written (key : Text) (a : A) (w w' : World V) : Type 0 where
    pub read : get_data {A = A} key w' ≡ (ok (some a), w')
    pub others : (k : Text) → k ≢ key → Agree k w w'
    pub clock : SameClock w w'

  set_data-SameClock :
      (key : Text) (a : A) (version : Option ℕ) (w : World V)
      → SameClock w (set_data key a version w).1
  unfolding set_data store_value
  set_data-SameClock key a none w = ground arith
  set_data-SameClock key a (some n) w = ground arith

  pub set_data-Written :
      (key : Text) (a : A) (version : Option ℕ) (w : World V) {w' : World V}
      → IsKeyed w.password w.cipher
      → set_data key a version w ≡ (ok tt, w')
      → Written key a w w'
  unfolding get_data
  set_data-Written key a version w {w'} k e =
      let (v, n, x, _, _, m, p) = set_data-eq-ok key a version w {w' = w'} e in
      record {
        read = ground (arith, get_data-set_data key a version w {w' = w'} k e key, ==_self key);
        others = λ i h. record {
          memory = ground (arith, get-insert w.memory key x i, ==_iff key i);
          password = p;
        };
        clock = ground (arith, set_data-SameClock key a version w);
      }

  -- Reads leave the state as it is.
  pub scan_loop-state :
      (keys : List Text) (m : Map Text A) (w : World V) → (scan_loop {A = A} keys m w).1 ≡ w
  unfolding scan_loop get_data
  scan_loop-state [] m w = refl
  scan_loop-state (key ∷ keys) m w = elim (Result-cases (get_data {A = A} key w).0) [
    | inr (_, q) ↦ ground arith
    | inl (none, q) ↦ ground (arith, scan_loop-state keys m w)
    | inl (some x, q) ↦ ground (arith, scan_loop-state keys (insert m key x) w)
  ]

pub scan-state :
    {V : Type 0} ⦃c : Crypto⦄ ⦃j : Json V⦄ ⦃env : Env⦄ (A : Type 0) ⦃s : Serde V A⦄ (prefix : Text)
    (w : World V)
    → (scan {A = A} prefix w).1 ≡ w
unfolding scan
scan-state A prefix w = scan_loop-state (scan_keys prefix w) [] w
