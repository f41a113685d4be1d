-- ===== src/Storage/Password/Kept.antt =====
-- A change of password keeps what can be read, and the password and the cipher belong together after it.
use mutiny_node.Prelude.{
  ◌≡◌, ◌≢◌, refl, sym, ap, ◌∙◌, Bool, true, false, [], ◌∷◌, Option, none, some, inl, inr, arith,
  ◌==◌, ==_iff, retain, contains, Bool-cases, Option-cases,
}
use mutiny_node.Prelude.Text.{Text, text_eq}
use mutiny_node.Prelude.Map.{Map, get}
use mutiny_node.Exec.{Result, ok, and_then, Result-cases}
use mutiny_node.Encrypt.{Crypto, Cipher, encryption_key_from_pass}
use mutiny_node.Storage.Values.{Json, Serde, needs_encryption, decrypt_value, from_data}
use mutiny_node.Storage.{
  World, Env, get_data, read_value, keys_with, scan_keys, scan_loop, change_password,
}
use mutiny_node.Storage.Data.{IsKeyed, plain, keyed}
use mutiny_node.Storage.Written.{IsKeyed-SameClock, scan_loop-state}
use mutiny_node.Storage.Password.{
  value_serde, same_password, cipher_for, rewrite_storage, change_password_and_rewrite_storage,
}
use mutiny_node.Storage.Password.Loops.{
  read, get-IsReadFrom, Scanned, scan_loop-Scanned, Rewritten, rewrite-Rewritten,
}

-- A stored key that passes a test is among the keys scanned and kept by it.
contains-scanned :
    {V : Type 0} (p : Text → Bool) (m : Map Text V) (k : Text) {x : V}
    → p k ≡ true
    → get m k ≡ some x
    → contains (retain p (keys_with [] m)) k ≡ true
unfolding get
contains-scanned p [] k t e = cc
contains-scanned p ((i, v) ∷ m) k {x} t e = elim (Bool-cases (i == k)) [
  | inl q ↦ let same : p i ≡ true = rw (ap p ((==_iff i k).0 q)) t in ground arith
  | inr q ↦ ground (arith, contains-scanned p m k {x = x} t (ground arith))
]

module _ {V : Type 0} ⦃c : Crypto⦄ ⦃j : Json V⦄ ⦃env : Env⦄ where
  cipher_for-IsKeyed :
      (new : Option Text) (w : World V) {cipher : Option Cipher} {w1 : World V}
      → new ≢ some []
      → cipher_for new w ≡ (ok cipher, w1)
      → IsKeyed new cipher × (w1.memory ≡ w.memory)
  unfolding cipher_for
  cipher_for-IsKeyed none w {cipher} n e =
      let same : cipher ≡ none = ground arith in (rw same plain, ground arith)
  cipher_for-IsKeyed (some []) w n e = absurd (n refl)
  cipher_for-IsKeyed (some (x ∷ pw)) w {cipher} n e =
      elim (Result-cases (encryption_key_from_pass (env.random_salt w.draws) (x ∷ pw))) [
        | inr (_, q) ↦ absurd (ground arith)
        | inl (built, q) ↦
            let same : cipher ≡ some built = ground arith in
            (
              rw same (
                  keyed (x ∷ pw) built (env.random_salt w.draws) (env.length-random_salt w.draws)
                    q),
              ground arith,
            )
      ]

  decrypt_value_clear :
      (k : Text) (v : V) (pw : Option Text)
      → needs_encryption k ≡ false
      → decrypt_value k v pw ≡ ok v
  unfolding decrypt_value
  decrypt_value_clear k v none n = refl
  decrypt_value_clear k v (some pw) n = ground arith

  -- Nothing is read where nothing is stored.
  read_none : (k : Text) (w : World V) → get w.memory k ≡ none → read k w ≡ ok none
  unfolding get_data read_value
  read_none k w e = ground arith

  -- What is stored is read, or the read fails.
  read_some : (k : Text) (w : World V) {x : V} → get w.memory k ≡ some x → read k w ≢ ok none
  unfolding get_data read_value
  read_some k w {x} e h = elim (Result-cases (decrypt_value k x w.password)) [
    | inl (_, q) ↦ absurd (ground arith)
    | inr (_, q) ↦ absurd (ground arith)
  ]

  -- A key that needs no encryption reads the same under every password.
  read_clear :
      (k : Text) (w w' : World V)
      → needs_encryption k ≡ false
      → get w'.memory k ≡ get w.memory k
      → read k w' ≡ read k w
  unfolding get_data read_value
  read_clear k w w' n m = elim (Option-cases (get w.memory k)) [
    | inl e ↦ ground (arith, read_none k w, read_none k w')
    | inr (x, e) ↦
        ground (arith, decrypt_value_clear k x w.password n, decrypt_value_clear k x w'.password n)
  ]

  pub record Rewrote (new : Option Text) (w w' : World V) : Type 0 where
    pub password : w'.password ≡ new
    pub sealed : IsKeyed w'.password w'.cipher
    pub reads : (k : Text) → read k w' ≡ read k w

  -- The key by key account: it was written back, or needs no encryption, or is not there.
  reads_same :
      {keys_values : Map Text V} {w w1 w2 : World V} (k : Text)
      → Scanned (retain needs_encryption (scan_keys [] w)) [] keys_values w w
      → Rewritten keys_values w w1 w2
      → w1.memory ≡ w.memory
      → read k w2 ≡ read k w
  reads_same {keys_values} {w} {w1} {w2} k s r m = elim (Option-cases (get keys_values k)) [
    | inr (v, e) ↦ r.sets k v e ∙ sym (get-IsReadFrom w keys_values k {v = v} s.from e)
    | inl e ↦
        let stays : get w2.memory k ≡ get w.memory k = ground (arith, (r.others k e).memory) in
        elim (Bool-cases (needs_encryption k)) [
          | inr n ↦ read_clear k w w2 n stays
          | inl n ↦ elim (Option-cases (get w.memory k)) [
            | inl o ↦ ground (arith, read_none k w, read_none k w2)
            | inr (x, o) ↦
                elim (s.covers k (contains-scanned needs_encryption w.memory k {x = x} n o)) [
                  | inl nothing ↦ absurd (read_some k w {x = x} o nothing)
                  | inr entry ↦ absurd (ground arith)
                ]
          ]
        ]
  ]

  rewrite_storage-Rewrote :
      (new : Option Text) (w : World V) {w' : World V}
      → new ≢ some []
      → rewrite_storage new w ≡ (ok tt, w')
      → Rewrote new w w'
  unfolding rewrite_storage change_password
  rewrite_storage-Rewrote new w {w'} n e =
      let keys = retain needs_encryption (scan_keys [] w) in
      let state = scan_loop-state ⦃s = value_serde⦄ keys [] w in
      elim (Result-cases (scan_loop ⦃s = value_serde⦄ keys [] w).0) [
        | inr (_, q) ↦ absurd (ground arith)
        | inl (values, q) ↦
            let s = scan_loop-Scanned keys [] w {values = values} {w' = w} tt (ground arith) in
            let r1 = cipher_for new w in
            elim (Result-cases r1.0) [
              | inr (_, q1) ↦ absurd (ground arith)
              | inl (cipher, q1) ↦
                  let (sealed, m) =
                    cipher_for-IsKeyed new w {cipher = cipher} {w1 = r1.1} n (ground arith) in
                  let w1 = change_password new cipher r1.1 in
                  let r = rewrite-Rewritten values w w1 {w2 = w'} sealed s.from (ground arith) in
                  record {
                    password = r.clock.password;
                    sealed = IsKeyed-SameClock r.clock sealed;
                    reads = λ k. reads_same k s r m;
                  }
            ]
      ]

  module _ {A : Type 0} ⦃serde : Serde V A⦄ where
    abbrev convert : Result (Option V) → Result (Option A)
    convert r =
        and_then r (λ o. elim o [
          | none ↦ ok none
          | some json ↦ and_then (from_data json) (λ a. ok (some a))
        ])

    read_value-convert :
        (key : Text) (pw : Option Text) (o : Option V)
        → read_value {A = A} key pw o ≡ convert (read_value ⦃s = value_serde⦄ key pw o)
    unfolding read_value
    read_value-convert key pw none = refl
    read_value-convert key pw (some v) = elim (Result-cases (decrypt_value key v pw)) [
      | inl (_, q) ↦ ground arith
      | inr (_, q) ↦ ground arith
    ]

    -- A read at a type is the read of the value, and then its conversion.
    get_data-read :
        (key : Text) (w w' : World V)
        → read key w' ≡ read key w
        → (get_data {A = A} key w').0 ≡ (get_data {A = A} key w).0
    unfolding get_data
    get_data-read key w w' e =
        read_value-convert key w'.password (get w'.memory key)
        ∙ ap convert e
        ∙ sym (read_value-convert key w.password (get w.memory key))

    -- If the new password is not empty, then after a change of password that succeeds the password is
    -- the new one, the cipher is that of the password, and every key reads what it did before.
    pub change_password_and_rewrite_storage_lem :
        (old new : Option Text) (w : World V) {w' : World V} (key : Text)
        → new ≢ some []
        → change_password_and_rewrite_storage old new w ≡ (ok tt, w')
        → (w'.password ≡ new)
          × IsKeyed w'.password w'.cipher
          × ((get_data {A = A} key w').0 ≡ (get_data {A = A} key w).0)
    unfolding change_password_and_rewrite_storage
    change_password_and_rewrite_storage_lem old new w {w'} key n e =
        elim (Bool-cases (same_password old w.password)) [
          | inr q ↦ absurd (ground arith)
          | inl q ↦
              let r = rewrite_storage-Rewrote new w {w' = w'} n (ground arith) in
              (r.password, r.sealed, get_data-read key w w' (r.reads key))
        ]
