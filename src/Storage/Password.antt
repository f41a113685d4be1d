-- ===== src/Storage/Password.antt =====
-- mutiny-core/src/storage.rs: `change_password_and_rewrite_storage`. A `HashMap` of values is filled and
-- then written back in its order of iteration, which is that of the list here.
pub mod Loops
pub mod Kept
use mutiny_node.Prelude.{
  ◌≡◌, refl, sym, ap, Bool, true, false, not, List, [], ◌∷◌, Option, none, some, ◌⊎◌, inr, ◌==◌,
  if◌then◌else◌, retain, subst,
}
use mutiny_node.Prelude.Text.{Text, text_eq}
use mutiny_node.Prelude.Map.{Map}
use mutiny_node.Error.{MutinyError, incorrect_password}
use mutiny_node.Exec.{Result, ok, err, and_then, Exec, pure, raise, ◌>>=◌, ◌>>◌}
use mutiny_node.Encrypt.{Crypto, Cipher, encryption_key_from_pass}
use mutiny_node.Storage.Values.{Json, Serde, needs_encryption}
use mutiny_node.Storage.{World, Env, draw, set_data, scan_keys, scan_loop, change_password}

pub from_value_back : {V : Type 0} (a v : V) → ◌≡◌ {A = Text ⊎ V} (inr a) (inr v) → some v ≡ some a
from_value_back a v h = cc

-- `serde_json::to_value` and `from_value` at the type `Value` itself: nothing is converted.
abbrev pub value_serde : {V : Type 0} → Serde V V
value_serde = record { to_value = inr; from_value = some; from_value-to_value = from_value_back }

-- `old == self.password()`
abbrev pub same_password : Option Text → Option Text → Bool
same_password none none = true
same_password (some a) (some b) = a == b
same_password _ _ = false

module _ {V : Type 0} ⦃c : Crypto⦄ ⦃j : Json V⦄ ⦃env : Env⦄ where
  -- The cipher of the new password, with a random salt; none for an empty one.
  unfoldable pub cipher_for : Option Text → Exec (World V) (Option Cipher)
  cipher_for none w = (ok none, w)
  cipher_for (some []) w = (ok none, w)
  cipher_for (some (x ∷ pw)) w = (
    and_then (encryption_key_from_pass (env.random_salt w.draws) (x ∷ pw))
        (λ cipher. ok (some cipher)),
    draw w,
  )

  -- "encrypt all of the values"
  unfoldable pub rewrite : Map Text V → Exec (World V) Unit
  rewrite [] = pure tt
  rewrite ((key, value) ∷ values) = do set_data ⦃s = value_serde⦄ key value none; rewrite values

  -- What follows the check of the old password.
  unfoldable pub rewrite_storage : Option Text → Exec (World V) Unit
  rewrite_storage new w =
      (do
        values ← scan_loop ⦃s = value_serde⦄ (retain needs_encryption (scan_keys [] w)) []
        new_cipher ← cipher_for new
        (λ v. (ok tt, change_password new new_cipher v))
        rewrite values)
        w

  unfoldable pub change_password_and_rewrite_storage :
      Option Text → Option Text → Exec (World V) Unit
  change_password_and_rewrite_storage old new w =
      if same_password old w.password then rewrite_storage new w else (err incorrect_password, w)

-- `MutinyWallet::change_password` of lib.rs: the wallet is stopped and the storage started around it;
-- empty passwords count as none.
module _ {V : Type 0} ⦃c : Crypto⦄ ⦃j : Json V⦄ ⦃env : Env⦄
    (stop start : Exec (World V) (Unit {0})) where
  abbrev pub not_empty : Option Text → Option Text
  not_empty none = none
  not_empty (some []) = none
  not_empty (some (x ∷ pw)) = some (x ∷ pw)

  unfoldable pub wallet_change_password : Option Text → Option Text → Exec (World V) Unit
  wallet_change_password old new w =
      if not (same_password old w.password)
      then (err incorrect_password, w)
      else if same_password old new
      then (err MutinyError.same_password, w)
      else (do stop; start; change_password_and_rewrite_storage (not_empty old) (not_empty new)) w
