-- ===== src/Examples/Storage.antt =====
-- The theorems on errors, encryption, storage and budgets at concrete inputs.
use mutiny_node.Prelude.{◌≡◌, refl, [], ◌∷◌, ◌++◌, none, some, arith, replicate}
use mutiny_node.Prelude.Text.{Text, codes, text_eq}
use mutiny_node.Exec.{ok}
use mutiny_node.Encrypt.{
  Cipher, decrypt_with_password, encrypt, encryption_key_from_pass, get_encryption_key,
}
use mutiny_node.Encrypt.Roundtrip.{decrypt_with_password-encrypt}
use mutiny_node.Storage.{World, set_data, get_data, store_value}
use mutiny_node.Storage.Values.{encrypt_value, needs_encryption}
use mutiny_node.Storage.Data.{keyed, get_data-set_data}
use mutiny_node.Nwc.Budget.{
  BudgetPeriod, BudgetedSpendingConditions, TrackedPayment, budget_remaining,
}
use mutiny_node.Nwc.Budget.Laws.{counted}
use mutiny_node.Nwc.Budget.Periods.{seconds_before_epoch}
use mutiny_node.Examples.Instances.{
  Value, plain_crypto, value_json, text_serde, test_env, test_bolt11, test_calendar, locked_world,
}

abbrev a_cipher : Cipher
a_cipher = record { key = codes "pass"; salt = replicate 16 7 }

abbrev a_sealed : Text
a_sealed = replicate 16 7 ++ (replicate 12 3 ++ codes "secret")

decrypt_with_password-encrypt_example :
    decrypt_with_password a_sealed (codes "pass") ≡ ok (codes "secret")
unfolding encrypt encryption_key_from_pass get_encryption_key
decrypt_with_password-encrypt_example =
    decrypt_with_password-encrypt (replicate 16 7) (replicate 12 3) (codes "pass")
      {cipher = a_cipher} refl refl refl (codes "secret") {sealed = a_sealed} refl

abbrev written : World Value
written = (set_data (codes "mnemonic") (codes "abandon") none locked_world).1

get_data-set_data_example :
    (get_data {A = Text} (codes "mnemonic") written).0 ≡ ok (some (codes "abandon"))
unfolding set_data store_value encrypt_value encrypt needs_encryption encryption_key_from_pass
    get_encryption_key
get_data-set_data_example =
    get_data-set_data (codes "mnemonic") (codes "abandon") none locked_world {w' = written}
      (keyed (codes "pass") a_cipher (replicate 16 7) refl refl) refl (codes "mnemonic")

abbrev an_invoice : Text
an_invoice = 5_000 ∷ 9 ∷ 0 ∷ []

abbrev a_payment : TrackedPayment
a_payment = record { time = 1_700_000_000; amt = 20; hash = 8 ∷ [] }

abbrev a_budget : BudgetPeriod → BudgetedSpendingConditions
a_budget p = record { budget = 100; single_max = some 50; payments = a_payment ∷ []; period = p }

seconds_before_epoch_example :
    let c = a_budget (BudgetPeriod.seconds 1_800_000_000) in
    (counted 1_700_000_100 c ≡ []) × (budget_remaining 1_700_000_100 c ≡ 100)
seconds_before_epoch_example =
    seconds_before_epoch 1_800_000_000 1_700_000_100 (a_budget (BudgetPeriod.seconds 1_800_000_000))
      refl (omega arith) (omega arith) (omega arith) (omega arith, tt)
