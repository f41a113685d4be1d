-- ===== src/Examples/Password.antt =====
-- The change of password at a concrete storage.
use mutiny_node.Prelude.{◌≡◌, ◌≢◌, refl, [], none, some}
use mutiny_node.Prelude.Text.{Text, codes}
use mutiny_node.Encrypt.{
  encryption_key_from_pass, encrypt, decrypt_with_password, open_sealed, get_encryption_key,
}
use mutiny_node.Storage.{
  World, set_data, get_data, scan_loop, read_value, change_password, set, set_items, store_value,
}
use mutiny_node.Storage.Values.{encrypt_value, decrypt_value, needs_encryption}
use mutiny_node.Prelude.Map.{get, insert}
use mutiny_node.Storage.Data.{IsKeyed}
use mutiny_node.Storage.Password.{
  change_password_and_rewrite_storage, rewrite_storage, cipher_for, rewrite,
}
use mutiny_node.Storage.Password.Kept.{change_password_and_rewrite_storage_lem}
use mutiny_node.Examples.Instances.{
  Value, plain_crypto, value_json, text_serde, test_env, locked_world,
}

abbrev with_mnemonic : World Value
with_mnemonic = (set_data (codes "mnemonic") (codes "abandon") none locked_world).1

abbrev changed : World Value
changed =
    (change_password_and_rewrite_storage (some (codes "pass")) (some (codes "word"))
      with_mnemonic).1

some-ne-empty : some (codes "word") ≢ some []
some-ne-empty e = cc

change_password_and_rewrite_storage_lem_example :
    (changed.password ≡ some (codes "word"))
    × IsKeyed changed.password changed.cipher
    × ((get_data {A = Text} (codes "mnemonic") changed).0
        ≡ (get_data {A = Text} (codes "mnemonic") with_mnemonic).0)
unfolding change_password_and_rewrite_storage set_data encrypt_value needs_encryption encrypt
    rewrite_storage scan_loop insert read_value get decrypt_value decrypt_with_password open_sealed
    get_encryption_key cipher_for encryption_key_from_pass rewrite change_password get_data set
    set_items store_value
change_password_and_rewrite_storage_lem_example =
    change_password_and_rewrite_storage_lem {A = Text} (some (codes "pass")) (some (codes "word"))
      with_mnemonic {w' = changed} (codes "mnemonic") some-ne-empty refl
