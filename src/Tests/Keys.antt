-- ===== src/Tests/Keys.antt =====
-- Examples of the theorems on `maskKey` and `parseLevel`.
use smolllm_server.Base.{◌≡◌, refl, codes}
use smolllm_server.Main.{mask_key}

mask_key_test : mask_key (codes "sk-1") ≡ codes "s**1"
unfolding mask_key
mask_key_test = refl
