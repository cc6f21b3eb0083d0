-- ===== src/Rsa/Examples.antt =====
-- rsa.cpp with a cipher that puts the length before the message.
use blockchain_voting.Base.{
  ℕ, ◌+◌, ◌-◌, ◌≡◌, Bool, true, Option, none, some, [], ◌∷◌, ◌++◌, leb, if◌then◌else◌, length, take,
  replicate, err, null_pointer, Bytes, codes, bytes_eq,
}
use blockchain_voting.Rsa.{OpenSsl, World, read_key}
use blockchain_voting.Rsa.Loading.{apply_null}
use blockchain_voting.Rsa.{public_encrypt, private_decrypt, private_encrypt, public_decrypt}
use blockchain_voting.Memory.{buf}

abbrev pad : Bytes → Option Bytes
pad m = if leb (length m + 11) 32 then some (length m ∷ m ++ replicate (31 - length m) 0) else none

abbrev unpad : Bytes → Option Bytes
unpad [] = none
unpad (n ∷ m) = some (take n m)

-- A key is one byte, the same for both kinds.
abbrev toy_ssl : OpenSsl
toy_ssl = record {
  Rsa = ℕ;
  bio_new_mem_buf = λ text. true;
  pem_read_rsa_pubkey = λ pem. some 1;
  pem_read_rsa_private_key = λ pem. some 2;
  rsa_public_encrypt = λ m key. pad m;
  rsa_private_decrypt = λ m key. unpad m;
  rsa_private_encrypt = λ m key. pad m;
  rsa_public_decrypt = λ m key. unpad m;
}

abbrev files : Bytes → Option Bytes
files name = if bytes_eq name (codes "gone.pem") then none else some (codes "PEM")

abbrev w : World
w = record { files = files; open_files = 0; keys = 0; bios = 0 }

abbrev public_file : Bytes
public_file = codes "public.pem"

gone_unread :
    (flag : Bool) (pem : Bytes)
    → files (codes "gone.pem") ≡ some pem
    → read_key toy_ssl flag pem ≡ none
unfolding bytes_eq
gone_unread flag pem e = cc

apply_null_example :
    (public_encrypt toy_ssl w (buf (codes "vote")) 4 (codes "gone.pem") [] ≡ err null_pointer)
    × (private_decrypt toy_ssl w (buf (codes "vote")) 4 (codes "gone.pem") [] ≡ err null_pointer)
    × (private_encrypt toy_ssl w (buf (codes "vote")) 4 (codes "gone.pem") [] ≡ err null_pointer)
    × (public_decrypt toy_ssl w (buf (codes "vote")) 4 (codes "gone.pem") [] ≡ err null_pointer)
apply_null_example = apply_null toy_ssl w (codes "gone.pem") (buf (codes "vote")) 4 [] gone_unread
