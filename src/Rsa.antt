-- ===== src/Rsa.antt =====
-- rsa.cpp: encryption, decryption and signatures with keys from files.
pub mod Loading
mod Examples
use blockchain_voting.Base.{
  ℕ, ◌+◌, ◌-◌, Bool, true, false, Option, none, some, ◌++◌, ltb, if◌then◌else◌, length, drop,
  Result, ok, err, null_pointer, out_of_bounds, ◌>>=◌, Bytes,
}
use blockchain_voting.Memory.{CharPtr, read_bytes, c_string}

-- What rsa.cpp calls of OpenSSL. `none` is a NULL key, and the -1 of an operation that fails; the
-- padding is RSA_PKCS1_PADDING throughout, with the random bytes that it takes left inside.
pub record OpenSsl : Type 1 where
  pub Rsa : Type 0
  pub bio_new_mem_buf : Bytes → Bool
  pub pem_read_rsa_pubkey : Bytes → Option Rsa
  pub pem_read_rsa_private_key : Bytes → Option Rsa
  pub rsa_public_encrypt : Bytes → Rsa → Option Bytes
  pub rsa_private_decrypt : Bytes → Rsa → Option Bytes
  pub rsa_private_encrypt : Bytes → Rsa → Option Bytes
  pub rsa_public_decrypt : Bytes → Rsa → Option Bytes

-- The file system, and what the process holds: open files, keys and BIOs that nothing has freed.
pub record World : Type 0 where
  pub files : Bytes → Option Bytes
  pub open_files : ℕ
  pub keys : ℕ
  pub bios : ℕ

-- A buffer of `length out` bytes after OpenSSL has written to it.
unfoldable pub write_out : Bytes → Bytes → Result Bytes
write_out written out =
    if ltb (length out) (length written)
    then err out_of_bounds
    else ok (written ++ drop (length written) out)

-- What a call leaves: its return value, with `none` for -1, and the buffer.
abbrev pub Output : Type 0
Output = Option ℕ × Bytes

unfoldable pub finish : Option Bytes → Bytes → Result Output
unfolding write_out
finish none out = ok (none, out)
finish (some written) out = do out' ← write_out written out; ok (some (length written), out')

module _ (ssl : OpenSsl) where
  open ssl use {
    Rsa, bio_new_mem_buf, pem_read_rsa_pubkey, pem_read_rsa_private_key, rsa_public_encrypt,
    rsa_private_decrypt, rsa_private_encrypt, rsa_public_decrypt,
  }

  -- The key that a PEM text holds.
  unfoldable pub read_key : Bool → Bytes → Option Rsa
  read_key true pem = pem_read_rsa_pubkey pem
  read_key false pem = pem_read_rsa_private_key pem

  -- A key that is read stays allocated: nothing calls `RSA_free`.
  abbrev pub held : Option Rsa → World → World
  held none w = w
  held (some key) w = record w { keys = w.keys + 1 }

  -- `createRSA`; the BIO is not freed.
  unfoldable pub create_rsa : World → CharPtr → Bool → Result (World × Option Rsa)
  unfolding read_key
  create_rsa w key is_public_key = do
    pem ← c_string key
    if bio_new_mem_buf pem
        then (let rsa = read_key is_public_key pem in
            ok (held rsa (record w { bios = w.bios + 1 }), rsa))
        else ok (w, none)

  -- `createRSAWithFilename`: the file is opened, read and closed. `RSA_new` makes a key, which the
  -- reading fills in, and which is lost, though not freed, where the reading fails.
  unfoldable pub create_rsa_with_filename : World → Bytes → Bool → World × Option Rsa
  unfolding read_key
  create_rsa_with_filename w filename is_public_key = elim (w.files filename) [
    | none ↦ (w, none)
    | some pem ↦
        let opened = record w { open_files = w.open_files + 1; keys = w.keys + 1 } in
        (record opened { open_files = opened.open_files - 1 }, read_key is_public_key pem)
  ]

  -- An operation of OpenSSL on `data_len` bytes. It reads through the key, which none of the
  -- callers compares with NULL.
  unfoldable pub apply :
      (Bytes → Rsa → Option Bytes) → Option Rsa → CharPtr → ℕ → Bytes → Result Output
  unfolding finish
  apply op none from_data data_len out = err null_pointer
  apply op (some rsa) from_data data_len out = do
    m ← read_bytes from_data data_len
    finish (op m rsa) out

  unfoldable pub public_encrypt : World → CharPtr → ℕ → Bytes → Bytes → Result (World × Output)
  unfolding create_rsa_with_filename apply
  public_encrypt w from_data data_len key_file encrypted = do
    let made = create_rsa_with_filename w key_file true
    result ← apply rsa_public_encrypt made.1 from_data data_len encrypted
    ok (made.0, result)

  unfoldable pub private_decrypt : World → CharPtr → ℕ → Bytes → Bytes → Result (World × Output)
  unfolding create_rsa_with_filename apply
  private_decrypt w enc_data data_len key_file decrypted = do
    let made = create_rsa_with_filename w key_file false
    result ← apply rsa_private_decrypt made.1 enc_data data_len decrypted
    ok (made.0, result)

  unfoldable pub private_encrypt : World → CharPtr → ℕ → Bytes → Bytes → Result (World × Output)
  unfolding create_rsa_with_filename apply
  private_encrypt w from_data data_len key_file encrypted = do
    let made = create_rsa_with_filename w key_file false
    result ← apply rsa_private_encrypt made.1 from_data data_len encrypted
    ok (made.0, result)

  unfoldable pub public_decrypt : World → CharPtr → ℕ → Bytes → Bytes → Result (World × Output)
  unfolding create_rsa_with_filename apply
  public_decrypt w enc_data data_len key_file decrypted = do
    let made = create_rsa_with_filename w key_file true
    result ← apply rsa_public_decrypt made.1 enc_data data_len decrypted
    ok (made.0, result)
