-- ===== src/Rsa/Loading.antt =====
-- Where the keys of rsa.cpp come from, and what happens without them.
use blockchain_voting.Base.{
  ℕ, ◌≡◌, inl, inr, Bool, true, false, none, some, Option-cases, err, null_pointer, Bytes,
}
use blockchain_voting.Memory.{CharPtr}
use blockchain_voting.Rsa.{
  OpenSsl, World, read_key, create_rsa_with_filename, apply, public_encrypt, private_decrypt,
  private_encrypt, public_decrypt,
}

no_key :
    (ssl : OpenSsl) (w : World) (file : Bytes) (flag : Bool)
    → ((pem : Bytes) → w.files file ≡ some pem → read_key ssl flag pem ≡ none)
    → (create_rsa_with_filename ssl w file flag).1 ≡ none
unfolding create_rsa_with_filename
no_key ssl w file flag unread = elim (Option-cases (w.files file)) [
  | inl e ↦ rw (e, create_rsa_with_filename)
  | inr (pem, e) ↦ rw (e, create_rsa_with_filename) (unread pem e)
]

-- None of the four operations looks at the key before it is used: where the file cannot be opened,
-- or OpenSSL finds no key of either kind in it, each of them reads through a NULL key, whatever the
-- data, their length and the buffer; none gives the -1 that stands for a failure.
pub apply_null :
    (ssl : OpenSsl) (w : World) (file : Bytes) (from_data : CharPtr) (data_len : ℕ) (out : Bytes)
    → ((flag : Bool) (pem : Bytes) → w.files file ≡ some pem → read_key ssl flag pem ≡ none)
    → (public_encrypt ssl w from_data data_len file out ≡ err null_pointer)
      × (private_decrypt ssl w from_data data_len file out ≡ err null_pointer)
      × (private_encrypt ssl w from_data data_len file out ≡ err null_pointer)
      × (public_decrypt ssl w from_data data_len file out ≡ err null_pointer)
unfolding public_encrypt private_decrypt private_encrypt public_decrypt apply
apply_null ssl w file from_data data_len out unread =
    let none_read = λ (flag : Bool). no_key ssl w file flag (unread flag) in
    (rw (none_read true), rw (none_read false), rw (none_read false), rw (none_read true))
