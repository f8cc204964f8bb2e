-- ===== src/Core/Security/Encryption.antt =====
-- The stored credentials of src/backend/core/security.py.
use crucible.Base.{
  ℕ, zero, suc, ◌≡◌, ◌-◌, refl, ap, String, Bool, true, false, List, [], ◌∷◌, some, arith, length,
  length-append, take, ltb, if◌then◌else◌, Option-cases, inl, inr,
}
use crucible.Core.Security.{
  replicate, raw_key, Crypto, Credentials, dict, text, get_fernet, payload_of, read_as,
  encrypt_credentials, decrypt_credentials,
}

module _ {Byte : Type 0} where
  length-replicate : (n : ℕ) (b : Byte) → length (replicate n b) ≡ n
  length-replicate zero b = refl
  length-replicate (suc n) b = ap suc (length-replicate n b)

  length-take :
      (n : ℕ) (bytes : List Byte)
      → length (take n bytes) ≡ (if ltb (length bytes) n then length bytes else n)
  length-take zero bytes = ground arith
  length-take (suc n) [] = ground arith
  length-take (suc n) (b ∷ bytes) = ground (arith, length-take n bytes)

  -- The raw key has 32 bytes, whatever the setting is.
  pub raw_key-length : (fill : Byte) (key : List Byte) → length (raw_key fill key) ≡ 32
  unfolding raw_key
  raw_key-length fill key =
      let missing = 32 - length key in
      ground (
        arith,
        length-take 32 key,
        length-append key (replicate missing fill),
        length-replicate missing fill,
      )

-- what is known of Fernet, of JSON and of UTF-8
pub record IsSound {D : Type 0} (env : Crypto D) : Type 0 where
  pub fernet_accepts :
      (key : List env.Byte)
      → length key ≡ 32
      → (f : env.Fernet) × (env.fernet (env.urlsafe_b64encode key) ≡ some f)
  pub decrypt-encrypt :
      (f : env.Fernet) (nonce : ℕ) (bytes : List env.Byte)
      → env.decrypt f (env.encrypt f nonce bytes) ≡ some bytes
  pub encrypt_is_text :
      (f : env.Fernet) (nonce : ℕ) (bytes : List env.Byte)
      → (t : String) × (env.decode (env.encrypt f nonce bytes) ≡ some t)
        × (env.encode t ≡ env.encrypt f nonce bytes)
  pub decode-encode : (t : String) → env.decode (env.encode t) ≡ some t
  pub loads-dumps : (d : D) → env.loads (env.dumps d) ≡ some d

module _ {D : Type 0} (env : Crypto D) (sound : IsSound env) (setting : String) where
  open env use {Fernet, fernet, encode, encrypt, decrypt, decode, byte_0}

  abbrev pub is_dict : Credentials D → Bool
  is_dict (dict _) = true
  is_dict (text _) = false

  read_as-payload_of :
      (c : Credentials D) → read_as env setting (is_dict c) (payload_of env setting c) ≡ some c
  read_as-payload_of (dict d) = rw (sound.loads-dumps d) refl
  read_as-payload_of (text t) = refl

  get_fernet-some : (f : Fernet) × (get_fernet env setting ≡ some f)
  unfolding get_fernet
  get_fernet-some = elim (Option-cases (fernet (encode setting))) [
    | inr (f, e) ↦ (f, rw (e, get_fernet) refl)
    | inl e ↦
        let (f, e') =
          sound.fernet_accepts (raw_key byte_0 (encode setting))
            (raw_key-length byte_0 (encode setting)) in
        (f, rw (e, get_fernet) e')
  ]

  -- With any setting as the key, credentials are encrypted to a text that decrypts, with the same
  -- setting and asked for as what they were, to these credentials.
  pub decrypt_credentials-encrypt_credentials :
      (nonce : ℕ) (c : Credentials D)
      → (t : String) × (encrypt_credentials env setting nonce c ≡ some t)
        × (decrypt_credentials env setting (is_dict c) t ≡ some c)
  unfolding encrypt_credentials decrypt_credentials
  decrypt_credentials-encrypt_credentials nonce c =
      let (f, key) = get_fernet-some in
      let bytes = encode (payload_of env setting c) in
      let (t, shown, back) = sound.encrypt_is_text f nonce bytes in
      let opened = sound.decrypt-encrypt f nonce bytes in
      let payload = sound.decode-encode (payload_of env setting c) in
      (
        t,
        rw (encrypt_credentials, key) shown,
        rw (decrypt_credentials, key, back, opened, payload) (read_as-payload_of c),
      )
