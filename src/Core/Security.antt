-- ===== src/Core/Security.antt =====
-- src/backend/core/security.py: access and refresh tokens, passwords, and the encryption of
-- credentials. PyJWT, passlib, Fernet, `json` and the codecs of texts and bytes are parameters.
pub mod Encryption
pub mod Expiry
use crucible.Base.{
  ℕ, zero, suc, ◌+◌, ◌-◌, ◌*◌, String, Bool, true, false, List, [], ◌∷◌, ◌++◌, Option, none, some,
  ◌==◌, ltb, length, take, if◌then◌else◌,
}
use crucible.Api.Auth.{Claims, Codec}

-- What is encoded into a token.
pub record Payload : Type 0 where
  pub exp : ℕ
  pub sub : String
  pub type : Option String

-- `jwt.decode` raises at a bad or expired token; `verify` is `none` where passlib raises a
-- `ValueError`; `access_minutes` is the setting JWT_ACCESS_TOKEN_EXPIRE_MINUTES.
pub record Tokens : Type 0 where
  pub access_minutes : ℕ
  pub jwt_encode : Payload → String
  pub jwt_decode : (now : ℕ) → String → Option Claims
  pub verify : (plain hashed : String) → Option Bool
  pub uuid : String → Option ℕ
  pub str : ℕ → String
  pub lower : String → String

module _ (env : Tokens) (now : ℕ) where
  open env use {access_minutes, jwt_encode, jwt_decode, verify, uuid, str, lower}

  -- `if expires_delta`: no duration, and the duration of zero, stand for the setting
  abbrev pub lifetime : (expires_delta : Option ℕ) → ℕ
  lifetime none = access_minutes * 60
  lifetime (some seconds) = if seconds == 0 then access_minutes * 60 else seconds

  unfoldable pub create_access_token : (subject : String) → (expires_delta : Option ℕ) → String
  create_access_token subject expires_delta =
      jwt_encode (record { exp = now + lifetime expires_delta; sub = subject; type = none })

  -- seven days
  unfoldable pub create_refresh_token : (subject : String) → String
  create_refresh_token subject =
      jwt_encode (record { exp = now + 7 * 86400; sub = subject; type = some "refresh" })

  unfoldable pub verify_password : (plain_password hashed_password : String) → Bool
  verify_password plain_password hashed_password = elim (verify plain_password hashed_password) [
    | none ↦ false
    | some matches ↦ matches
  ]

  -- what the handlers use of this module at the time `now`
  unfoldable pub codec : Codec
  codec = record {
    decode = jwt_decode now;
    uuid = uuid;
    str = str;
    create_access_token = λ subject. create_access_token subject none;
    create_refresh_token = create_refresh_token;
    verify_password = verify_password;
    lower = lower;
  }

module _ {Byte : Type 0} where
  abbrev pub replicate : ℕ → Byte → List Byte
  replicate zero b = []
  replicate (suc n) b = b ∷ replicate n b

  -- `key.ljust(width, fill)`
  abbrev pub ljust : (width : ℕ) (fill : Byte) → List Byte → List Byte
  ljust width fill key = key ++ replicate (width - length key) fill

  -- the key that the fallback encodes; `fill` is the byte of "0"
  unfoldable pub raw_key : (fill : Byte) → List Byte → List Byte
  raw_key fill key_bytes =
      if ltb (length key_bytes) 32
      then ljust 32 fill key_bytes
      else if ltb 32 (length key_bytes)
      then take 32 key_bytes
      else key_bytes

-- A dictionary or a text.
pub data Credentials (D : Type 0) : Type 0 where
  dict : D → Credentials D
  text : String → Credentials D

-- `byte_0` is the byte of "0", `fernet` is the constructor, which raises at a key that is no 32 bytes in URL-safe base64;
-- `encrypt` draws a nonce, `decrypt` raises at a token that it did not make.
pub record Crypto (D : Type 0) : Type 1 where
  pub Byte : Type 0
  pub byte_0 : Byte
  pub Fernet : Type 0
  pub fernet : List Byte → Option Fernet
  pub encrypt : Fernet → (nonce : ℕ) → List Byte → List Byte
  pub decrypt : Fernet → List Byte → Option (List Byte)
  pub urlsafe_b64encode : List Byte → List Byte
  pub encode : String → List Byte
  pub decode : List Byte → Option String
  pub dumps : D → String
  pub loads : String → Option D

module _ {D : Type 0} (env : Crypto D) (credential_encryption_key : String) where
  open env use {
    Byte, byte_0, Fernet, fernet, encrypt, decrypt, urlsafe_b64encode, encode, decode, dumps, loads,
  }

  -- `none` where the constructor raises for the raw key too
  unfoldable pub get_fernet : Option Fernet
  unfolding raw_key
  get_fernet = elim (fernet (encode credential_encryption_key)) [
    | some f ↦ some f
    | none ↦ fernet (urlsafe_b64encode (raw_key byte_0 (encode credential_encryption_key)))
  ]

  abbrev pub payload_of : Credentials D → String
  payload_of (dict credentials) = dumps credentials
  payload_of (text credentials) = credentials

  unfoldable pub encrypt_credentials : (nonce : ℕ) → Credentials D → Option String
  unfolding get_fernet
  encrypt_credentials nonce credentials = elim get_fernet [
    | none ↦ none
    | some f ↦ decode (encrypt f nonce (encode (payload_of credentials)))
  ]

  abbrev pub read_as : (as_dict : Bool) → String → Option (Credentials D)
  read_as true payload = elim (loads payload) [ none ↦ none | some d ↦ some (dict d) ]
  read_as false payload = some (text payload)

  abbrev decoded : (as_dict : Bool) → Option String → Option (Credentials D)
  decoded as_dict none = none
  decoded as_dict (some payload) = read_as as_dict payload

  abbrev decrypted : (as_dict : Bool) → Option (List Byte) → Option (Credentials D)
  decrypted as_dict none = none
  decrypted as_dict (some bytes) = decoded as_dict (decode bytes)

  -- `none` where a call raises
  unfoldable pub decrypt_credentials :
      (as_dict : Bool) → (encrypted_data : String) → Option (Credentials D)
  unfolding get_fernet
  decrypt_credentials as_dict encrypted_data = elim get_fernet [
    | none ↦ none
    | some f ↦ decrypted as_dict (decrypt f (encode encrypted_data))
  ]
