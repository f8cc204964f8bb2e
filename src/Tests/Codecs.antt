-- ===== src/Tests/Codecs.antt =====
-- Concrete codecs of tokens and credentials. A token is the expiry and the length of the subject in
-- strokes, the subject, and the type; encryption and base64 change nothing.
use Prim.Native.Char.{Char, code, nul}
use crucible.Base.{
  ℕ, zero, suc, ◌≡◌, ◌≢◌, refl, ap, String, true, List, [], ◌∷◌, Option, none, some, ◌==◌, ltb,
  length, slash, if◌then◌else◌,
}
use crucible.Api.Auth.{Claims}
use crucible.Core.Security.{Payload, Tokens, Crypto}
use crucible.Core.Security.Encryption.{IsSound}
use crucible.Core.Security.Expiry.{IsJwt}
use crucible.Tests.Texts.{strokes, stroke_count, stroke_count-strokes}

abbrev put : ℕ → String → String
put zero s = String.◌∷◌ slash s
put (suc n) s = String.◌∷◌ nul (put n s)

abbrev read : String → ℕ × String
read String.[] = (0, String.[])
read (String.◌∷◌ c s) = let (n, rest) = read s in if code c == 47 then (0, s) else (suc n, rest)

abbrev cat : String → String → String
cat String.[] t = t
cat (String.◌∷◌ c s) t = String.◌∷◌ c (cat s t)

abbrev split : ℕ → String → String × String
split zero s = (String.[], s)
split (suc n) String.[] = (String.[], String.[])
split (suc n) (String.◌∷◌ c s) = let (a, b) = split n s in (String.◌∷◌ c a, b)

abbrev put_type : Option String → String
put_type none = String.[]
put_type (some t) = String.◌∷◌ nul t

abbrev read_type : String → Option String
read_type String.[] = none
read_type (String.◌∷◌ _ t) = some t

read-put : (n : ℕ) (s : String) → read (put n s) ≡ (n, s)
read-put zero s = refl
read-put (suc n) s = rw (read-put n s) refl

split-cat : (s t : String) → split (stroke_count s) (cat s t) ≡ (s, t)
split-cat String.[] t = refl
split-cat (String.◌∷◌ c s) t = rw (split-cat s t) refl

read_type-put_type : (t : Option String) → read_type (put_type t) ≡ t
read_type-put_type none = refl
read_type-put_type (some t) = refl

put_ne : (n : ℕ) (s : String) → put n s ≢ ""
put_ne zero s e = cc
put_ne (suc n) s e = cc

abbrev encode_token : Payload → String
encode_token p = put p.exp (put (stroke_count p.sub) (cat p.sub (put_type p.type)))

abbrev claims_of : String → Claims
claims_of s =
    let (n, rest) = read s in
    let (sub, type) = split n rest in record { sub = some sub; type = read_type type }

abbrev decode_token : (now : ℕ) → String → Option Claims
decode_token now s = let (exp, rest) = read s in if ltb now exp then some (claims_of rest) else none

abbrev pub tokens : Tokens
tokens = record {
  access_minutes = 15;
  jwt_encode = encode_token;
  jwt_decode = decode_token;
  verify = λ p h. some true;
  uuid = λ s. some (stroke_count s);
  str = strokes;
  lower = λ s. s;
}

decode_token-encode_token :
    (now : ℕ) (p : Payload)
    → decode_token now (encode_token p)
      ≡ (if ltb now p.exp then some (record { sub = some p.sub; type = p.type }) else none)
decode_token-encode_token now p =
    let body = cat p.sub (put_type p.type) in
    rw
      (
        read-put p.exp (put (stroke_count p.sub) body),
        read-put (stroke_count p.sub) body,
        split-cat p.sub (put_type p.type),
        read_type-put_type p.type,
      )
      refl

pub tokens-IsJwt : IsJwt tokens
tokens-IsJwt = record {
  decode-encode = decode_token-encode_token;
  encode_ne = λ p. put_ne p.exp _;
  uuid-str = λ i. ap some (stroke_count-strokes i);
}

abbrev chars : String → List Char
chars String.[] = []
chars (String.◌∷◌ c s) = c ∷ chars s

abbrev text_of : List Char → String
text_of [] = String.[]
text_of (c ∷ cs) = String.◌∷◌ c (text_of cs)

text_of-chars : (s : String) → text_of (chars s) ≡ s
text_of-chars String.[] = refl
text_of-chars (String.◌∷◌ c s) = ap (String.◌∷◌ c) (text_of-chars s)

chars-text_of : (cs : List Char) → chars (text_of cs) ≡ cs
chars-text_of [] = refl
chars-text_of (c ∷ cs) = ap (λ x. c ∷ x) (chars-text_of cs)

abbrev key_of : List Char → Option (Unit {0})
key_of key = if length key == 32 then some tt else none

abbrev pub crypto : Crypto String
crypto = record {
  Byte = Char;
  byte_0 = nul;
  Fernet = Unit {0};
  fernet = key_of;
  encrypt = λ f n b. b;
  decrypt = λ f b. some b;
  urlsafe_b64encode = λ b. b;
  encode = chars;
  decode = λ b. some (text_of b);
  dumps = λ d. d;
  loads = λ s. some s;
}

pub crypto-IsSound : IsSound crypto
crypto-IsSound = record {
  fernet_accepts = λ key h. (tt, rw h refl);
  decrypt-encrypt = λ f n b. refl;
  encrypt_is_text = λ f n b. (text_of b, refl, chars-text_of b);
  decode-encode = λ t. ap some (text_of-chars t);
  loads-dumps = λ d. refl;
}
