-- ===== src/Auth/Together/Layouts.antt =====
-- Authentication/auth_protocol.h: how the two structs lie in memory where an integer is four bytes,
-- the lowest first, and a struct is padded to a multiple of four.
use st5039cmd.Base.{
  ℕ, zero, suc, ◌+◌, ◌*◌, ◌^◌, ◌/◌, ◌%◌, ◌<◌, ◌≡◌, refl, ap, ◌∙◌, List, [], ◌∷◌, ◌++◌, length,
  length-append, length-take, length-drop, take, drop, arith,
}
use st5039cmd.Auth.Protocol.{AuthRequest, AuthResponse, IsRequest}
use st5039cmd.Auth.Session
use st5039cmd.Auth.Session.{IsLayout}
use st5039cmd.Auth.Frontend.Exchange
use st5039cmd.Auth.Together.{IsResponse, IsCodec}

-- An integer of four bytes.
abbrev pub word_bytes : ℕ → List ℕ
word_bytes n = n % 256 ∷ n / 256 % 256 ∷ n / 65536 % 256 ∷ n / 16777216 ∷ []

abbrev pub word_at : List ℕ → ℕ
word_at (a ∷ b ∷ c ∷ d ∷ bytes) = a + b * 256 + c * 65536 + d * 16777216
word_at bytes = 0

word-back : (n : ℕ) (rest : List ℕ) → n < 2 ^ 32 → word_at (word_bytes n ++ rest) ≡ n
word-back n rest h = omega arith

take-part : (xs ys : List ℕ) (n : ℕ) → length xs ≡ n → take n (xs ++ ys) ≡ xs
take-part [] ys zero h = refl
take-part [] ys (suc n) h = absurd (omega (arith, h))
take-part (x ∷ xs) ys zero h = absurd (omega (arith, h))
take-part (x ∷ xs) ys (suc n) h = ap (◌∷◌ x) (take-part xs ys n (omega (arith, h)))

drop-part : (xs ys : List ℕ) (n : ℕ) → length xs ≡ n → drop n (xs ++ ys) ≡ ys
drop-part [] ys zero h = refl
drop-part [] ys (suc n) h = absurd (omega (arith, h))
drop-part (x ∷ xs) ys zero h = absurd (omega (arith, h))
drop-part (x ∷ xs) ys (suc n) h = drop-part xs ys n (omega (arith, h))

abbrev pub encode_request : AuthRequest → List ℕ
encode_request r =
    word_bytes r.version ++ (word_bytes r.type ++ (r.username ++ (r.password ++ 0 ∷ 0 ∷ [])))

abbrev pub decode_request : List ℕ → AuthRequest
decode_request bytes = record {
  version = word_at bytes;
  type = word_at (drop 4 bytes);
  username = take 65 (drop 8 bytes);
  password = take 129 (drop 65 (drop 8 bytes));
}

abbrev pub encode_response : AuthResponse → List ℕ
encode_response r =
    word_bytes r.version
    ++ (word_bytes r.result ++ (word_bytes r.error_code ++ (r.message ++ 0 ∷ 0 ∷ 0 ∷ [])))

abbrev pub decode_response : List ℕ → AuthResponse
decode_response bytes = record {
  version = word_at bytes;
  result = word_at (drop 4 bytes);
  error_code = word_at (drop 8 bytes);
  message = take 129 (drop 12 bytes);
}

abbrev pub backend_layout : Session.Layout
backend_layout = record { request_size = 204; decode = decode_request; encode = encode_response }

abbrev pub frontend_layout : Exchange.Layout
frontend_layout = record { encode = encode_request; response_size = 144; decode = decode_response }

pub backend_layout-IsLayout : IsLayout backend_layout
backend_layout-IsLayout = record {
  decode-IsRequest = λ bytes h. record {
    username_size = omega (arith, h, length-take 65 (drop 8 bytes), length-drop 8 bytes);
    password_size = omega (
      arith,
      h,
      length-take 129 (drop 65 (drop 8 bytes)),
      length-drop 65 (drop 8 bytes),
      length-drop 8 bytes,
    );
  };
}

encode_request-length : (r : AuthRequest) → IsRequest r → length (encode_request r) ≡ 204
encode_request-length r h =
    let whole = length-append r.username (r.password ++ 0 ∷ 0 ∷ []) in
    let end = length-append r.password (0 ∷ 0 ∷ []) in
    grind (arith, whole, end, h.username_size, h.password_size)

encode_request-back :
    (r : AuthRequest)
    → IsRequest r
    → r.version < 2 ^ 32
    → r.type < 2 ^ 32
    → decode_request (encode_request r) ≡ r
encode_request-back r h hv ht =
    let after = r.password ++ 0 ∷ 0 ∷ [] in
    let version = word-back r.version (word_bytes r.type ++ (r.username ++ after)) hv in
    let type = word-back r.type (r.username ++ after) ht in
    let username = take-part r.username after 65 h.username_size in
    let password =
      ap (take 129) (drop-part r.username after 65 h.username_size)
      ∙ take-part r.password (0 ∷ 0 ∷ []) 129 h.password_size in
    λ i. record { version = version i; type = type i; username = username i; password = password i }

encode_response-length : (r : AuthResponse) → IsResponse r → length (encode_response r) ≡ 144
encode_response-length r h = omega (arith, length-append r.message (0 ∷ 0 ∷ 0 ∷ []), h.message_size)

encode_response-back : (r : AuthResponse) → IsResponse r → decode_response (encode_response r) ≡ r
encode_response-back r h =
    let after = r.message ++ 0 ∷ 0 ∷ 0 ∷ [] in
    let version =
      word-back r.version (word_bytes r.result ++ (word_bytes r.error_code ++ after))
        h.version_fits in
    let result = word-back r.result (word_bytes r.error_code ++ after) h.result_fits in
    let error_code = word-back r.error_code after h.error_code_fits in
    let message = take-part r.message (0 ∷ 0 ∷ 0 ∷ []) 129 h.message_size in
    λ i. record {
      version = version i;
      result = result i;
      error_code = error_code i;
      message = message i;
    }

-- The four functions agree.
pub layouts-IsCodec : IsCodec backend_layout frontend_layout
layouts-IsCodec = record {
  request_length = encode_request-length;
  request_back = encode_request-back;
  response_length = encode_response-length;
  response_back = encode_response-back;
  response_given = omega arith;
}
