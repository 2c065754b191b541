-- ===== src/Examples/Toy.antt =====
-- A concrete choice of what comes from other packages, small enough to run: it satisfies `IsLawful`.
use Prim.Native.Char.{code}
use Prim.Native.String.{[] as nil, ◌∷◌ as cons, ◌++◌ as append}
use p2p_auction.Prelude.{
  ℕ, zero, suc, ◌+◌, String, ◌≡◌, refl, ap, Option, none, some, List, [], ◌∷◌, ◌∙◌, arith, nat_eq,
  nat_eq_refl, if◌then◌else◌,
}
use p2p_auction.Env.{Env, IsLawful}
use p2p_auction.Transaction.{Data, stop_auction}

-- A byte as that many letters "a", then a letter "b".
abbrev unary : ℕ → String → String
unary zero rest = cons "b" rest
unary (suc n) rest = cons "a" (unary n rest)

abbrev encode : List ℕ → String
encode [] = nil
encode (n ∷ ns) = unary n (encode ns)

abbrev push : ℕ → Option (List ℕ) → Option (List ℕ)
push n none = none
push n (some ns) = some (n ∷ ns)

-- The byte so far is the first argument.
abbrev decode_from : ℕ → String → Option (List ℕ)
decode_from n nil = if nat_eq n 0 then some [] else none
decode_from n (cons c s) =
    let next = decode_from (n + 1) s in
    let ended = decode_from 0 s in
    if nat_eq (code c) b'a' then next else if nat_eq (code c) b'b' then push n ended else none

decode-unary : (m n : ℕ) (s : String) → decode_from m (unary n s) ≡ push (n + m) (decode_from 0 s)
decode-unary m zero s = ap (λ k. push k (decode_from 0 s)) {x = m} {y = 0 + m} (omega arith)
decode-unary m (suc n) s =
    decode-unary (m + 1) n s
    ∙ ap (λ k. push k (decode_from 0 s)) {x = n + (m + 1)} {y = suc n + m} (omega arith)

decode-encode : (ns : List ℕ) → decode_from 0 (encode ns) ≡ some ns
decode-encode [] = refl
decode-encode (n ∷ ns) =
    decode-unary 0 n (encode ns)
    ∙ ap (push (n + 0)) (decode-encode ns)
    ∙ ap (λ k. some (k ∷ ns)) {x = n + 0} {y = n} (omega arith)

abbrev length_of : String → ℕ
length_of nil = 0
length_of (cons c s) = suc (length_of s)

-- A text that begins with "x" hashes to no solution of the puzzle, any other one to its length.
abbrev digest : String → List ℕ
digest nil = 9 ∷ []
digest (cons c s) = if nat_eq (code c) b'x' then 9 ∷ [] else 0 ∷ 0 ∷ length_of s ∷ []

abbrev only : List ℕ → Option ℕ
only (n ∷ []) = some n
only _ = none

abbrev sum : List ℕ → ℕ
sum [] = 0
sum (n ∷ ns) = n + sum ns

-- The name of an auction that is stopped, any other record is one letter.
abbrev text_of : Data → String
text_of (stop_auction id) = id
text_of _ = "d"

-- The nonce 0 solves no puzzle. A key is a number, and signs with itself.
instance abbrev pub toy : Env
toy = record {
  blake2b = digest;
  hex_encode = encode;
  hex_decode = decode_from 0;
  json_data = λ d. some (text_of d);
  json_signed = λ d from n. some from;
  json_transaction = λ t. some t.id;
  json_header =
      λ h. if nat_eq h.nonce 0 then some "x" else some (append h.previous_hash h.merkle_root);
  show_nonce = λ n. unary n nil;
  PublicKey = ℕ;
  Signature = ℕ;
  Keypair = ℕ;
  public = λ k. k;
  sign = λ k m. k;
  verify_strict = λ p m s. nat_eq p s;
  public_key_to_bytes = λ p. p ∷ [];
  public_key_from_bytes = only;
  signature_to_bytes = λ s. s ∷ [];
  signature_from_bytes = only;
  biguint_from_bytes_le = sum;
}

pub toy-IsLawful : IsLawful toy
toy-IsLawful = record {
  decode-encode = decode-encode;
  decode_zero = refl;
  json_signed_total = λ d from n. (from, refl);
  json_data_total = λ d. (text_of d, refl);
  verify-sign = λ k m. nat_eq_refl k;
  public_key_bytes = λ p. refl;
  signature_bytes = λ s. refl;
}
