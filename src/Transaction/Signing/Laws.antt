-- ===== src/Transaction/Signing/Laws.antt =====
-- A signed transaction verifies, and what it carries is what was asked for.
use Prim.Native.String.{◌++◌}
use p2p_auction.Prelude.{ℕ, String, ◌≡◌, refl, sym, ap}
use p2p_auction.Prelude.Result.{Result, ok, ok-inj, from_option, >>=-eq-ok}
use p2p_auction.Env.{Env, IsLawful}
use p2p_auction.Hash
use p2p_auction.Transaction.{Data, Transaction}
use p2p_auction.Transaction.Signing.{sign, verify, serialize, new}

module _ ⦃env : Env⦄ (laws : IsLawful env) where
  pub string_to_public_key_to_string :
      (p : env.PublicKey) → Hash.string_to_public_key (Hash.public_key_to_string p) ≡ ok p
  unfolding Hash.string_to_public_key Hash.public_key_to_string
  string_to_public_key_to_string p = simp (laws.decode-encode, laws.public_key_bytes)

  pub string_to_signature_to_string :
      (s : env.Signature) → Hash.string_to_signature (Hash.signature_to_string s) ≡ ok s
  unfolding Hash.string_to_signature Hash.signature_to_string
  string_to_signature_to_string s = simp (laws.decode-encode, laws.signature_bytes)

  -- Given `IsLawful`, a transaction that the owner of a key signs at a reading of the clock, under
  -- the text of that key as its sender, is made and passes `verify`, and it has the record, the
  -- sender, the nonce and the timestamp that it was made with.
  pub verify-sign :
      (payload : Data) (nonce now : ℕ) (keys : env.Keypair)
      → (t : Transaction) × (sign payload
            (Hash.public_key_to_string (env.public keys))
            nonce
            keys
            (ok now)
          ≡ ok t)
        × (verify t ≡ ok tt)
        × (t.payload ≡ payload)
        × (t.from ≡ Hash.public_key_to_string (env.public keys))
        × (t.nonce ≡ nonce)
        × (t.timestamp ≡ now)
  unfolding sign verify
  verify-sign payload nonce now keys =
      let from = Hash.public_key_to_string (env.public keys) in
      let (input, e) = laws.json_signed_total payload from nonce in
      let (json, f) = laws.json_data_total payload in
      let signature = Hash.signature_to_string (env.sign keys input) in
      let t : Transaction = record {
        id = Hash.encode_hash (
            Hash.hash
              (json ++ (":" ++ (from ++ (":" ++ (env.show_nonce nonce ++ (":" ++ signature)))))));
        payload = payload;
        from = from;
        timestamp = now;
        nonce = nonce;
        signature = signature;
      } in
      (
        t,
        rw (e, f),
        simp (string_to_public_key_to_string, string_to_signature_to_string, e, laws.verify-sign),
        refl,
        refl,
        refl,
        refl,
      )

module _ ⦃env : Env⦄ where
  -- A transaction is signed only where the clock gives a time, and it holds what it was made for.
  pub sign-eq-ok :
      (payload : Data) (from : String) (nonce : ℕ) (keys : env.Keypair) (now : Result ℕ)
      {t : Transaction}
      → sign payload from nonce keys now ≡ ok t
      → (n : ℕ) × (now ≡ ok n) × (t.payload ≡ payload) × (t.from ≡ from) × (t.nonce ≡ nonce)
  unfolding sign new
  sign-eq-ok payload from nonce keys now e =
      let (input, p, q) = >>=-eq-ok (serialize payload from nonce) _ e in
      let (json, f, g) = >>=-eq-ok (from_option (env.json_data payload)) _ q in
      let (n, timed, h) = >>=-eq-ok now _ g in
      let made = ok-inj h in
      (
        n,
        timed,
        sym (ap (λ (x : Transaction). x.payload) made),
        sym (ap (λ (x : Transaction). x.from) made),
        sym (ap (λ (x : Transaction). x.nonce) made),
      )
