-- ===== src/Security/Seal.antt =====
-- About src/security/crypto.cpp: what was encrypted is decrypted.
use risk_sentinel.Common.{
  ℕ, ◌+◌, ◌-◌, ◌≡◌, refl, sym, ap, ◌∙◌, subst, Bool, true, false, not, Option, none, some, [], ◌∷◌,
  ◌++◌, append-nil, Bytes, AreBytes, All-append, codes, length, length-append, take, drop, arith,
  ok, ok-injective, ltb, ◌==◌,
}
use risk_sentinel.Common.Ensures.{Ensures, Ensures-ok, Ensures-bind, Ensures-throw_if}
use risk_sentinel.Security.{Openssl, or_throw, update_if, aes_gcm_decrypt, aes_gcm_encrypt}

-- What OpenSSL documents of AES-256-GCM: the cipher keeps lengths and its last step writes nothing,
-- the tag has 16 bytes, what is written for bytes are bytes, and decryption undoes encryption and accepts the tag.
pub record IsGcm (ssl : Openssl) : Type 0 where
  pub final_empty : (k n p f : Bytes) → ssl.encrypt_final k n p ≡ some f → f ≡ []
  pub keeps_length : (k n p c : Bytes) → ssl.encrypt_update k n p ≡ some c → length c ≡ length p
  pub tag_length : (k n p t : Bytes) → ssl.get_tag k n p ≡ some t → length t ≡ 16
  pub body_bytes : (k n p c : Bytes) → AreBytes p → ssl.encrypt_update k n p ≡ some c → AreBytes c
  pub tag_bytes : (k n p t : Bytes) → ssl.get_tag k n p ≡ some t → AreBytes t
  pub decrypts :
      (k n p c : Bytes) → ssl.encrypt_update k n p ≡ some c → ssl.decrypt_update k n c ≡ some p
  pub accepts :
      (k n p c t : Bytes)
      → ssl.encrypt_update k n p ≡ some c
      → ssl.get_tag k n p ≡ some t
      → ssl.decrypt_final k n c t ≡ some []
  pub accepts_empty :
      (k n t : Bytes) → ssl.get_tag k n [] ≡ some t → ssl.decrypt_final k n [] t ≡ some []

pub take-append_length : (xs ys : Bytes) → take (length xs) (xs ++ ys) ≡ xs
take-append_length [] ys = refl
take-append_length (x ∷ xs) ys = ap (λ (l : Bytes). x ∷ l) (take-append_length xs ys)

pub drop-append_length : (xs ys : Bytes) → drop (length xs) (xs ++ ys) ≡ ys
drop-append_length [] ys = refl
drop-append_length (x ∷ xs) ys = drop-append_length xs ys

or_throw-some : (o : Option Bytes) (e b : Bytes) → or_throw o e ≡ ok b → o ≡ some b
unfolding or_throw
or_throw-some none e b h = cc
or_throw-some (some a) e b h = ap some (ok-injective a b h)

is_size : (n m : ℕ) → not (n == m) ≡ false → n ≡ m
is_size n m h = ground arith

negated : {b : Bool} → not b ≡ false → b ≡ true
negated {b} h = ground arith

module _ (ssl : Openssl) (gcm : IsGcm ssl) (k n : Bytes) where
  -- The body of a plaintext is decrypted, and its tag accepted.
  opened :
      (p c t e e' : Bytes)
      → update_if p (ssl.encrypt_update k n p) e ≡ ok c
      → ssl.get_tag k n p ≡ some t
      → (update_if c (ssl.decrypt_update k n c) e' ≡ ok p) × (ssl.decrypt_final k n c t ≡ some [])
  unfolding update_if or_throw
  opened [] c t e e' u tag =
      let is_c = ok-injective [] c u in
      subst
        (λ (c : Bytes).
          (update_if c (ssl.decrypt_update k n c) e' ≡ ok [])
          × (ssl.decrypt_final k n c t ≡ some []))
        is_c (refl, gcm.accepts_empty k n t tag)
  opened (b ∷ p) [] t e e' u tag =
      let empty = gcm.keeps_length k n (b ∷ p) [] (or_throw-some _ e [] u) in
      absurd (omega (arith, empty))
  opened (b ∷ p) (a ∷ c) t e e' u tag =
      let written = or_throw-some _ e (a ∷ c) u in
      (
        ap (λ (o : Option Bytes). or_throw o e') (gcm.decrypts k n (b ∷ p) (a ∷ c) written),
        gcm.accepts k n (b ∷ p) (a ∷ c) t written tag,
      )

  -- The steps of `aes_gcm_decrypt` on a body and a tag.
  decrypt-parts :
      (p c t : Bytes)
      → length k ≡ 32
      → length n ≡ 12
      → length t ≡ 16
      → ssl.cipher_ctx ≡ true
      → ssl.init_cipher ≡ true
      → ssl.set_ivlen ≡ true
      → ssl.init_key ≡ true
      → ssl.set_tag ≡ true
      → update_if c (ssl.decrypt_update k n c) (codes "aes_gcm_decrypt: EVP_DecryptUpdate failed")
        ≡ ok p
      → ssl.decrypt_final k n c t ≡ some []
      → aes_gcm_decrypt ssl k n (c ++ t) ≡ ok p
  unfolding aes_gcm_decrypt or_throw
  decrypt-parts p c t lk ln lt ctx cipher iv key tag u f =
      let total : length (c ++ t) ≡ length c + 16 = omega (arith, length-append c t, lt) in
      let long : ltb (length c + 16) 16 ≡ false = ground arith in
      let enc : length c + 16 - 16 ≡ length c = omega arith in
      rw
        (
          lk,
          ln,
          total,
          long,
          ctx,
          cipher,
          iv,
          key,
          enc,
          take-append_length c t,
          drop-append_length c t,
          u,
          tag,
          f,
        )
        (ap ok (append-nil p))

  encrypt-Ensures :
      (p : Bytes)
      → ssl.set_tag ≡ true
      → Ensures (λ ct. aes_gcm_decrypt ssl k n ct ≡ ok p) (aes_gcm_encrypt ssl k n p)
  unfolding aes_gcm_encrypt
  encrypt-Ensures p set_tag = Ensures-throw_if (not (length k == 32)) _ _ λ lk.
      Ensures-throw_if (not (length n == 12)) _ _ λ ln.
        Ensures-throw_if (not ssl.cipher_ctx) _ _ λ ctx.
          Ensures-throw_if (not ssl.init_cipher) _ _ λ cipher.
            Ensures-throw_if (not ssl.set_ivlen) _ _ λ iv.
              Ensures-throw_if (not ssl.init_key) _ _ λ key.
                Ensures-bind (update_if p (ssl.encrypt_update k n p) _) _ λ c u.
                  Ensures-bind (or_throw (ssl.encrypt_final k n p) _) _ λ f ef.
                    Ensures-bind (or_throw (ssl.get_tag k n p) _) _ λ t et.
                      let tag = or_throw-some _ _ t et in
                      let empty = gcm.final_empty k n p f (or_throw-some _ _ f ef) in
                      let joined : (c ++ f) ++ t ≡ c ++ t =
                        ap (λ (l : Bytes). l ++ t)
                          (ap (λ (g : Bytes). c ++ g) empty ∙ append-nil c) in
                      let (body, final) = opened p c t _ _ u tag in
                      Ensures-ok _ (
                        ap (aes_gcm_decrypt ssl k n) joined
                        ∙ decrypt-parts p c t (is_size (length k) 32 lk) (is_size (length n) 12 ln)
                            (gcm.tag_length k n p t tag) (negated ctx) (negated cipher) (negated iv)
                            (negated key) set_tag body final)

  -- What `aes_gcm_encrypt` returns, `aes_gcm_decrypt` opens again with the same key and nonce,
  -- provided that the calls of OpenSSL do as they are documented and the tag can be set.
  pub aes_gcm_decrypt-encrypt :
      (p ct : Bytes)
      → ssl.set_tag ≡ true
      → aes_gcm_encrypt ssl k n p ≡ ok ct
      → aes_gcm_decrypt ssl k n ct ≡ ok p
  aes_gcm_decrypt-encrypt p ct set_tag e = (encrypt-Ensures p set_tag).at ct e

  updated-AreBytes :
      (p c e : Bytes) → AreBytes p → update_if p (ssl.encrypt_update k n p) e ≡ ok c → AreBytes c
  unfolding update_if
  updated-AreBytes [] c e bytes h = subst AreBytes (ok-injective [] c h) tt
  updated-AreBytes (b ∷ p) c e bytes h = gcm.body_bytes k n (b ∷ p) c bytes (or_throw-some _ e c h)

  bytes-Ensures : (p : Bytes) → AreBytes p → Ensures AreBytes (aes_gcm_encrypt ssl k n p)
  unfolding aes_gcm_encrypt
  bytes-Ensures p bytes = Ensures-throw_if (not (length k == 32)) _ _ λ _.
      Ensures-throw_if (not (length n == 12)) _ _ λ _.
        Ensures-throw_if (not ssl.cipher_ctx) _ _ λ _.
          Ensures-throw_if (not ssl.init_cipher) _ _ λ _.
            Ensures-throw_if (not ssl.set_ivlen) _ _ λ _.
              Ensures-throw_if (not ssl.init_key) _ _ λ _.
                Ensures-bind (update_if p (ssl.encrypt_update k n p) _) _ λ c u.
                  Ensures-bind (or_throw (ssl.encrypt_final k n p) _) _ λ f ef.
                    Ensures-bind (or_throw (ssl.get_tag k n p) _) _ λ t et.
                      let empty = gcm.final_empty k n p f (or_throw-some _ _ f ef) in
                      let last = subst AreBytes (sym empty) tt in
                      let body = updated-AreBytes p c _ bytes u in
                      Ensures-ok _ (
                        All-append _ (c ++ f) t (All-append _ c f body last)
                          (gcm.tag_bytes k n p t (or_throw-some _ _ t et)))

  pub aes_gcm_encrypt-AreBytes :
      (p ct : Bytes) → AreBytes p → aes_gcm_encrypt ssl k n p ≡ ok ct → AreBytes ct
  aes_gcm_encrypt-AreBytes p ct bytes e = (bytes-Ensures p bytes).at ct e
