-- ===== src/Secrets/Crypto.antt =====
-- pkg/crypto/crypto.go.
use thecloud.Prelude.{
  ℕ, zero, suc, true, false, Option, none, some, [], ◌∷◌, ◌++◌, Text, take, length, ltb, ◌≡◌, refl,
  sym, arith, if◌then◌else◌,
}
use thecloud.Errors.{plain}
use thecloud.Action.{Result, ok, err, Action, Done, pure, raise_if, call, new_id, ◌>>=◌, ◌>>◌}
use thecloud.Secrets.Types.{Primitives, IsSound}

-- `ciphertext[n:]`.
abbrev pub drop : ℕ → Text → Text
drop zero s = s
drop (suc n) [] = []
drop (suc n) (c ∷ s) = drop n s

abbrev pub option_or_error : {A : Type 0} → Option A → Result A
option_or_error none = err plain
option_or_error (some a) = ok a

module _ (c : Primitives) where
  -- `DeriveKey`, with the bytes of the user as the salt: `getDerivedKey`.
  abbrev pub derive_key : ℕ → Result Text
  derive_key user = option_or_error (c.hkdf c.master_key (c.bytes user))

  -- `Encrypt`: the nonce stands before what is sealed with it.
  unfoldable pub encrypt : {S : Type 0} → Text → Text → Action S Text
  encrypt {S} plaintext key = do
    raise_if (if c.is_key key then false else true) plain
    call {S = S} {A = Done} (λ s. (ok tt, s))
    n ← new_id
    pure (c.encode (c.random n ++ c.seal key (c.random n) plaintext))

  -- The end of `Decrypt`.
  unfoldable pub open_sealed : Text → Text → Result Text
  open_sealed ciphertext key =
      if ltb (length ciphertext) c.nonce_size
      then err plain
      else option_or_error
          (c.unseal key (take c.nonce_size ciphertext) (drop c.nonce_size ciphertext))

  -- `Decrypt`.
  unfoldable pub decrypt : Text → Text → Result Text
  decrypt encoded key = elim (c.decode encoded) [
    | none ↦ err plain
    | some ciphertext ↦ if c.is_key key then open_sealed ciphertext key else err plain
  ]

take-append : (s t : Text) → take (length s) (s ++ t) ≡ s
take-append [] t = refl
take-append (x ∷ s) t = cc (take-append s t)

drop-append : (s t : Text) → drop (length s) (s ++ t) ≡ t
drop-append [] t = refl
drop-append (x ∷ s) t = drop-append s t

length-append_le : (s t : Text) → ltb (length (s ++ t)) (length s) ≡ false
length-append_le [] t = ground arith
length-append_le (x ∷ s) t = ground (arith, length-append_le s t)

split_nonce :
    (n : ℕ) (s t : Text)
    → length s ≡ n
    → (take n (s ++ t) ≡ s) × (drop n (s ++ t) ≡ t) × (ltb (length (s ++ t)) n ≡ false)
split_nonce n s t size = rw (sym size) (take-append s t, drop-append s t, length-append_le s t)

pub decrypt-sealed :
    (c : Primitives) (sound : IsSound c) (key plaintext : Text) (n : ℕ)
    → c.is_key key ≡ true
    → decrypt c (c.encode (c.random n ++ c.seal key (c.random n) plaintext)) key ≡ ok plaintext
unfolding decrypt open_sealed
decrypt-sealed c sound key plaintext n fits =
    let sealed = c.seal key (c.random n) plaintext in
    let (nonce, rest, long) = split_nonce c.nonce_size (c.random n) sealed (sound.random_size n) in
    ground (
      arith,
      sound.decode_encode (c.random n ++ sealed),
      fits,
      nonce,
      rest,
      long,
      sound.unseal_seal key (c.random n) plaintext,
    )
