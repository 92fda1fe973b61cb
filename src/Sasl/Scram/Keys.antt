-- ===== src/Sasl/Scram/Keys.antt =====
-- xmpp/sasl.go: the lengths of the keys.
use slixmpp_go.Common.{
  ℕ, zero, suc, ◌+◌, ◌-◌, ◌*◌, ◌/◌, ◌≤◌, ◌<◌, ◌≡◌, refl, ap, ◌∙◌, some, List, [], ◌∷◌, ◌++◌, length,
  length-append, arith,
}
use Prim.Native.Nat.{bit_xor}
use slixmpp_go.Sasl.Scram.{
  after, xor_bytes, take_bytes, block_bytes, HashFunction, rounds, blocks, pbkdf2,
}

-- The loop over the bytes does not run out of them, and keeps their number.
pub length-xor_bytes :
    (a b : List ℕ)
    → length a ≤ length b
    → (r : List ℕ) × (xor_bytes a b ≡ some r) × (length r ≡ length a)
unfolding xor_bytes
length-xor_bytes [] b h = ([], refl, refl)
length-xor_bytes (x ∷ a) [] h = absurd (omega arith)
length-xor_bytes (x ∷ a) (y ∷ b) h =
    let (r, e, l) = length-xor_bytes a b (omega arith) in
    (bit_xor x y ∷ r, ap (λ o. after o (λ r. some (bit_xor x y ∷ r))) e, omega arith)

length-take_bytes : (n : ℕ) (xs : List ℕ) → n ≤ length xs → length (take_bytes n xs) ≡ n
length-take_bytes zero xs h = refl
length-take_bytes (suc n) [] h = absurd (omega arith)
length-take_bytes (suc n) (x ∷ xs) h = omega (arith, length-take_bytes n xs)

enough_blocks :
    (key_length size : ℕ) → 0 < size → key_length ≤ (key_length + size - 1) / size * size
enough_blocks key_length size h = grind arith

module _ (H : HashFunction) (sized : (k m : List ℕ) → length (H.hmac k m) ≡ H.size) where
  length-rounds :
      (n : ℕ) (password u t : List ℕ)
      → length t ≡ H.size
      → (r : List ℕ) × (rounds H n password u t ≡ some r) × (length r ≡ H.size)
  unfolding rounds
  length-rounds zero password u t h = (t, refl, h)
  length-rounds (suc n) password u t h =
      let v = H.hmac password u in
      let enough : length t ≤ length v = omega (arith, sized password u) in
      let (t', e, l) = length-xor_bytes t v enough in
      let (r, f, k) = length-rounds n password v t' (l ∙ h) in
      (r, ap (λ o. after o (rounds H n password v)) e ∙ f, k)

  length-blocks :
      (password salt : List ℕ) (iterations n block : ℕ)
      → (r : List ℕ) × (blocks H password salt iterations n block ≡ some r)
        × (length r ≡ n * H.size)
  unfolding blocks
  length-blocks password salt iterations zero block = ([], refl, omega arith)
  length-blocks password salt iterations (suc n) block =
      let u = H.hmac password (salt ++ block_bytes block) in
      let (t, e, l) =
        length-rounds (iterations - 1) password u u (sized password (salt ++ block_bytes block)) in
      let (r, f, k) = length-blocks password salt iterations n (block + 1) in
      (
        t ++ r,
        ap
              (λ o.
                after o (λ t.
                  after (blocks H password salt iterations n (block + 1)) (λ r. some (t ++ r))))
              e
            ∙ ap (λ o. after o (λ r. some (t ++ r))) f,
        length-append t r ∙ total (length t) (length r) l k,
      )
    where
      total : (a b : ℕ) → a ≡ H.size → b ≡ n * H.size → a + b ≡ suc n * H.size
      total a b p q = grind arith

  -- Let the keyed hash give as many bytes as its size says, and the size be positive. Then `pbkdf2`
  -- reads no index out of range and returns exactly as many bytes as are asked for.
  pub length-pbkdf2 :
      0 < H.size
      → (password salt : List ℕ) (iterations key_length : ℕ)
      → (r : List ℕ) × (pbkdf2 H password salt iterations key_length ≡ some r)
        × (length r ≡ key_length)
  unfolding pbkdf2
  length-pbkdf2 h password salt iterations key_length =
      let n = (key_length + H.size - 1) / H.size in
      let (r, e, l) = length-blocks password salt iterations n 1 in
      (
        take_bytes key_length r,
        ap (λ o. after o (λ r. some (take_bytes key_length r))) e,
        length-take_bytes key_length r (omega (arith, enough_blocks key_length H.size h)),
      )
