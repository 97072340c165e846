-- ===== src/Server/Crypt/Xor.antt =====
-- src/server/crypt.rs: `hixor` undoes itself.
use ensync.Base.{
  ℕ, zero, suc, ◌+◌, ◌*◌, ◌/◌, ◌%◌, ◌<◌, ◌≡◌, refl, ap, ◌∙◌, [], ◌∷◌, length, arith, All,
}
use ensync.Base.Text.{Bytes}
use ensync.DirHash.{xor_bits, xor_bytes}

-- The lowest bits of a number.
low : ℕ → ℕ → ℕ
low zero b = 0
low (suc n) b = b % 2 + 2 * low n (b / 2)

xor_bits-twice : (n a b : ℕ) → xor_bits n a (xor_bits n a b) ≡ low n b
unfolding xor_bits low
xor_bits-twice zero a b = refl
xor_bits-twice (suc n) a b =
    let x = xor_bits n (a / 2) (b / 2) in
    let y = (a % 2 + b % 2) % 2 + 2 * x in
    let halve : y / 2 ≡ x = omega arith in
    rw halve (omega (arith, xor_bits-twice n (a / 2) (b / 2)))

low-byte : (b : ℕ) → b < 256 → low 8 b ≡ b
unfolding low
low-byte b h = omega arith

pub xor_bytes-twice :
    (as' bs : Bytes)
    → length as' ≡ length bs
    → All (λ b. b < 256) bs
    → xor_bytes as' (xor_bytes as' bs) ≡ bs
unfolding xor_bytes
xor_bytes-twice [] [] h k = refl
xor_bytes-twice [] (b ∷ bs) h k = absurd (omega (arith, h))
xor_bytes-twice (a ∷ as') [] h k = absurd (omega (arith, h))
xor_bytes-twice (a ∷ as') (b ∷ bs) h k =
    ap (λ x. x ∷ xor_bytes as' (xor_bytes as' bs)) (xor_bits-twice 8 a b ∙ low-byte b k.0)
    ∙ ap (λ l. b ∷ l) (xor_bytes-twice as' bs (omega (arith, h)) k.1)
