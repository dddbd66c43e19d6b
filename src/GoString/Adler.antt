-- ===== src/GoString/Adler.antt =====
-- `adler32.Checksum` of package hash/adler32 (RFC 1950): two sums modulo 65521.
use knative_extensions_net_i.Base.{ℕ, ◌+◌, ◌*◌, ◌%◌, ◌^◌, ◌<◌, ◌≡◌, refl, [], ◌∷◌, arith}
use knative_extensions_net_i.GoString.{GoString, bytes}

abbrev modulus : ℕ
modulus = 65521

-- `s2 << 16 | s1` after the remaining bytes; both sums stay below the modulus.
unfoldable pub checksum_from : ℕ → ℕ → GoString → ℕ
checksum_from s1 s2 [] = s2 * 65536 + s1
checksum_from s1 s2 (c ∷ s) =
    checksum_from ((s1 + c) % modulus) ((s2 + (s1 + c) % modulus) % modulus) s

unfoldable pub checksum : GoString → ℕ
unfolding checksum_from
checksum = checksum_from 1 0

checksum_from-lt :
    (s1 s2 : ℕ) (s : GoString) → s1 < modulus → s2 < modulus → checksum_from s1 s2 s < 2 ^ 32
unfolding checksum_from
checksum_from-lt s1 s2 [] h k = omega arith
checksum_from-lt s1 s2 (c ∷ s) h k =
    checksum_from-lt ((s1 + c) % modulus) ((s2 + (s1 + c) % modulus) % modulus) s (omega arith)
      (omega arith)

-- The checksum is a 32-bit number.
pub checksum-lt : (s : GoString) → checksum s < 2 ^ 32
unfolding checksum
checksum-lt s = checksum_from-lt 1 0 s (omega arith) (omega arith)

-- The checksum of the published example.
checksum_wikipedia : checksum (bytes "Wikipedia") ≡ 300286872
unfolding checksum
checksum_wikipedia = refl
