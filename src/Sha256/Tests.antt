-- ===== src/Sha256/Tests.antt =====
-- The digest of "abc", as FIPS 180-4 gives it.
use nano_dtls.Base.{◌≡◌, refl, [], ◌∷◌, take}
use nano_dtls.Base.{arith}
use nano_dtls.Sha256.Padding.{feed}
use nano_dtls.Sha256.Fips180.{fips180}
use nano_dtls.Sha256.Conforms.{final-fips180}
use nano_dtls.Sha256.{init, sha256, final, update, update_loop, fill_block, zero_pad}
use nano_dtls.Sha256.Compress.{compress}

sha256_runs :
    take 8 (sha256 (97 ∷ 98 ∷ 99 ∷ [])) ≡ 0xba ∷ 0x78 ∷ 0x16 ∷ 0xbf ∷ 0x8f ∷ 0x01 ∷ 0xcf ∷ 0xea ∷ []
unfolding sha256 final update update_loop fill_block zero_pad compress
sha256_runs = refl

final-fips180_example :
    final (feed ((97 ∷ []) ∷ [] ∷ (98 ∷ 99 ∷ []) ∷ []) init) ≡ fips180 (97 ∷ 98 ∷ 99 ∷ [])
final-fips180_example = final-fips180 ((97 ∷ []) ∷ [] ∷ (98 ∷ 99 ∷ []) ∷ []) (omega arith)
