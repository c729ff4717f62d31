-- ===== src/Flow/Lossless.antt =====
-- A body can be recovered from its view.
use skytap.Common.{
  ◌≢◌, ◌⊎◌, ◌<◌, ◌≡◌, ◌≢◌, refl, true, false, not, ◌&&◌, [], ◌∷◌, All, if◌then◌else◌, arith,
  Bool-cases, inl, inr,
}
use skytap.Text.{Str, codes, ◌==◌}
use skytap.Text.Equality.{eq_iff}
use skytap.Text.Utf8.{valid}
use skytap.Flow.{encode_body, bytes_look_binary}
use skytap.Flow.Base64.{decode, decode-encode}

-- What a reader makes of a text and the name of its encoding.
unfoldable pub recover : Str × Str → Str
recover (s, e) = if e == codes "base64" then decode s else s

-- The text and the encoding of a view give back the body, byte for byte, whatever it is; a text
-- that is marked as UTF-8 is valid UTF-8 with no zero byte.
pub recover-encode_body :
    (b : Str)
    → All (λ c. c < 256) b
    → (recover (encode_body b) ≡ b)
      × (((encode_body b).1 ≢ codes "utf8") ⊎ ((valid b ≡ true) × (bytes_look_binary b ≡ false)))
unfolding recover encode_body ◌==◌
recover-encode_body [] h = (refl, inl (λ e. cc e))
recover-encode_body (c ∷ b) h =
    elim (Bool-cases (valid (c ∷ b) && not (bytes_look_binary (c ∷ b)))) [
      | inl text ↦ rw text (refl, inr (ground arith, ground arith))
      | inr binary ↦ rw binary (
        decode-encode (c ∷ b) h,
        inl (λ e. absurd (cc ((eq_iff (codes "base64") (codes "utf8")).1 e))),
      )
    ]
