-- ===== src/Tests/Flow.antt =====
-- The views of flows in mcp.go.
use skytap.Common.{◌≢◌, ◌⊎◌, ◌≡◌, [], ◌∷◌, false, true, arith}
use skytap.Text.{codes}
use skytap.Text.Utf8.{valid}
use skytap.Flow.{bytes_look_binary, encode_body}
use skytap.Flow.Lossless.{recover, recover-encode_body}

recover-encode_body_example :
    (recover (encode_body (0 ∷ 200 ∷ [])) ≡ 0 ∷ 200 ∷ [])
    × (((encode_body (0 ∷ 200 ∷ [])).1 ≢ codes "utf8")
        ⊎ ((valid (0 ∷ 200 ∷ []) ≡ true) × (bytes_look_binary (0 ∷ 200 ∷ []) ≡ false)))
recover-encode_body_example = recover-encode_body (0 ∷ 200 ∷ []) (omega arith, (omega arith, tt))
