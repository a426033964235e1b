-- ===== src/Envelope/Tests.antt =====
-- The theorem on envelopes at concrete bytes.
use encedo_chat.Prelude.{◌≡◌, refl, false, [], ◌∷◌, ok}
use encedo_chat.Envelope.{has_envelope, wrap_blob, unwrap_blob, unwrap_blob-wrap_blob}

plain_bare : has_envelope (1 ∷ 2 ∷ []) ≡ false
unfolding has_envelope
plain_bare = refl

unwrap_blob-wrap_blob_example :
    (unwrap_blob (wrap_blob (9 ∷ 8 ∷ [])) ≡ ok (9 ∷ 8 ∷ []))
    × (unwrap_blob (1 ∷ 2 ∷ []) ≡ ok (1 ∷ 2 ∷ []))
unwrap_blob-wrap_blob_example = unwrap_blob-wrap_blob (9 ∷ 8 ∷ []) (1 ∷ 2 ∷ []) plain_bare
