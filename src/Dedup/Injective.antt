-- ===== src/Dedup/Injective.antt =====
-- About the text that `ComputeDedupKey` of pkg/connectors/delta_store_base.go writes to the digest.
use deltaflow.Prelude.{ℕ, ◌^◌, ◌<◌, Str, [], ◌∷◌, ◌++◌, length, ◌≡◌, refl, sym, ◌∙◌, arith}
use mathlib.Core.List.{append_assoc, append-nil}
use deltaflow.Dedup.{put_uint32, segment, dedup_preimage}

put_uint32-injective :
    (m n : ℕ) (r r' : Str)
    → m < 2 ^ 32
    → n < 2 ^ 32
    → put_uint32 m ++ r ≡ put_uint32 n ++ r'
    → (m ≡ n) × (r ≡ r')
unfolding put_uint32
put_uint32-injective m n r r' h k e = ground arith

append-cancel_length :
    (s t r r' : Str) → length s ≡ length t → s ++ r ≡ t ++ r' → (s ≡ t) × (r ≡ r')
append-cancel_length [] [] r r' l e = (refl, e)
append-cancel_length [] (y ∷ t) r r' l e = absurd (omega arith)
append-cancel_length (x ∷ s) [] r r' l e = absurd (omega arith)
append-cancel_length (x ∷ s) (y ∷ t) r r' l e = ground (arith, append-cancel_length s t r r')

segment-cancel :
    (s t r r' : Str)
    → length s < 2 ^ 32
    → length t < 2 ^ 32
    → segment s ++ r ≡ segment t ++ r'
    → (s ≡ t) × (r ≡ r')
unfolding segment
segment-cancel s t r r' h k e =
    let e' : put_uint32 (length s) ++ (s ++ r) ≡ put_uint32 (length t) ++ (t ++ r') =
      sym (append_assoc (put_uint32 (length s)) s r)
      ∙ e
      ∙ append_assoc (put_uint32 (length t)) t r' in
    let (same, rest) = put_uint32-injective (length s) (length t) (s ++ r) (t ++ r') h k e' in
    append-cancel_length s t r r' same rest

-- Lengths that fit in the four bytes that the code writes for them.
abbrev pub FitsUint32 : Str → Type 0
FitsUint32 s = length s < 2 ^ 32

-- Different windows, types or key hashes, each shorter than 2 ^ 32 bytes, are written differently to
-- the digest.
pub dedup_preimage-injective :
    (w w' t t' h h' : Str)
    → FitsUint32 w × FitsUint32 w' × FitsUint32 t × FitsUint32 t' × FitsUint32 h × FitsUint32 h'
    → dedup_preimage w t h ≡ dedup_preimage w' t' h'
    → (w ≡ w') × (t ≡ t') × (h ≡ h')
unfolding dedup_preimage
dedup_preimage-injective w w' t t' h h' (fw, fw', ft, ft', fh, fh') e =
    let (window, e₁) =
      segment-cancel w w' (segment t ++ segment h) (segment t' ++ segment h') fw fw' e in
    let (type, e₂) = segment-cancel t t' (segment h) (segment h') ft ft' e₁ in
    let (hash, _) =
      segment-cancel h h' [] [] fh fh'
        (append-nil (segment h) ∙ e₂ ∙ sym (append-nil (segment h'))) in
    (window, type, hash)
