-- ===== src/Configuration/Saving.antt =====
-- A partition saved and loaded again.
use bristlemouth_rs.Common.{
  ℕ, ◌≤◌, ◌≡◌, refl, sym, ap, ◌∙◌, inl, inr, Bool, true, List, ==_refl, le→leb, true≢false, length,
  drop,
}
use bristlemouth_rs.Crc.{crc32_ieee}
use bristlemouth_rs.Configuration.{image_len, max_num_kv}
use bristlemouth_rs.Configuration.Image.{
  ConfigPartition, image_of, covered, num_keys, load_with, seal,
}
use bristlemouth_rs.Configuration.Sealing.{
  Fits, covered-seal, crc32-seal, num_keys-seal, length-image-seal,
}
use bristlemouth_rs.Configuration.Loading.{accepts, load_with_cases}

-- A sealed image of no more keys than a partition holds is one that is accepted.
accepts-seal :
    (p : ConfigPartition)
    → Fits p
    → num_keys p ≤ max_num_kv
    → accepts (image_of (seal p)) true ≡ true
unfolding accepts
accepts-seal p f few =
    rw
      (
        covered-seal p f,
        crc32-seal p f,
        num_keys-seal p f,
        ==_refl (crc32_ieee (covered p)),
        le→leb (num_keys p) max_num_kv few,
      )
      refl

-- A partition that is sealed and whose image is read back into any partition of the same layout is
-- accepted, and that partition then has the image, whose bytes behind the CRC are as before the sealing.
pub load_with-seal :
    (p q : ConfigPartition) (read : List ℕ → List ℕ × Bool)
    → Fits p
    → Fits q
    → q.layout ≡ p.layout
    → num_keys p ≤ max_num_kv
    → read (image_of q) ≡ (image_of (seal p), true)
    → ((load_with q read).1 ≡ true)
      × (image_of (load_with q read).0 ≡ image_of (seal p))
      × (drop 4 (image_of (load_with q read).0) ≡ covered p)
load_with-seal p q read f g same few e =
    elim (load_with_cases q read g
      (ap (λ r. length r.0) e ∙ length-image-seal p f ∙ ap image_len (sym same))) [
        | inl (_, taken, image) ↦ (
          taken,
          image ∙ ap (λ r. r.0) e,
          ap (drop 4) (image ∙ ap (λ r. r.0) e) ∙ covered-seal p f,
        )
        | inr (bad, _, _, _, _, _) ↦
            absurd
              (true≢false (sym (accepts-seal p f few) ∙ sym (ap (λ r. accepts r.0 r.1) e) ∙ bad))
      ]
