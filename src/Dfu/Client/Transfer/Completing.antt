-- ===== src/Dfu/Client/Transfer/Completing.antt =====
-- A transfer over a flash whose writes succeed does not fail.
use bristlemouth_rs.Common.{
  ℕ, ◌+◌, ◌^◌, ◌<◌, ◌≤◌, ◌≡◌, sym, ap, subst, ◌∙◌, inl, inr, Bool, true, false, some, List, [], ◌∷◌,
  ◌++◌, arith, le→ltb, if◌then◌else◌, length, take, length-append,
}
use bristlemouth_rs.Crc.{crc16_ccitt}
use bristlemouth_rs.Crc.Chaining.{crc16-append}
use bristlemouth_rs.Dfu.Event.{client_validating, client_reboot_req}
use bristlemouth_rs.Dfu.Core.{set_pending_state_change}
use bristlemouth_rs.Dfu.Machine.{Dfu, Effects}
use bristlemouth_rs.Dfu.Client.{Client, ask_chunk}
use bristlemouth_rs.Dfu.Client.Receiving.{
  process_payload, gather, fill_page, page_written, process_end, end_written, count_chunk,
  finish_transfer, next_or_end, receive_chunk, with_crc,
}
use bristlemouth_rs.Dfu.Client.Confirming.{validating_entry}
use bristlemouth_rs.Dfu.Client.Transfer.{StoresWrites, Holds}
use bristlemouth_rs.Dfu.Client.Transfer.Payload.{
  Gathers, Kept, process_payload-Gathers, process_end-Gathers,
}
use bristlemouth_rs.Dfu.Client.Transfer.Steps.{
  Frame, process_end-Frame, process_payload-Frame, finish_transfer-true, gathered_true,
}

-- Every write succeeds.
abbrev pub WritesSucceed : {F : Type 0} → Effects F → Type 0
WritesSucceed {F} fx = (at : ℕ) (bytes : List ℕ) (f : F) → (fx.flash_write at bytes f).1 ≡ true

contradiction : (b : Bool) → b ≡ false → b ≡ true → ⊥
contradiction b p q = cc

module _ {F : Type 0} (fx : Effects F) (works : WritesSucceed fx) where
  process_payload-true :
      (d : Dfu Client F) (chunk : List ℕ) → 0 < length chunk → (process_payload fx d chunk).1 ≡ true
  unfolding process_payload gather fill_page page_written
  process_payload-true d [] h = absurd (omega arith)
  process_payload-true d (b ∷ bs) h = grind (arith, works)

  process_end-true : (d : Dfu Client F) → (process_end fx d).1 ≡ true
  unfolding process_end end_written
  process_end-true d = grind (arith, works)

  module _ {slot : F → List ℕ} (law : StoresWrites fx slot) where
    -- A chunk that is not empty is gathered.
    gathered-Kept :
        (d : Dfu Client F) (bytes chunk : List ℕ)
        → Gathers slot d.roles d.effects bytes
        → length bytes + length chunk < 2 ^ 32
        → 0 < length chunk
        → length chunk ≤ 1024
        → Kept slot (process_payload fx d chunk) (bytes ++ chunk)
    gathered-Kept d bytes chunk g small some_bytes fits =
        elim (process_payload-Gathers law d bytes chunk g small (omega arith)) [
          | inl (none_there, _) ↦ absurd (not_empty none_there)
          | inr (inl (_, lost)) ↦
              absurd (contradiction _ lost.refused (process_payload-true d chunk some_bytes))
          | inr (inr kept) ↦ kept
        ]
      where
        not_empty : chunk ≡ [] → ⊥
        not_empty e = let z : length chunk ≡ 0 = ap length e in omega arith

    validation_passes :
        (d : Dfu Client F)
        → d.roles.image_size ≡ d.roles.flash_offset
        → d.roles.crc16 ≡ d.roles.running_crc16
        → (validating_entry fx d).core.pending ≡ some client_reboot_req
    unfolding validating_entry set_pending_state_change
    validation_passes d size crc = ground arith

    -- The end of the transfer of an image that is as it was offered.
    end_accepts :
        (g : Dfu Client F) (all : List ℕ)
        → Gathers slot g.roles g.effects all
        → length all < 2 ^ 32
        → g.roles.image_size ≡ length all
        → g.roles.crc16 ≡ g.roles.running_crc16
        → let x = finish_transfer (process_end fx g) in
          (x.core.pending ≡ some client_validating)
          × ((validating_entry fx x).core.pending ≡ some client_reboot_req)
          × (take (length all) (slot x.effects) ≡ all)
    end_accepts g all h small size crc = elim (process_end-Gathers law g all h small) [
      | inl refused ↦ absurd (contradiction _ refused (process_end-true g))
      | inr (done, offset, image) ↦
          let (pending, c, f) = finish_transfer-true law (process_end fx g) done in
          let same = (process_end-Frame fx g).same in
          (
            pending,
            validation_passes (finish_transfer (process_end fx g))
                (ap (λ (k : Client). k.image_size) c
                  ∙ same.image_size
                  ∙ size
                  ∙ sym offset
                  ∙ sym (ap (λ (k : Client). k.flash_offset) c))
                (ap (λ (k : Client). k.crc16) c
                  ∙ same.crc16
                  ∙ crc
                  ∙ sym same.running_crc16
                  ∙ sym (ap (λ (k : Client). k.running_crc16) c)),
            ap (λ e. take (length all) (slot e)) f ∙ image,
          )
    ]

    -- With every write succeeding, the last chunk of an image, the image being as long as offered and
    -- its CRC the offered one, makes the client ask for the validation; on entry this asks for the
    -- reboot, and the slot holds the image.
    pub last_chunk_accepted :
        (d : Dfu Client F) (bytes chunk : List ℕ)
        → Holds slot d.roles d.effects bytes
        → 0 < length chunk
        → length chunk ≤ 1024
        → d.roles.num_chunks ≤ d.roles.current_chunk + 1
        → d.roles.image_size ≡ length bytes + length chunk
        → d.roles.crc16 ≡ crc16_ccitt 0 (bytes ++ chunk)
        → ((receive_chunk fx d chunk).core.pending ≡ some client_validating)
          × ((validating_entry fx (receive_chunk fx d chunk)).core.pending ≡ some client_reboot_req)
          × (take d.roles.image_size (slot (receive_chunk fx d chunk).effects) ≡ bytes ++ chunk)
    unfolding receive_chunk next_or_end count_chunk
    last_chunk_accepted d bytes chunk h some_bytes fits last size crc =
        subst
          (λ (r : Dfu Client F).
            (r.core.pending ≡ some client_validating)
            × ((validating_entry fx r).core.pending ≡ some client_reboot_req)
            × (take d.roles.image_size (slot r.effects) ≡ bytes ++ chunk))
          (sym (ap (next_or_end fx) (gathered_true law p kept.done) ∙ ended))
          (let (pending, validates, image) =
              end_accepts (count_chunk p.0) (bytes ++ chunk)
                (record {
                  page = kept.gathers.page;
                  room = kept.gathers.room;
                  stored = kept.gathers.stored;
                  counted = kept.gathers.counted;
                })
                (omega (arith, length-append bytes chunk, h.bounded, h.current))
                (same.same.image_size ∙ whole)
                (same.same.crc16 ∙ crc ∙ sym (same.same.running_crc16 ∙ crc_all)) in
            (
              pending,
              validates,
              ap (λ n. take n (slot (finish_transfer (process_end fx (count_chunk p.0))).effects))
                    whole
                  ∙ image,
            ))
      where
        p : Dfu Client F × Bool
        p = process_payload fx (with_crc d chunk) chunk

        kept : Kept slot p (bytes ++ chunk)
        kept =
            gathered-Kept (with_crc d chunk) bytes chunk
              (record { page = h.page; room = h.room; stored = h.stored; counted = h.counted })
              (omega (arith, h.bounded, h.current)) some_bytes fits

        same : Frame (with_crc d chunk) p.0
        same = process_payload-Frame fx (with_crc d chunk) chunk

        whole : d.roles.image_size ≡ length (bytes ++ chunk)
        whole = omega (arith, length-append bytes chunk, size)

        crc_all : (with_crc d chunk).roles.running_crc16 ≡ crc16_ccitt 0 (bytes ++ chunk)
        crc_all = ap (λ s. crc16_ccitt s chunk) h.crc ∙ sym (crc16-append bytes chunk 0)

        ended :
            next_or_end fx (count_chunk p.0) ≡ finish_transfer (process_end fx (count_chunk p.0))
        ended =
            ap
              (λ b.
                if b
                then ask_chunk fx (count_chunk p.0)
                else finish_transfer (process_end fx (count_chunk p.0)))
              (le→ltb _ _ (omega (arith, h.current, same.same.current_chunk, same.same.num_chunks)))
