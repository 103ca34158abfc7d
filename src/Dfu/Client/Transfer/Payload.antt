-- ===== src/Dfu/Client/Transfer/Payload.antt =====
-- `process_payload` and `process_end` refine the appending of bytes.
use bristlemouth_rs.Common.{
  ℕ, ◌+◌, ◌-◌, ◌%◌, ◌^◌, ◌<◌, ◌≤◌, ◌≡◌, refl, sym, ap, ◌∙◌, subst, inl, inr, ◌⊎◌, Bool, true, false,
  List, [], ◌∷◌, ◌++◌, arith, ltb, ltb→lt, ltb→le, ◌==◌, ==_iff, Bool-cases, length, take, drop,
  length-append, length-take, length-drop, take-append-drop, append_assoc, append-nil, copy_at,
  length-copy_at, take-copy_at, copy_at_end,
}
use bristlemouth_rs.Dfu.Machine.{Dfu, Effects}
use bristlemouth_rs.Dfu.Client.{Client, img_page_len}
use bristlemouth_rs.Dfu.Client.Receiving.{
  process_payload, gather, fill_page, page_written, process_end, end_written, close_slot,
}
use bristlemouth_rs.Dfu.Client.Transfer.{StoresWrites}

-- What the page buffer and the slot hold, without the CRC and the counts of chunks.
pub record Gathers {F : Type 0} (slot : F → List ℕ) (c : Client) (f : F) (bytes : List ℕ)
    : Type 0 where
  pub page : length c.page_buf ≡ img_page_len
  pub room : c.page_byte_counter < img_page_len
  pub stored : take c.flash_offset (slot f) ++ take c.page_byte_counter c.page_buf ≡ bytes
  pub counted : c.flash_offset + c.page_byte_counter ≡ length bytes

-- A client that is the same but for the page buffer and the offset.
pub record SameTransfer (c c' : Client) : Type 0 where
  pub image_size : c'.image_size ≡ c.image_size
  pub num_chunks : c'.num_chunks ≡ c.num_chunks
  pub crc16 : c'.crc16 ≡ c.crc16
  pub running_crc16 : c'.running_crc16 ≡ c.running_crc16
  pub current_chunk : c'.current_chunk ≡ c.current_chunk

-- A payload that was gathered, and one whose page could not be written.
pub record Kept {F : Type 0} (slot : F → List ℕ) (r : Dfu Client F × Bool) (bytes : List ℕ)
    : Type 0 where
  pub done : r.1 ≡ true
  pub gathers : Gathers slot r.0.roles r.0.effects bytes

-- The flash refuses the page that `head` fills, and the client goes on with an empty page.
record Refused {F : Type 0} (fx : Effects F) (d : Dfu Client F) (head : List ℕ)
    (r : Dfu Client F × Bool) : Type 0 where
  unwritten :
      (fx.flash_write d.roles.flash_offset
        (copy_at d.roles.page_buf d.roles.page_byte_counter head)
        d.effects).1
      ≡ false
  refused : r.1 ≡ false
  offset : r.0.roles.flash_offset ≡ d.roles.flash_offset
  emptied : r.0.roles.page_byte_counter ≡ 0

-- The chunk fills the page, and the flash refuses the page that it fills.
pub record Lost {F : Type 0} (fx : Effects F) (d : Dfu Client F) (chunk : List ℕ)
    (r : Dfu Client F × Bool) : Type 0 where
  pub full : img_page_len ≤ d.roles.page_byte_counter + length chunk
  pub unwritten :
      (fx.flash_write d.roles.flash_offset
        (copy_at d.roles.page_buf d.roles.page_byte_counter
          (take (img_page_len - d.roles.page_byte_counter) chunk))
        d.effects).1
      ≡ false
  pub refused : r.1 ≡ false
  pub offset : r.0.roles.flash_offset ≡ d.roles.flash_offset
  pub emptied : r.0.roles.page_byte_counter ≡ 0

module _ {F : Type 0} {fx : Effects F} {slot : F → List ℕ} (law : StoresWrites fx slot) where
  -- A page that is written is the page that was filled.
  fill_page-Gathers :
      (d : Dfu Client F) (bytes head tail : List ℕ)
      → Gathers slot d.roles d.effects bytes
      → length bytes + length head + length tail < 2 ^ 32
      → d.roles.page_byte_counter + length head ≡ img_page_len
      → length tail < img_page_len
      → Refused fx d head (fill_page fx d head tail)
        ⊎ Kept slot (fill_page fx d head tail) ((bytes ++ head) ++ tail)
  unfolding fill_page page_written
  fill_page-Gathers d bytes head tail g small full short =
      elim (Bool-cases (fx.flash_write off filled d.effects).1) [
        | inr refused ↦ inl (
            rw (refused, page_written)
              (record { unwritten = refused; refused = refl; offset = refl; emptied = refl }))
        | inl done ↦ inr (
            rw (done, page_written)
              (record {
                done = refl;
                gathers = (record {
                  page = length-copy_at filled 0 tail (omega (arith, page)) ∙ page;
                  room = omega arith;
                  stored = λ i. written done i ++ kept i;
                  counted = omega (
                    arith,
                    length-append (bytes ++ head) tail,
                    length-append bytes head,
                    g.counted,
                  );
                });
              }))
      ]
    where
      off : ℕ
      off = d.roles.flash_offset

      filled : List ℕ
      filled = copy_at d.roles.page_buf d.roles.page_byte_counter head

      page : length filled ≡ img_page_len
      page =
          length-copy_at d.roles.page_buf d.roles.page_byte_counter head (omega (arith, g.page))
          ∙ g.page

      written :
          (fx.flash_write off filled d.effects).1 ≡ true
          → take ((off + img_page_len) % 2 ^ 32) (slot (fx.flash_write off filled d.effects).0)
            ≡ bytes ++ head
      written done =
          ap (λ n. take n (slot (fx.flash_write off filled d.effects).0))
            (omega (arith, page, g.counted))
          ∙ law.written off filled d.effects done
          ∙ ap (λ p. take off (slot d.effects) ++ p)
              (copy_at_end d.roles.page_buf d.roles.page_byte_counter head (omega (arith, g.page)))
          ∙ sym (append_assoc (take off (slot d.effects)) _ head)
          ∙ ap (λ p. p ++ head) g.stored

      kept : take (length tail % 2 ^ 16) (copy_at filled 0 tail) ≡ tail
      kept =
          ap (λ n. take n (copy_at filled 0 tail)) (omega arith)
          ∙ take-copy_at filled 0 tail (omega arith)

  -- The chunk stays within the page.
  within_page :
      (d : Dfu Client F) (bytes chunk : List ℕ)
      → Gathers slot d.roles d.effects bytes
      → d.roles.page_byte_counter + length chunk < img_page_len
      → Gathers slot
          (record (d.roles) {
            page_buf = copy_at d.roles.page_buf d.roles.page_byte_counter chunk;
            page_byte_counter = d.roles.page_byte_counter + length chunk;
          })
          d.effects
          (bytes ++ chunk)
  within_page d bytes chunk g fits = record {
    page =
        length-copy_at d.roles.page_buf d.roles.page_byte_counter chunk (omega (arith, g.page))
        ∙ g.page;
    room = fits;
    stored =
        ap (λ p. take d.roles.flash_offset (slot d.effects) ++ p)
          (take-copy_at d.roles.page_buf d.roles.page_byte_counter chunk (omega (arith, g.page)))
        ∙ sym (append_assoc (take d.roles.flash_offset (slot d.effects)) _ chunk)
        ∙ ap (λ p. p ++ chunk) g.stored;
    counted = omega (arith, length-append bytes chunk, g.counted);
  }

  gather-Gathers :
      (d : Dfu Client F) (bytes chunk : List ℕ)
      → Gathers slot d.roles d.effects bytes
      → length bytes + length chunk < 2 ^ 32
      → length chunk < img_page_len
      → Lost fx d chunk (gather fx d chunk) ⊎ Kept slot (gather fx d chunk) (bytes ++ chunk)
  unfolding gather
  gather-Gathers d bytes chunk g small short =
      elim (Bool-cases (ltb (d.roles.page_byte_counter + length chunk) img_page_len)) [
        | inl fits ↦ inr (
            rw fits
              (record { done = refl; gathers = within_page d bytes chunk g (ltb→lt _ _ fits) }))
        | inr full ↦ rw full (
            lost_or_kept full (
              subst
                (λ all. Refused fx d (take rest chunk) (filled full) ⊎ Kept slot (filled full) all)
                (append_assoc bytes _ _ ∙ ap (λ p. bytes ++ p) (take-append-drop rest chunk))
                (fill_page-Gathers d bytes (take rest chunk) (drop rest chunk) g
                  (omega (arith, length-take rest chunk, length-drop rest chunk))
                  (omega (arith, length-take rest chunk, g.room, ltb→le _ _ full))
                  (omega (arith, length-drop rest chunk)))))
      ]
    where
      rest : ℕ
      rest = img_page_len - d.roles.page_byte_counter

      filled :
          ltb (d.roles.page_byte_counter + length chunk) img_page_len ≡ false → Dfu Client F × Bool
      filled full = fill_page fx d (take rest chunk) (drop rest chunk)

      lost_or_kept :
          (full : ltb (d.roles.page_byte_counter + length chunk) img_page_len ≡ false)
          → Refused fx d (take rest chunk) (filled full) ⊎ Kept slot (filled full) (bytes ++ chunk)
          → Lost fx d chunk (filled full) ⊎ Kept slot (filled full) (bytes ++ chunk)
      lost_or_kept full (inr kept) = inr kept
      lost_or_kept full (inl r) = inl (record {
        full = ltb→le _ _ full;
        unwritten = r.unwritten;
        refused = r.refused;
        offset = r.offset;
        emptied = r.emptied;
      })

  -- For a flash that stores what it says it has written, and fewer than 2 ^ 32 bytes in all, a chunk
  -- shorter than a page is appended to what the client holds, unless it fills the page and the flash,
  -- asked to write that page, fails: then it is lost with the page, which is emptied, and the offset
  -- stays. An empty chunk changes nothing and is refused.
  pub process_payload-Gathers :
      (d : Dfu Client F) (bytes chunk : List ℕ)
      → Gathers slot d.roles d.effects bytes
      → length bytes + length chunk < 2 ^ 32
      → length chunk < img_page_len
      → ((chunk ≡ []) × (process_payload fx d chunk ≡ (d, false)))
        ⊎ ((0 < length chunk) × Lost fx d chunk (process_payload fx d chunk))
        ⊎ Kept slot (process_payload fx d chunk) (bytes ++ chunk)
  unfolding process_payload
  process_payload-Gathers d bytes [] g small short = inl (refl, refl)
  process_payload-Gathers d bytes (b ∷ bs) g small short =
      elim (gather-Gathers d bytes (b ∷ bs) g small short) [
        | inl lost ↦ inr (inl (omega arith, lost))
        | inr kept ↦ inr (inr kept)
      ]

  -- The last page: where it is written, the slot holds all bytes.
  pub process_end-Gathers :
      (d : Dfu Client F) (bytes : List ℕ)
      → Gathers slot d.roles d.effects bytes
      → length bytes < 2 ^ 32
      → ((process_end fx d).1 ≡ false)
        ⊎ (((process_end fx d).1 ≡ true)
            × ((process_end fx d).0.roles.flash_offset ≡ length bytes)
            × (take (length bytes) (slot (process_end fx d).0.effects) ≡ bytes))
  unfolding process_end end_written close_slot
  process_end-Gathers d bytes g small = elim (Bool-cases (d.roles.page_byte_counter == 0)) [
    | inl none_left ↦ inr (
      rw none_left refl,
      rw none_left (omega (arith, g.counted, no_rest none_left)),
      rw none_left (whole (no_rest none_left)),
    )
    | inr some_left ↦ elim (Bool-cases (fx.flash_write off last d.effects).1) [
      | inr refused ↦ inl (rw (some_left, refused, end_written) refl)
      | inl done ↦ inr (
        rw (some_left, done, end_written) refl,
        rw (some_left, done, end_written) (omega (arith, g.counted)),
        rw (some_left, done, end_written) (written done),
      )
    ]
  ]
    where
      off : ℕ
      off = d.roles.flash_offset

      last : List ℕ
      last = take d.roles.page_byte_counter d.roles.page_buf

      no_rest : (d.roles.page_byte_counter == 0) ≡ true → d.roles.page_byte_counter ≡ 0
      no_rest h = (==_iff _ 0).0 h

      whole :
          d.roles.page_byte_counter ≡ 0
          → take (length bytes) (slot (fx.flash_close d.effects).0) ≡ bytes
      whole z =
          ap (take (length bytes)) (law.closed d.effects)
          ∙ ap (λ n. take n (slot d.effects)) (omega (arith, g.counted))
          ∙ sym (append-nil (take off (slot d.effects)))
          ∙ ap (λ n. take off (slot d.effects) ++ take n d.roles.page_buf) (sym z)
          ∙ g.stored

      written :
          (fx.flash_write off last d.effects).1 ≡ true
          → take (length bytes) (slot (fx.flash_close (fx.flash_write off last d.effects).0).0)
            ≡ bytes
      written done =
          ap (take (length bytes)) (law.closed (fx.flash_write off last d.effects).0)
          ∙ ap (λ n. take n (slot (fx.flash_write off last d.effects).0))
              (omega (
                arith,
                g.counted,
                g.page,
                g.room,
                length-take d.roles.page_byte_counter d.roles.page_buf,
              ))
          ∙ law.written off last d.effects done
          ∙ g.stored
