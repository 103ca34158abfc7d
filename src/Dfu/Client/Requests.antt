-- ===== src/Dfu/Client/Requests.antt =====
-- Which updates the client accepts.
use bristlemouth_rs.Common.{
  ℕ, ◌<◌, ◌≤◌, ◌≡◌, refl, sym, ap, subst, ◌∙◌, inl, inr, ◌⊎◌, Bool, true, false, not, ◌&&◌, Option,
  none, some, List, arith, ltb, ltb→le, leb, ◌==◌, Bool-cases,
}
use bristlemouth_rs.Dfu.Message.{DfuAddress, ImgInfo}
use bristlemouth_rs.Dfu.Event.{error, client_receiving, body}
use bristlemouth_rs.Dfu.Event.Reboot.{dfu_reboot_magic}
use bristlemouth_rs.Dfu.Core.{Core, delay, set_error, stop_timer, set_pending_state_change}
use bristlemouth_rs.Dfu.Core.Timers.{fire_due-Quiet}
use bristlemouth_rs.Dfu.Machine.{Dfu, Effects}
use bristlemouth_rs.Dfu.Client.{
  Client, img_info_force_update, chunk_count, client_to_error, accept_image, flash_refused,
  erase_slot, open_slot, consider_image, consider_body, process_update_request, request_of,
}

delay-reboot_info : (c : Core) (ms : ℕ) → (delay c ms).reboot_info ≡ c.reboot_info
unfolding delay
delay-reboot_info c ms = (fire_due-Quiet _).reboot_info

module _ {F : Type 0} (fx : Effects F) where
  -- The image's code is the one that runs, and the request does not insist.
  abbrev pub is_running : F → ImgInfo → Bool
  is_running f info =
      (info.git_sha == fx.git_sha f) && not (info.filter_key == img_info_force_update)

  -- The answers of the flash, in the order of the calls.
  abbrev pub opened : F → F × Bool
  opened f = fx.flash_open f

  abbrev pub sized : F → F × ℕ
  sized f = fx.flash_size (opened f).0

  abbrev pub erased : F → F × Bool
  erased f = let again = fx.flash_size (sized f).0 in fx.flash_erase 0 again.1 again.0

  -- A client that has accepted an image.
  pub record AcceptsImage (d r : Dfu Client F) (info : ImgInfo) : Type 0 where
    pub other : is_running d.effects info ≡ false
    pub chunk : info.chunk_size ≤ 1024
    pub ready : (opened d.effects).1 ≡ true
    pub room : info.image_size < (sized d.effects).1
    pub clean : (erased d.effects).1 ≡ true
    pub pending : r.core.pending ≡ some client_receiving
    pub client : r.roles ≡ record (d.roles) {
      image_size = info.image_size;
      num_chunks = chunk_count info.image_size info.chunk_size;
      crc16 = info.crc16;
    }
    pub mark : r.core.reboot_info ≡ record {
      magic = dfu_reboot_magic;
      major = info.major_ver;
      minor = info.minor_ver;
      host_node_id = d.roles.host_node_id;
      git_sha = info.git_sha;
    }

  -- One that has not: it stays, or asks for the error state, and keeps the reboot information.
  pub record Refuses (d r : Dfu Client F) : Type 0 where
    pub pending : (r.core.pending ≡ d.core.pending) ⊎ (r.core.pending ≡ some error)
    pub mark : r.core.reboot_info ≡ d.core.reboot_info

  consider_image_cases :
      (d : Dfu Client F) (info : ImgInfo)
      → Refuses d (consider_image fx d info) ⊎ AcceptsImage d (consider_image fx d info) info
  unfolding consider_image open_slot erase_slot flash_refused accept_image client_to_error
      set_pending_state_change set_error stop_timer
  consider_image_cases d info = elim (Bool-cases (is_running d.effects info)) [
    | inl same ↦ inl (rw same (record { pending = inl refl; mark = refl }))
    | inr other ↦ elim (Bool-cases (ltb 1024 info.chunk_size)) [
      | inl big ↦ inl (rw (other, big) (record { pending = inr refl; mark = refl }))
      | inr fine ↦ elim (Bool-cases (opened d.effects).1) [
        | inr shut ↦ inl (rw (other, fine, shut) (record { pending = inr refl; mark = refl }))
        | inl ready ↦ elim (Bool-cases (leb (sized d.effects).1 info.image_size)) [
          | inl small ↦
              inl (rw (other, fine, ready, small) (record { pending = inl refl; mark = refl }))
          | inr room ↦ elim (Bool-cases (erased d.effects).1) [
            | inr dirty ↦ inl (
                rw (other, fine, ready, room, dirty, erase_slot)
                  (record { pending = inr refl; mark = refl }))
            | inl clean ↦ inr (
                rw (other, fine, ready, room, clean, erase_slot)
                  (record {
                    other = other;
                    chunk = ltb→le _ _ fine;
                    ready = ready;
                    room = ground arith;
                    clean = clean;
                    pending = refl;
                    client = refl;
                    mark = delay-reboot_info _ 10;
                  }))
          ]
        ]
      ]
    ]
  ]

  -- The client knows the host by the request.
  abbrev pub from_host : Dfu Client F → ℕ → Dfu Client F
  from_host d host = record d { roles = record (d.roles) { host_node_id = host } }

  -- A start request that can be read makes the client ask for the receiving state only if the image
  -- is another one than the running one, or forced, its chunks are within the limit, the slot could be
  -- opened, is larger than the image and could be erased; it has then the image's size, chunks and CRC
  -- and leaves its mark for the reboot. Otherwise it asks at most for the error state, and leaves no
  -- mark.
  pub process_update_request_cases :
      (d : Dfu Client F) (bytes : List ℕ) (a : DfuAddress) (info : ImgInfo)
      → body d.core.current.content ≡ some bytes
      → request_of bytes ≡ some (a, info)
      → Refuses (from_host d a.src_node_id) (process_update_request fx d)
        ⊎ AcceptsImage (from_host d a.src_node_id) (process_update_request fx d) info
  unfolding process_update_request consider_body
  process_update_request_cases d bytes a info carried read =
      subst
        (λ r.
          Refuses (from_host d a.src_node_id) r ⊎ AcceptsImage (from_host d a.src_node_id) r info)
        (sym considered) (consider_image_cases (from_host d a.src_node_id) info)
    where
      considered : process_update_request fx d ≡ consider_image fx (from_host d a.src_node_id) info
      considered =
          ap
            (λ (o : Option (List ℕ)). elim o as (λ _. Dfu Client F) [
              | none ↦ d
              | some b ↦ consider_body fx d b
            ])
            carried
          ∙ ap
              (λ (o : Option (DfuAddress × ImgInfo)). elim o as (λ _. Dfu Client F) [
                | none ↦ d
                | some (a, i) ↦ consider_image fx (from_host d a.src_node_id) i
              ])
              read
