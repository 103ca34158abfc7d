-- ===== src/Tests/ConfigurationRuns.antt =====
-- A partition with the layout of a 64-bit host, and the key `foo` set to 7.
use bristlemouth_rs.Common.{
  ℕ, ◌≡◌, ◌⊎◌, refl, arith, Bool, true, false, some, none, List, [], ◌∷◌, ◌++◌, length, take, drop,
  replicate, length-replicate, copy_at, from_le_bytes,
}
use bristlemouth_rs.Configuration.{
  lp64, image_len, max_image_len, Key, new_key, is_valid, valid_first, strlen_of,
}
use bristlemouth_rs.Configuration.Head.{parse, parse_arg, config_type}
use bristlemouth_rs.Configuration.Image.{
  ConfigPartition, new_partition, image_of, num_keys, version, crc32, find_key, find_from,
  load_with, seal, covered, slot, write_key_buf, write_key_meta,
}
use bristlemouth_rs.Configuration.Access.{
  get_cbor, set_cbor, set_headed, set_prepared, prepare_cbor, store_cbor, counted,
}
use bristlemouth_rs.Configuration.Sealing.{Fits}
use bristlemouth_rs.Configuration.Loading.{accepts, load_with_cases}
use bristlemouth_rs.Configuration.Saving.{load_with-seal}
use bristlemouth_rs.Configuration.Counting.{IsValid}
use bristlemouth_rs.Configuration.Reachable.{Reached, Reached-IsValid, start, step, encoded}
use bristlemouth_rs.Configuration.RoundTrip.{get_cbor-set_cbor}

abbrev foo : Key
foo = new_key (0x66 ∷ 0x6f ∷ 0x6f ∷ [])

abbrev seven : List ℕ
seven = 0x07 ∷ []

abbrev blank : ConfigPartition
blank = new_partition lp64

abbrev host_image : ℕ
host_image = image_len lp64

blank-Reached : Reached blank
blank-Reached = start lp64 (omega arith)

Reached-IsValid_example : IsValid (set_cbor blank foo seven).0
Reached-IsValid_example =
    Reached-IsValid (set_cbor blank foo seven).0
      (step blank (set_cbor blank foo seven).0 blank-Reached (encoded blank foo seven))

blank-IsValid : IsValid blank
blank-IsValid = Reached-IsValid blank blank-Reached

stores : (set_cbor blank foo seven).1 ≡ true
unfolding set_cbor set_headed set_prepared prepare_cbor store_cbor new_partition parse parse_arg
    config_type find_key find_from is_valid valid_first
stores = refl

get_cbor-set_cbor_example :
    (idx : ℕ) × ((find_key blank foo ≡ some idx)
      ⊎ ((find_key blank foo ≡ none) × (idx ≡ num_keys blank)))
    × (find_key (set_cbor blank foo seven).0 foo ≡ some idx)
    × (get_cbor (set_cbor blank foo seven).0 foo (replicate 50 0xff)
        ≡ (copy_at (replicate 50 0xff) 0 (seven ++ drop (length seven) (slot blank idx)), some 50))
unfolding new_partition
get_cbor-set_cbor_example =
    get_cbor-set_cbor blank foo seven (replicate 50 0xff) blank-IsValid (omega arith) (omega arith)
      (omega arith) stores

abbrev one_key : ConfigPartition
one_key = (set_cbor blank foo seven).0

blank-Fits : Fits blank
unfolding new_partition
blank-Fits = record { whole = length-replicate {A = ℕ} max_image_len 0; within = omega arith }

one_key-IsValid : IsValid one_key
one_key-IsValid =
    Reached-IsValid one_key (step blank one_key blank-Reached (encoded blank foo seven))

one_key-Fits : Fits one_key
one_key-Fits = record { whole = one_key-IsValid.counts.0; within = one_key-IsValid.fits }

one_key_layout : lp64 ≡ one_key.layout
unfolding set_cbor set_headed set_prepared prepare_cbor store_cbor new_partition parse parse_arg
    config_type find_key find_from is_valid valid_first write_key_buf write_key_meta counted copy_at
    strlen_of
one_key_layout = refl

-- Reads what was sealed.
abbrev reading : List ℕ → List ℕ × Bool
reading _ = (image_of (seal one_key), true)

load_with-seal_example :
    ((load_with blank reading).1 ≡ true)
    × (image_of (load_with blank reading).0 ≡ image_of (seal one_key))
    × (drop 4 (image_of (load_with blank reading).0) ≡ covered one_key)
unfolding new_partition
load_with-seal_example =
    load_with-seal one_key blank reading one_key-Fits blank-Fits one_key_layout one_key-IsValid.few
      refl

-- Reads a flash that was erased.
abbrev erased : List ℕ → List ℕ × Bool
erased _ = (replicate host_image 0xff, true)

load_with_cases_example :
    ((accepts (erased (image_of blank)).0 (erased (image_of blank)).1 ≡ true)
      × ((load_with blank erased).1 ≡ true)
      × (image_of (load_with blank erased).0 ≡ (erased (image_of blank)).0))
    ⊎ ((accepts (erased (image_of blank)).0 (erased (image_of blank)).1 ≡ false)
        × ((load_with blank erased).1 ≡ false)
        × (num_keys (load_with blank erased).0 ≡ 0)
        × (version (load_with blank erased).0 ≡ 0)
        × (crc32 (load_with blank erased).0 ≡ from_le_bytes (take 4 (erased (image_of blank)).0))
        × (drop 9 (image_of (load_with blank erased).0) ≡ drop 9 (erased (image_of blank)).0))
unfolding new_partition
load_with_cases_example =
    load_with_cases blank erased blank-Fits (length-replicate {A = ℕ} host_image 0xff)
