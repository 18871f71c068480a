-- ===== src/Tests/Blocks.antt =====
-- The theorems on the list of the blocks, on the base64 codec and on bits at concrete inputs.
use build_project.Prelude.{none, ℕ, ◌+◌, pos, true, some, [], ◌∷◌, codes, Bytes, ◌≡◌, refl, arith}
use build_project.Msstd.MsList.{Memory}
use build_project.Msstd.MsList.Chain.{Fresh}
use build_project.Msstd.Tracker.{Tracker, remove_mem_info, tracked_malloc, tracked_free}
use build_project.Msstd.Tracker.Kept.{IsTracked}
use build_project.Msstd.Tracker.Blocks.{remove_mem_info-without}
use build_project.Msstd.Tracker.Allocated.{tracked_free-tracked_malloc}
use build_project.Msstd.Base64.{ms_base64_encode, ms_base64_decode}
use build_project.Msstd.Base64.RoundTrip.{ms_base64_decode-ms_base64_encode}
use build_project.Msstd.Base64.Hex.{base64to16}
use build_project.Msstd.Base64.Hex.Digits.{base64to16-ms_base64_encode}
use build_project.Msstd.Bits.{ms_get_bit, ms_set_bit}
use build_project.Msstd.Bits.Set.{ms_get_bit-ms_set_bit}
use build_project.Tests.Lists.{two_cells, two_nodes, malloc_24, malloc_24-IsFresh}

abbrev two_blocks : Tracker
two_blocks = record { ptr_start = 8; ptr_next = 16 }

two_blocks-IsTracked : IsTracked two_nodes two_blocks two_cells
two_blocks-IsTracked = record {
  start = refl;
  next = refl;
  chain = (refl, refl, (refl, tt), (refl, refl, tt, tt));
}

-- The last block is freed.
remove_mem_info-without_example :
    (tr' : Tracker) × (h' : Memory) × (remove_mem_info 3 two_blocks 7 two_nodes ≡ some (tr', h'))
    × IsTracked h' tr' ((8, 5) ∷ [])
    × ((q : ℕ) → Fresh q two_cells → h' q ≡ two_nodes q)
    × (h' 16 ≡ none)
remove_mem_info-without_example =
    remove_mem_info-without two_nodes two_blocks two_cells 3 7 two_blocks-IsTracked (omega arith)

tracked_free-tracked_malloc_example :
    (tr₁ tr₂ : Tracker) × (h₁ h₂ : Memory) × (tracked_malloc malloc_24 two_blocks 10 9 two_nodes
      ≡ some ((9, tr₁), h₁))
    × IsTracked h₁ tr₁ ((8, 5) ∷ (16, 7) ∷ (24, 9) ∷ [])
    × (tracked_free 4 tr₁ 9 h₁ ≡ some (tr₂, h₂))
    × IsTracked h₂ tr₂ two_cells
tracked_free-tracked_malloc_example =
    tracked_free-tracked_malloc malloc_24 two_nodes two_blocks two_cells 4 10 9 malloc_24-IsFresh
      two_blocks-IsTracked (refl, (refl, tt)) (omega arith) (omega arith) (omega arith)

ms_base64_decode-ms_base64_encode_example :
    (text : Bytes) × (ms_base64_encode (codes "Man!") 4 ≡ some text)
    × (ms_base64_decode text 0 (3 + 1) ≡ some (codes "Man"))
ms_base64_decode-ms_base64_encode_example =
    ms_base64_decode-ms_base64_encode (codes "Man!") 3
      (omega arith, (omega arith, (omega arith, (omega arith, tt))))

base64to16-ms_base64_encode_example :
    (text : Bytes) × (ms_base64_encode (codes "Man!") 4 ≡ some text)
    × (base64to16 text ≡ some (codes "4d616e21", 8))
base64to16-ms_base64_encode_example =
    base64to16-ms_base64_encode (codes "Man!")
      (omega arith, (omega arith, (omega arith, (omega arith, tt))))

ms_get_bit-ms_set_bit_example :
    (v' : ℕ) × (ms_set_bit 5 (pos 1) true ≡ some (pos 0, v'))
    × (ms_get_bit v' (pos 1) ≡ some (pos 1))
ms_get_bit-ms_set_bit_example = ms_get_bit-ms_set_bit 5 1 1 true (omega arith) (omega arith)
