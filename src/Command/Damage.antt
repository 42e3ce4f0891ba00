-- ===== src/Command/Damage.antt =====
-- Where `deserialize` panics.
use arch_db.Prelude.{ℕ, ◌≤◌, ◌<◌, ◌≡◌, ◌↔◌, List, ◌∷◌, arith, length, get_elem?, some, panic, ◌≢◌}
use arch_db.Prelude.Bytes.{slice}
use arch_db.Command.{Crc32, deserialize}

-- A Set record that is cut inside its two length fields.
pub record IsCutSet (bytes : List ℕ) : Type 0 where
  pub kind : get_elem? bytes 4 ≡ some 1
  pub long : 9 ≤ length bytes
  pub short : length bytes < 13

module _ (crc : Crc32) where
  whole :
      (a0 a1 a2 a3 a4 a5 a6 a7 a8 a9 a10 a11 a12 : ℕ) (s : List ℕ)
      → deserialize crc (a0 ∷ a1 ∷ a2 ∷ a3 ∷ a4 ∷ a5 ∷ a6 ∷ a7 ∷ a8 ∷ a9 ∷ a10 ∷ a11 ∷ a12 ∷ s)
        ≢ panic
  unfolding deserialize slice
  whole a0 a1 a2 a3 a4 a5 a6 a7 a8 a9 a10 a11 a12 s h = ground arith

  cut : (bytes : List ℕ) → deserialize crc bytes ≡ panic → IsCutSet bytes
  unfolding deserialize slice
  cut (a0 ∷ a1 ∷ a2 ∷ a3 ∷ a4 ∷ a5 ∷ a6 ∷ a7 ∷ a8 ∷ a9 ∷ a10 ∷ a11 ∷ a12 ∷ s) h =
      absurd (whole a0 a1 a2 a3 a4 a5 a6 a7 a8 a9 a10 a11 a12 s h)
  cut bytes h = ground arith

  panics : (bytes : List ℕ) → IsCutSet bytes → deserialize crc bytes ≡ panic
  unfolding deserialize slice
  panics (a0 ∷ a1 ∷ a2 ∷ a3 ∷ a4 ∷ a5 ∷ a6 ∷ a7 ∷ a8 ∷ a9 ∷ a10 ∷ a11 ∷ a12 ∷ s) h =
      absurd (omega arith)
  panics bytes h = ground (arith, h.kind, h.long)

  -- A byte string makes `deserialize` panic exactly when its kind byte is 1 and it holds at least 9
  -- and fewer than 13 bytes.
  pub deserialize-eq-panic_iff : (bytes : List ℕ) → (deserialize crc bytes ≡ panic) ↔ IsCutSet bytes
  deserialize-eq-panic_iff bytes = (cut bytes, panics bytes)
