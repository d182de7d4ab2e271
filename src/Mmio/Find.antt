-- ===== src/Mmio/Find.antt =====
-- The device table of main/hyp_mmio.c: which addresses are a device's.
use esp32_p4_linux_hyperviso.Base.{ℕ, ◌+◌, ◌≤◌, ◌<◌, ◌≡◌, ◌↔◌, List, [], ◌∷◌, some, arith}
use esp32_p4_linux_hyperviso.Mmio.{MmioDevice, mmio_devices, find_in, mmio_find}

-- A row of a table.
pub data IsRow (d : MmioDevice) : List MmioDevice → Type 0 where
  here : {row : MmioDevice} {rows : List MmioDevice} → d ≡ row → IsRow d (row ∷ rows)
  there : {row : MmioDevice} {rows : List MmioDevice} → IsRow d rows → IsRow d (row ∷ rows)

-- The window of a device, without the wrap of the C comparison.
pub InWindow : MmioDevice → ℕ → Type 0
InWindow d address = (d.base ≤ address) × (address < d.base + d.size)

find_in_sound :
    (rows : List MmioDevice) (address : ℕ) (d : MmioDevice)
    → find_in rows address ≡ some d
    → IsRow d rows × InWindow d address
unfolding find_in InWindow
find_in_sound [] address d e = absurd (ground arith)
find_in_sound (row ∷ rows) address d e = grind (arith, find_in_sound rows address d, here, there)

-- `mmio_find` finds a device exactly when it is a row of the table and the address lies in its
-- window. So no two windows meet, none wraps round, and the order of the rows does not matter.
pub mmio_find_iff :
    (address : ℕ) (d : MmioDevice)
    → (mmio_find address ≡ some d) ↔ (IsRow d mmio_devices × InWindow d address)
unfolding mmio_find find_in InWindow
mmio_find_iff address d = (find_in_sound mmio_devices address d, λ r. row r.0 r.1)
  where
    row : IsRow d mmio_devices → InWindow d address → mmio_find address ≡ some d
    row (here e) w = let w' = rw e at w in rw e (ground arith)
    row (there (here e)) w = let w' = rw e at w in rw e (ground arith)
    row (there (there (here e))) w = let w' = rw e at w in rw e (ground arith)
    row (there (there (there (here e)))) w = let w' = rw e at w in rw e (ground arith)
    row (there (there (there (there none_left)))) w = elim none_left [ ]
